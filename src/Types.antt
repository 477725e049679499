-- ===== src/Types.antt =====
-- common/types.hpp: the limits of the exchange, the identifiers and their invalid values, sides
-- and algorithm types. A price is an int64_t, kept as an integer; the other identifiers are
-- unsigned words, kept as numbers.
pub mod Algos
pub mod Strings
use Prim.Native.String.{String}
use text.Mathlib.Text.{◌==◌ as str_eq}
use low_latency_learn.Base.{
  ℕ, ◌+◌, ◌-◌, ◌*◌, ◌%◌, ◌^◌, Bool, true, false, List, [], ◌∷◌, if◌then◌else◌, ltb,
}
use low_latency_learn.Base.Int.{ℤ, pos, negsuc}

abbrev pub me_max_tickers : ℕ
me_max_tickers = 8

abbrev pub me_max_client_updates : ℕ
me_max_client_updates = 256 * 1024

abbrev pub me_max_market_updates : ℕ
me_max_market_updates = 256 * 1024

abbrev pub me_max_num_clients : ℕ
me_max_num_clients = 256

abbrev pub me_max_order_ids : ℕ
me_max_order_ids = 1024 * 1042

abbrev pub me_max_price_levels : ℕ
me_max_price_levels = 256

abbrev pub order_id_invalid : ℕ
order_id_invalid = 2 ^ 64 - 1

abbrev pub ticker_id_invalid : ℕ
ticker_id_invalid = 2 ^ 32 - 1

abbrev pub client_id_invalid : ℕ
client_id_invalid = 2 ^ 32 - 1

abbrev pub Price : Type 0
Price = ℤ

abbrev pub price_invalid : Price
price_invalid = pos (2 ^ 63 - 1)

abbrev pub qty_invalid : ℕ
qty_invalid = 2 ^ 32 - 1

abbrev pub priority_invalid : ℕ
priority_invalid = 2 ^ 64 - 1

-- uint32_t subtraction and addition, and a size_t or uint64_t increment.
abbrev pub sub32 : ℕ → ℕ → ℕ
sub32 a b = (a + 2 ^ 32 - b) % 2 ^ 32

abbrev pub add32 : ℕ → ℕ → ℕ
add32 a b = (a + b) % 2 ^ 32

abbrev pub inc64 : ℕ → ℕ
inc64 n = (n + 1) % 2 ^ 64

-- The conversion of a signed 64-bit value to uint64_t.
abbrev pub to_u64 : ℤ → ℕ
to_u64 (pos n) = n % 2 ^ 64
to_u64 (negsuc n) = 2 ^ 64 - 1 - n % 2 ^ 64

-- The conversions between uint32_t and int32_t.
abbrev pub to_i32 : ℕ → ℤ
to_i32 n = if ltb (n % 2 ^ 32) (2 ^ 31) then pos (n % 2 ^ 32) else negsuc (2 ^ 32 - 1 - n % 2 ^ 32)

abbrev pub to_u32 : ℤ → ℕ
to_u32 (pos n) = n % 2 ^ 32
to_u32 (negsuc n) = 2 ^ 32 - 1 - n % 2 ^ 32

-- `std::abs`.
abbrev pub abs : ℤ → ℤ
abs (pos n) = pos n
abs (negsuc n) = pos (n + 1)

pub data Side : Type 0 where
  invalid buy sell : Side

abbrev pub is_buy : Side → Bool
is_buy Side.buy = true
is_buy _ = false

abbrev pub is_sell : Side → Bool
is_sell Side.sell = true
is_sell _ = false

unfoldable pub side_to_string : Side → String
side_to_string Side.buy = "BUY"
side_to_string Side.sell = "SELL"
side_to_string Side.invalid = "INVALID"

-- `static_cast<int>(side)`
unfoldable pub side_to_value : Side → ℤ
side_to_value Side.invalid = pos 0
side_to_value Side.buy = pos 1
side_to_value Side.sell = negsuc 0

-- `static_cast<size_t>(side) + 1`: the -1 of a sell wraps, and the sum wraps back.
unfoldable pub side_to_index : Side → ℕ
unfolding side_to_value
side_to_index s = inc64 (to_u64 (side_to_value s))

pub data AlgoType : Type 0 where
  invalid random maker taker max : AlgoType

unfoldable pub algo_type_to_string : AlgoType → String
algo_type_to_string AlgoType.invalid = "INVALID"
algo_type_to_string AlgoType.random = "RANDOM"
algo_type_to_string AlgoType.maker = "MAKER"
algo_type_to_string AlgoType.taker = "TAKER"
algo_type_to_string AlgoType.max = "MAX"

-- The values that the loop of `stringToAlgoType` runs through, from INVALID to MAX.
abbrev pub algo_types : List AlgoType
algo_types =
    AlgoType.invalid ∷ AlgoType.random ∷ AlgoType.maker ∷ AlgoType.taker ∷ AlgoType.max ∷ []

unfoldable pub string_to_algo_type_loop : String → List AlgoType → AlgoType
string_to_algo_type_loop str [] = AlgoType.invalid
string_to_algo_type_loop str (t ∷ ts) =
    let rest = string_to_algo_type_loop str ts in
    if str_eq (algo_type_to_string t) str then t else rest

unfoldable pub string_to_algo_type : String → AlgoType
unfolding string_to_algo_type_loop algo_type_to_string
string_to_algo_type str = string_to_algo_type_loop str algo_types

-- The operations of `double` that the trading side uses. What they compute is not modelled: a set
-- of doubles is a parameter.
pub record Floats : Type 1 where
  pub Double : Type 0
  pub of_int : ℤ → Double
  pub add : Double → Double → Double
  pub sub : Double → Double → Double
  pub mul : Double → Double → Double
  pub div : Double → Double → Double
  pub lt : Double → Double → Bool
  pub le : Double → Double → Bool
  pub eq : Double → Double → Bool

pub record RiskCfg (D : Type 0) : Type 0 where
  pub max_order_size : ℕ
  pub max_position : ℕ
  pub max_loss : D

pub record TradeEngineCfg (D : Type 0) : Type 0 where
  pub clip : ℕ
  pub threshold : D
  pub risk_cfg : RiskCfg D
