-- ===== src/Positions/Strings.antt =====
-- trading/strategy/position_keeper.hpp and market_order.hpp: positions and the best bid and offer as
-- text. The digits of a whole number and of a double are parameters.
use Prim.Native.String.{String, ◌++◌}
use low_latency_learn.Base.{ℕ, zero, suc, ◌+◌, Option, none, some, if◌then◌else◌}
use low_latency_learn.Base.Int.{ℤ, pos, eqb_ℤ}
use low_latency_learn.Types.{Side, side_to_index, add32, abs, me_max_tickers, Floats}
use low_latency_learn.Types.Strings.{qty_to_string, price_to_string, ticker_id_to_string}
use low_latency_learn.Positions.{Bbo, PositionInfo}

module _ (digits : ℤ → String) where
  -- `BBO::toString`
  unfoldable pub bbo_to_string : Bbo → String
  bbo_to_string b =
      "BBO{"
      ++ qty_to_string digits b.bid_qty
      ++ "@"
      ++ price_to_string digits b.bid_price
      ++ "X"
      ++ qty_to_string digits b.ask_qty
      ++ "@"
      ++ price_to_string digits b.ask_price
      ++ "}"

  module _ (F : Floats) (shown : F.Double → String) where
    -- The mean price at which a side was opened, 0 without a position.
    abbrev vwap : PositionInfo F.Double → Side → F.Double
    vwap p side =
        let mean = F.div (p.open_vwap (side_to_index side)) (F.of_int (abs p.position)) in
        if eqb_ℤ p.position (pos 0) then F.of_int (pos 0) else mean

    abbrev shown_bbo : Option Bbo → String
    shown_bbo none = ""
    shown_bbo (some b) = bbo_to_string b

    -- `PositionInfo::toString`
    unfoldable pub position_info_to_string : PositionInfo F.Double → String
    unfolding bbo_to_string
    position_info_to_string p =
        "Position{pos:"
        ++ digits p.position
        ++ " u-pnl:"
        ++ shown p.unreal_pnl
        ++ " r-pnl:"
        ++ shown p.real_pnl
        ++ " t-pnl:"
        ++ shown p.total_pnl
        ++ " vol:"
        ++ qty_to_string digits p.volume
        ++ " vwaps:["
        ++ shown (vwap p Side.buy)
        ++ "X"
        ++ shown (vwap p Side.sell)
        ++ "] "
        ++ shown_bbo p.bbo
        ++ "}"

    -- The loop of `PositionKeeper::toString` from the instrument `i` on, with the two sums.
    unfoldable pub print_positions :
        (left i : ℕ)
        → (ℕ → PositionInfo F.Double)
        → (total_pnl : F.Double) → (total_vol : ℕ) → String
    unfolding position_info_to_string
    print_positions zero i ticker_position total_pnl total_vol =
        "Total PnL: " ++ shown total_pnl ++ " Vol: " ++ digits (pos total_vol) ++ "\n"
    print_positions (suc left) i ticker_position total_pnl total_vol =
        let p : PositionInfo F.Double = ticker_position i in
        "TickerId: "
        ++ ticker_id_to_string digits i
        ++ " "
        ++ position_info_to_string p
        ++ "\n"
        ++ print_positions left (i + 1) ticker_position (F.add total_pnl p.total_pnl)
            (add32 total_vol p.volume)

    -- `PositionKeeper::toString`
    unfoldable pub position_keeper_to_string : (ℕ → PositionInfo F.Double) → String
    unfolding print_positions
    position_keeper_to_string ticker_position =
        print_positions me_max_tickers 0 ticker_position (F.of_int (pos 0)) 0
