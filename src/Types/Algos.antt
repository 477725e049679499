-- ===== src/Types/Algos.antt =====
-- common/types.hpp: the names of the algorithm types.
use low_latency_learn.Base.{◌≡◌, refl}
use low_latency_learn.Types.{
  AlgoType, algo_type_to_string, string_to_algo_type, string_to_algo_type_loop,
}

-- The name of an algorithm type is read back as this type.
pub string_to_algo_type-algo_type_to_string :
    (t : AlgoType) → string_to_algo_type (algo_type_to_string t) ≡ t
unfolding string_to_algo_type string_to_algo_type_loop algo_type_to_string
string_to_algo_type-algo_type_to_string AlgoType.invalid = refl
string_to_algo_type-algo_type_to_string AlgoType.random = refl
string_to_algo_type-algo_type_to_string AlgoType.maker = refl
string_to_algo_type-algo_type_to_string AlgoType.taker = refl
string_to_algo_type-algo_type_to_string AlgoType.max = refl
