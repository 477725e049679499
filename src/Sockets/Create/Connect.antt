-- ===== src/Sockets/Create/Connect.antt =====
-- common/socket_utils.hpp: what the result of `connect` means for `createSocket`.
use mathlib.Core.List.{map}
use low_latency_learn.Base.{◌≡◌, refl, Bool, true, some, List, [], ◌∷◌}
use low_latency_learn.Base.Int.{ℤ, pos}
use low_latency_learn.Sockets.Create.{
  Calls, Options, minus_one, refuses_connection, create_all, create_socket,
}

-- The same results, but for that of `connect`, and for what `errno` says then.
abbrev pub with_connect : ℤ → Bool → Calls → Calls
with_connect result would_block c = record c { connect = result; would_block = would_block }

refuses_connection-with_connect :
    (o : Options) (c : Calls) (would_block : Bool)
    → refuses_connection o (with_connect minus_one would_block c)
      ≡ refuses_connection o (with_connect (pos 0) true c)
unfolding refuses_connection
refuses_connection-with_connect o c would_block = refl

create_all-with_connect :
    (o : Options) (would_block : Bool) (fd : ℤ) (cs : List Calls)
    → create_all o fd (map (with_connect minus_one would_block) cs)
      ≡ create_all o fd (map (with_connect (pos 0) true) cs)
unfolding create_all
create_all-with_connect o would_block fd [] = refl
create_all-with_connect o would_block fd (c ∷ cs) =
    rw
      (
        create_all-with_connect o would_block c.socket cs,
        refuses_connection-with_connect o c would_block,
      )
      refl

-- Whether `connect` succeeds for all addresses or fails for all of them, with any error, the result
-- of `createSocket` is the same.
pub create_socket-connect :
    (o : Options) (would_block : Bool) (cs : List Calls)
    → create_socket o (some (map (with_connect minus_one would_block) cs))
      ≡ create_socket o (some (map (with_connect (pos 0) true) cs))
unfolding create_socket
create_socket-connect o would_block cs =
    rw (create_all-with_connect o would_block minus_one cs, create_socket) refl
