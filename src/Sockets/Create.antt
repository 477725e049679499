-- ===== src/Sockets/Create.antt =====
-- common/socket_utils.hpp: `createSocket` and the options that it sets. What the system calls give
-- for one address of `getaddrinfo` is a record of results, one for each call; the bytes of addresses
-- and the messages to the log are not modelled.
pub mod Connect
use low_latency_learn.Base.{
  ℕ, zero, suc, ◌/◌, ◌%◌, Bool, true, false, not, ◌&&◌, ◌||◌, Option, none, some, List, [], ◌∷◌,
  if◌then◌else◌, ◌==◌, ltb,
}
use low_latency_learn.Base.Int.{ℤ, negsuc, pos, eqb_ℤ}

abbrev pub minus_one : ℤ
minus_one = negsuc 0

pub record Calls : Type 0 where
  pub socket : ℤ
  pub get_flags : ℤ
  pub has_nonblock : Bool
  pub set_flags : ℤ
  pub tcp_no_delay : ℤ
  pub connect : ℤ
  pub would_block : Bool
  pub reuse_addr : ℤ
  pub bind : ℤ
  pub listen : ℤ
  pub multicast_ttl : ℤ
  pub ip_ttl : ℤ
  pub so_timestamp : ℤ

abbrev pub succeeds : ℤ → Bool
succeeds result = not (eqb_ℤ result minus_one)

-- `setNonBlocking`; as in the source, its last result is compared with 1.
unfoldable pub set_non_blocking : Calls → Bool
set_non_blocking c =
    if eqb_ℤ c.get_flags minus_one
    then false
    else if c.has_nonblock
    then true
    else not (eqb_ℤ c.set_flags (pos 1))

abbrev pub set_no_delay : Calls → Bool
set_no_delay c = succeeds c.tcp_no_delay

abbrev pub set_so_timestamp : Calls → Bool
set_so_timestamp c = succeeds c.so_timestamp

abbrev pub set_ttl : Calls → Bool
set_ttl c = succeeds c.ip_ttl

abbrev pub set_mcast_ttl : Calls → Bool
set_mcast_ttl c = succeeds c.multicast_ttl

-- The arguments of `createSocket`, with `atoi(ip)`, the first number of the address.
pub record Options : Type 0 where
  pub first_octet : ℕ
  pub is_udp : Bool
  pub is_blocking : Bool
  pub is_listening : Bool
  pub ttl : ℕ
  pub needs_so_timestamp : Bool

-- `atoi(ip.c_str()) & 0xe0`
abbrev pub is_multicast : Options → Bool
is_multicast o = not (o.first_octet / 32 % 8 == 0)

-- The conditions under which one round of the loop returns -1, in their order.
unfoldable pub refuses_mode : Options → Calls → Bool
unfolding set_non_blocking
refuses_mode o c =
    not o.is_blocking && (not (set_non_blocking c) || (not o.is_udp && not (set_no_delay c)))

unfoldable pub refuses_connection : Options → Calls → Bool
refuses_connection o c =
    (not o.is_listening && (eqb_ℤ c.connect (pos 1) && not c.would_block))
    || ((o.is_listening && not (succeeds c.reuse_addr))
        || ((o.is_listening && not (succeeds c.bind))
            || (not o.is_udp && (o.is_listening && not (succeeds c.listen)))))

unfoldable pub refuses_options : Options → Calls → Bool
refuses_options o c =
    (o.is_udp
      && (ltb 0 o.ttl
          && ((is_multicast o && not (set_mcast_ttl c))
              || (not (is_multicast o) && not (set_ttl c)))))
    || (o.needs_so_timestamp && not (set_so_timestamp c))

-- The loop over the addresses, with the descriptor of the last one; none for `return -1`.
unfoldable pub create_all : Options → (fd : ℤ) → List Calls → Option ℤ
unfolding refuses_mode refuses_connection refuses_options
create_all o fd [] = some fd
create_all o fd (c ∷ cs) =
    let rest = create_all o c.socket cs in
    if eqb_ℤ c.socket minus_one
      || (refuses_mode o c || (refuses_connection o c || refuses_options o c))
    then none
    else rest

-- `createSocket`; `addresses` is none when `getaddrinfo` fails.
unfoldable pub create_socket : Options → (addresses : Option (List Calls)) → ℤ
unfolding create_all
create_socket o none = minus_one
create_socket o (some cs) = elim (create_all o minus_one cs) [ none ↦ minus_one | some fd ↦ fd ]
