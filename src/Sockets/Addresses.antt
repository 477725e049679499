-- ===== src/Sockets/Addresses.antt =====
-- common/socket_utils.hpp: the configuration of a socket as text, the address of an interface and the
-- membership in a multicast group. What the system calls give are arguments.
use Prim.Native.String.{String, ◌++◌}
use low_latency_learn.Base.{
  Bool, true, false, ◌&&◌, Option, none, some, List, [], ◌∷◌, if◌then◌else◌,
}
use low_latency_learn.Base.Int.{ℤ}
use low_latency_learn.Sockets.Create.{succeeds}

pub record SocketCfg : Type 0 where
  pub ip : String
  pub iface : String
  pub port : ℤ
  pub is_udp : Bool
  pub is_listening : Bool
  pub needs_so_timestamp : Bool

-- A bool in a stream.
abbrev shown_bool : Bool → String
shown_bool true = "1"
shown_bool false = "0"

-- `SocketCfg::toString`
unfoldable pub socket_cfg_to_string : (digits : ℤ → String) → SocketCfg → String
socket_cfg_to_string digits c =
    "SocketCfg[ip: "
    ++ c.ip
    ++ " iface:"
    ++ c.iface
    ++ " port:"
    ++ digits c.port
    ++ " is_udp:"
    ++ shown_bool c.is_udp
    ++ " is_listening:"
    ++ shown_bool c.is_listening
    ++ " needs_SO_timestamp:"
    ++ shown_bool c.needs_so_timestamp
    ++ "]"

-- An entry of the list of `getifaddrs`: whether it has an address of the internet, and whether it is
-- that of the interface; and what `getnameinfo` makes of the address.
pub record Ifaddr : Type 0 where
  pub is_inet : Bool
  pub has_name : Bool
  pub host : String

-- The loop of `getIfaceIP`: each entry that fits is written over the one before.
unfoldable pub last_host : List Ifaddr → (buf : String) → String
last_host [] buf = buf
last_host (a ∷ rest) buf = last_host rest (if a.is_inet && a.has_name then a.host else buf)

-- `getIfaceIP`, on the list of the interfaces, if `getifaddrs` gives one.
unfoldable pub get_iface_ip : Option (List Ifaddr) → String
unfolding last_host
get_iface_ip none = ""
get_iface_ip (some ifaddrs) = last_host ifaddrs ""

-- `join`, on the result of `setsockopt`.
abbrev pub join : (result : ℤ) → Bool
join result = succeeds result
