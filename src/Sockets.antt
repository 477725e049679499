-- ===== src/Sockets.antt =====
-- The sockets of common/ (tcp_socket.cpp, mcast_socket.cpp, tcp_server.cpp, socket_utils.hpp), and the
-- loops of the `recvCallback`s over what they receive.
pub mod Framing
pub mod Callbacks
pub mod Tcp
pub mod Mcast
pub mod Create
pub mod Addresses
pub mod Server
