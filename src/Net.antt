-- ===== src/Net.antt =====
-- The sockets of the operating system that src/sockets/tcp_server.rs, tcp_client.rs and udp.rs use:
-- parameters of their models, with what the standard library says of them.
pub mod Received
use polysock.Base.{kind, would_block, true, false, ℕ, Bool, String, List, Error}

-- What a call of the operating system answers.
pub data Result (A : Type 0) : Type 0 where
  success : A → Result A
  failure : Error → Result A

-- `err.kind() == ErrorKind::WouldBlock`
abbrev pub is_would_block : Error → Bool
is_would_block e = elim (kind e) [ would_block ↦ true | other_kind ↦ false ]

-- An `IpAddr` and a `SocketAddr` are their texts.
abbrev pub IpAddr : Type 0
IpAddr = String

-- `TcpStream` and `TcpListener`. `recv n` is a read into a buffer of `n` bytes.
pub record TcpOs : Type 1 where
  pub Stream : Type 0
  pub Listener : Type 0
  pub recv : ℕ → Stream → Result (List ℕ) × Stream
  pub write_all : List ℕ → Stream → Result (Unit {0}) × Stream
  pub set_nonblocking : Bool → Stream → Result (Unit {0}) × Stream
  pub connect : IpAddr → ℕ → Result Stream
  pub bind : IpAddr → ℕ → Result Listener
  pub listener_nonblocking : Bool → Listener → Result (Unit {0}) × Listener
  pub accept : Listener → Result (Stream × String) × Listener

-- `UdpSocket`. `recv n` receives into a buffer of `n` bytes.
pub record UdpOs : Type 1 where
  pub Socket : Type 0
  pub recv : ℕ → Socket → Result (List ℕ) × Socket
  pub send_to : List ℕ → IpAddr × ℕ → Socket → Result ℕ × Socket
  pub set_nonblocking : Bool → Socket → Result (Unit {0}) × Socket
  pub bind : IpAddr → ℕ → Result Socket
