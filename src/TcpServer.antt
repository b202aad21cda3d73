-- ===== src/TcpServer.antt =====
-- src/sockets/tcp_server.rs: the socket of a server that talks to every connected client. The
-- locks on the list of clients are free between the calls.
pub mod Factory
pub mod Packing
pub mod Messages
pub mod Accept
pub mod Serving
pub mod Shutdown
use polysock.Base.{
  ℕ, ◌+◌, String, Bool, true, false, not, ◌||◌, Option, none, some, List, [], ◌∷◌, ◌++◌, zero, suc,
}
use polysock.Base.{ltb, ◌==◌, if◌then◌else◌, length, take, write_at}
use polysock.Base.{
  M, Ret, Outcome, ok, err, panic, new, invalid_input, eprintln, sleep_micros, shutdown_both, Event,
  Text, lit, pure, ◌>>=◌, ◌>>◌, returns,
}
use polysock.Sock.{
  ComplexSock, SocketFactory, SocketParams, SockDocViewer, description, Parsed, parsed, rejected,
  fetch_add,
}
use polysock.SerdeHelpers.{ip_local_or_default}
use polysock.Net.{Result, success, failure, IpAddr, TcpOs}

pub record TcpServerConfig : Type 0 where
  pub ip_local : IpAddr
  pub port_local : ℕ

-- The fields as they are given.
pub record TcpServerFields : Type 0 where
  pub ip_local : Option IpAddr
  pub port_local : ℕ

abbrev pub server_config : TcpServerFields → TcpServerConfig
server_config fields = record {
  ip_local = ip_local_or_default fields.ip_local;
  port_local = fields.port_local;
}

-- The capacity of a `BufReader`.
abbrev pub capacity : ℕ
capacity = 8192

module _ (os : TcpOs) where
  open os use {
    Stream, Listener, recv, write_all, set_nonblocking, bind, listener_nonblocking, accept,
  }

  -- A connection with the address of its other end.
  abbrev pub Client : Type 0
  Client = Stream × String

  -- The thread that accepts connections: at work on its listener, or finished.
  pub data Thread : Type 0 where
    listening : Listener → Thread
    finished : Result (Unit {0}) → Thread

  pub record TcpServer : Type 0 where
    pub stype : String
    pub id : ℕ
    pub config : TcpServerConfig
    pub clients : List Client
    pub blocking : Bool
    pub is_running : Bool
    pub handle : Option Thread

  -- A new connection: it is kept if its mode can be set.
  unfoldable pub add_client : TcpServer → Listener → Client → TcpServer
  add_client server listener (stream, addr) =
      let (r, stream') = set_nonblocking (not server.blocking) stream in
      elim r [
        | failure e ↦ record server { handle = some (finished (failure e)) }
        | success done ↦ record server {
          clients = server.clients ++ ((stream', addr) ∷ []);
          handle = some (listening listener);
        }
      ]

  -- One round of the thread's loop.
  unfoldable pub accept_round : Listener → M TcpServer (Unit {0})
  unfolding add_client
  accept_round listener server =
      let (r, listener') = accept listener in
      if server.is_running
      then (elim r [
        | success cli ↦ returns tt (add_client server listener' cli) []
        | failure e ↦
            returns tt (record server { handle = some (listening listener') })
              (sleep_micros 10000 ∷ [])
      ])
      else returns tt (record server { handle = some (finished (success tt)) }) []

  -- The thread runs for some rounds.
  unfoldable pub run_thread : ℕ → M TcpServer (Unit {0})
  unfolding accept_round
  run_thread zero server = pure tt server
  run_thread (suc n) server = elim server.handle [
    | some (listening listener) ↦ (do accept_round listener; run_thread n) server
    | other ↦ pure tt server
  ]

  -- The end of `open`: an error of a thread that has finished already.
  unfoldable pub check_thread : M TcpServer (Unit {0})
  check_thread server = elim server.handle [
    | some (finished (failure e)) ↦ record {
      out = err e;
      state = record server { handle = none };
      log = [];
    }
    | some (finished (success done)) ↦ pure tt (record server { handle = none })
    | other ↦ pure tt server
  ]

  -- `open`, where the thread runs for `rounds` rounds before the check.
  unfoldable pub open_server : ℕ → M TcpServer (Unit {0})
  unfolding run_thread check_thread
  open_server rounds server = elim (bind server.config.ip_local server.config.port_local) [
    | failure e ↦ record { out = err e; state = server; log = [] }
    | success listener ↦
        let (r, listener') = listener_nonblocking true listener in
        elim r [
          | failure e ↦ record { out = err e; state = server; log = [] }
          | success done ↦
              (do run_thread rounds; check_thread)
                (record server { is_running = true; handle = some (listening listener') })
        ]
  ]

  abbrev pub shutdowns : List Client → List Event
  shutdowns [] = []
  shutdowns ((stream, addr) ∷ rest) = shutdown_both addr ∷ shutdowns rest

  -- What `close` does once the thread has been joined.
  unfoldable pub drop_clients : M TcpServer (Unit {0})
  drop_clients server =
      returns tt (record server { is_running = false; handle = none; clients = [] })
        (shutdowns server.clients)

  -- `close`. If a round of the thread is `pending`, the flag has been read in it before the store;
  -- the thread ends at its next look at the flag, so the join returns.
  unfoldable pub close_server : Bool → M TcpServer (Unit {0})
  unfolding run_thread drop_clients
  close_server pending server = elim server.handle [
    | none ↦ pure tt (record server { is_running = false })
    | some thread ↦ if pending then (run_thread 1 >> drop_clients) server else drop_clients server
  ]

  -- `read`: the loop over the clients, with `total` bytes in the buffer. `fill_buf` of the fresh
  -- `BufReader` reads from the stream; what is not consumed is dropped with the `BufReader`.
  unfoldable pub read_clients : List Client → ℕ → ℕ → List ℕ → ℕ × List ℕ × List Client
  read_clients [] sz total bytes = (total, bytes, [])
  read_clients ((stream, addr) ∷ rest) sz total bytes =
      let (r, stream') = recv capacity stream in
      elim r [
        | failure e ↦
            let (t, d, cs) = read_clients rest sz total bytes in (t, d, (stream', addr) ∷ cs)
        | success tmp ↦ elim (length tmp == 0) [
          | true ↦ let (t, d, cs) = read_clients rest sz total bytes in (t, d, (stream', addr) ∷ cs)
          | false ↦ elim (ltb sz (total + length tmp) || ltb (length bytes) (total + length tmp)) [
            | true ↦ (total, bytes, (stream', addr) ∷ rest)
            | false ↦
                let (t, d, cs) =
                  read_clients rest sz (total + length tmp) (write_at bytes total tmp) in
                (t, d, (stream', addr) ∷ cs)
          ]
        ]
      ]

  unfoldable pub read_server : List ℕ → ℕ → M TcpServer (ℕ × List ℕ)
  unfolding read_clients
  read_server bytes sz server =
      let (total, bytes', clients') = read_clients server.clients sz 0 bytes in
      returns (total, bytes') (record server { clients = clients' }) []

  -- `write`: failures are ignored. The slice is taken for every client.
  unfoldable pub write_clients : List ℕ → List Client → List Client
  write_clients bytes [] = []
  write_clients bytes ((stream, addr) ∷ rest) =
      ((write_all bytes stream).1, addr) ∷ write_clients bytes rest

  unfoldable pub write_server : List ℕ → ℕ → M TcpServer (Unit {0})
  unfolding write_clients
  write_server bytes sz server = elim server.clients [
    | [] ↦ pure tt server
    | cli ∷ rest ↦
        if ltb (length bytes) sz
        then record { out = panic; state = server; log = [] }
        else returns tt (record server { clients = write_clients (take sz bytes) (cli ∷ rest) }) []
  ]

  unfoldable pub set_block : Bool → M TcpServer (Unit {0})
  set_block is_blocking server = returns tt (record server { blocking = is_blocking }) []

  abbrev addresses : List Client → Text
  addresses [] = []
  addresses ((stream, addr) ∷ rest) = lit "\nClient " ∷ lit addr ∷ addresses rest

  -- The description lists the connected clients.
  unfoldable pub get_description : TcpServer → Text
  get_description server = elim server.clients [
    | [] ↦ description server.stype server.id
    | cli ∷ rest ↦
        description server.stype server.id ++ (lit ", connected clients:" ∷ addresses (cli ∷ rest))
  ]

  -- An operation before which the accepting thread has run for some rounds. While an operation has the
  -- lock on the clients the thread cannot add one, so it does not matter where in it they fall.
  abbrev pub accepting : {A : Type 0} → (TcpServer → ℕ) → M TcpServer A → M TcpServer A
  accepting rounds op server = (run_thread (rounds server) >> op) server

  -- The socket, for the number of rounds that the thread runs during `open` and before each other
  -- operation, which may depend on the state, and for whether one is pending at `close`.
  abbrev pub tcp_server : (TcpServer → ℕ) → Bool → ComplexSock
  tcp_server rounds pending = record {
    State = TcpServer;
    open_sock = λ server. open_server (rounds server) server;
    close = accepting rounds (close_server pending);
    drop_sock = pure tt;
    read = λ bytes sz. accepting rounds (read_server bytes sz);
    write = λ bytes sz. accepting rounds (write_server bytes sz);
    set_block = λ is_blocking. accepting rounds (set_block is_blocking);
    get_type_name = λ server. server.stype;
    get_id = λ server. server.id;
    get_description = get_description;
  }
