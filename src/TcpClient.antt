-- ===== src/TcpClient.antt =====
-- src/sockets/tcp_client.rs: the TCP client.
pub mod Streams
use polysock.Base.{Text, lit, ℕ, String, Bool, true, false, not, Option, none, some, List, [], ◌∷◌}
use polysock.Base.{ltb, if◌then◌else◌, length, take, write_at}
use polysock.Base.{
  M, err, panic, from_kind, new, not_connected, invalid_input, eprintln, shutdown_both, lift, pure,
  ◌>>=◌, returns,
}
use polysock.Sock.{
  ComplexSock, SocketFactory, SocketParams, SockDocViewer, description, Parsed, parsed, rejected,
  fetch_add,
}
use polysock.SerdeHelpers.{port_or_default}
use polysock.Net.{Result, success, failure, IpAddr, is_would_block, TcpOs}

pub record TcpClientConfig : Type 0 where
  pub ip_dst : IpAddr
  pub port_dst : ℕ

-- The fields as they are given.
pub record TcpClientFields : Type 0 where
  pub ip_dst : IpAddr
  pub port_dst : Option ℕ

abbrev pub client_config : TcpClientFields → TcpClientConfig
client_config fields = record { ip_dst = fields.ip_dst; port_dst = port_or_default fields.port_dst }

module _ (os : TcpOs) where
  open os use {Stream, recv, write_all, set_nonblocking, connect}

  pub record SimpleTcpClient : Type 0 where
    pub stype : String
    pub id : ℕ
    pub config : TcpClientConfig
    pub stream : Option Stream
    pub is_blocking : Bool

  abbrev pub with_stream : SimpleTcpClient → Stream → SimpleTcpClient
  with_stream client stream = record client { stream = some stream }

  unfoldable pub open_client : M SimpleTcpClient (Unit {0})
  open_client client = elim (connect client.config.ip_dst client.config.port_dst) [
    | failure e ↦ lift (err e) client
    | success stream ↦
        let (r, stream') = set_nonblocking (not client.is_blocking) stream in
        elim r [
          | failure e ↦ lift (err e) (with_stream client stream')
          | success done ↦ pure tt (with_stream client stream')
        ]
  ]

  -- The stream is kept after its shutdown, which the log names by the IP address.
  unfoldable pub close_client : M SimpleTcpClient (Unit {0})
  close_client client = elim client.stream [
    | none ↦ pure tt client
    | some stream ↦ returns tt client (shutdown_both client.config.ip_dst ∷ [])
  ]

  -- What a read makes of the stream's answer.
  unfoldable pub answer :
      List ℕ → SimpleTcpClient → Result (List ℕ) → M SimpleTcpClient (ℕ × List ℕ)
  answer bytes client (failure e) = if is_would_block e then pure (0, bytes) else lift (err e)
  answer bytes client (success tmp) = pure (length tmp, write_at bytes 0 tmp)

  unfoldable pub read_client : List ℕ → ℕ → M SimpleTcpClient (ℕ × List ℕ)
  unfolding answer
  read_client bytes sz client = elim client.stream [
    | none ↦ lift (err (from_kind not_connected)) client
    | some stream ↦
        let (r, stream') = recv sz stream in
        if ltb (length bytes) sz
        then lift panic client
        else answer bytes client r (with_stream client stream')
  ]

  unfoldable pub write_client : List ℕ → ℕ → M SimpleTcpClient (Unit {0})
  write_client bytes sz client = elim client.stream [
    | none ↦ lift (err (from_kind not_connected)) client
    | some stream ↦
        let (r, stream') = write_all (take sz bytes) stream in
        if ltb (length bytes) sz then lift panic client else elim r [
          | failure e ↦ lift (err e) (with_stream client stream')
          | success done ↦ pure tt (with_stream client stream')
        ]
  ]

  -- The mode is set when the client is opened.
  unfoldable pub set_block : Bool → M SimpleTcpClient (Unit {0})
  set_block is_blocking client = returns tt (record client { is_blocking = is_blocking }) []

  abbrev pub tcp_client : ComplexSock
  tcp_client = record {
    State = SimpleTcpClient;
    open_sock = open_client;
    close = close_client;
    drop_sock = pure tt;
    read = read_client;
    write = write_client;
    set_block = set_block;
    get_type_name = λ client. client.stype;
    get_id = λ client. client.id;
    get_description = λ client. description client.stype client.id;
  }

  -- `TcpClientFactory`
  unfoldable pub create_sock :
      (String → Parsed TcpClientConfig) → SocketParams → M ℕ SimpleTcpClient
  create_sock from_str params = elim (from_str params) [
    | rejected e ↦ λ next_id. record {
      out = err (new invalid_input "Invalid TCP configuration");
      state = next_id;
      log = eprintln e ∷ [];
    }
    | parsed config ↦ do
      id ← fetch_add
      pure (record {
        stype = "tcp-client";
        id = id;
        config = config;
        stream = none;
        is_blocking = true;
      })
  ]

  -- `TcpClientFactory` with its documentation, whose schema is given.
  abbrev pub client_doc : Text → SockDocViewer
  client_doc schema = record {
    get_full_scheme = schema;
    get_examples =
        lit "Server configuration with IP constrain"
        ∷ lit ": "
        ∷ lit "{ \"ip_dst\": \"127.0.0.1\", \"port_dst\": 1234 }"
        ∷ [];
  }

  abbrev pub client_factory : (String → Parsed TcpClientConfig) → Text → SocketFactory ℕ
  client_factory from_str schema = record {
    sock = tcp_client;
    create_sock = create_sock from_str;
    create_doc_viewer = client_doc schema;
  }
