-- ===== src/Udp.antt =====
-- src/sockets/udp.rs: the UDP socket.
pub mod Datagrams
use polysock.Base.{
  Text, lit, ℕ, ◌*◌, ◌+◌, String, Bool, true, false, not, Option, none, some, List, [], ◌∷◌,
}
use polysock.Base.{ltb, if◌then◌else◌, length, take, write_at}
use polysock.Base.{
  M, Ret, Outcome, ok, err, panic, Error, kind, from_kind, new, would_block, invalid_filename,
  invalid_input, eprintln, lift, pure, ◌>>=◌, returns,
}
use polysock.Sock.{
  ComplexSock, SocketFactory, SocketParams, SockDocViewer, description, Parsed, parsed, rejected,
  fetch_add,
}
use polysock.SerdeHelpers.{ip_local_or_default, port_or_default}
use polysock.Net.{is_would_block, Result, success, failure, IpAddr, UdpOs}

pub record UdpConfig : Type 0 where
  pub ip_local : IpAddr
  pub ip_dst : Option IpAddr
  pub port_local : ℕ
  pub port_dst : ℕ

-- The fields as they are given; only the destination's address has no default.
pub record UdpFields : Type 0 where
  pub ip_local : Option IpAddr
  pub ip_dst : Option IpAddr
  pub port_local : Option ℕ
  pub port_dst : Option ℕ

abbrev pub udp_config : UdpFields → UdpConfig
udp_config fields = record {
  ip_local = ip_local_or_default fields.ip_local;
  ip_dst = fields.ip_dst;
  port_local = port_or_default fields.port_local;
  port_dst = port_or_default fields.port_dst;
}

module _ (os : UdpOs) where
  open os use {Socket, recv, send_to, set_nonblocking, bind}

  -- The destination is a pair in place of the text `ip:port`.
  pub record SimpleUdp : Type 0 where
    pub stype : String
    pub id : ℕ
    pub config : UdpConfig
    pub socket : Socket
    pub dst_addr : Option (IpAddr × ℕ)

  -- A call of the operating system has changed the socket.
  abbrev pub with_socket : SimpleUdp → Socket → SimpleUdp
  with_socket udp socket = record udp { socket = socket }

  -- `read` receives into the whole buffer; if nothing has come, it returns 0.
  unfoldable pub read_udp : List ℕ → ℕ → M SimpleUdp (ℕ × List ℕ)
  read_udp bytes sz udp =
      let (r, socket') = recv (length bytes) udp.socket in
      elim r [
        | failure e ↦
            if is_would_block e
            then returns (0, bytes) (with_socket udp socket') []
            else record { out = err e; state = with_socket udp socket'; log = [] }
        | success tmp ↦ returns (length tmp, write_at bytes 0 tmp) (with_socket udp socket') []
      ]

  -- Nothing is sent of an empty slice.
  unfoldable pub send : List ℕ → ℕ → IpAddr × ℕ → M SimpleUdp (Unit {0})
  send bytes sz dst udp =
      let (r, socket') = send_to (take sz bytes) dst udp.socket in
      elim r [
        | failure e ↦ record { out = err e; state = with_socket udp socket'; log = [] }
        | success count ↦ returns tt (with_socket udp socket') []
      ]

  unfoldable pub write_udp : List ℕ → ℕ → M SimpleUdp (Unit {0})
  unfolding send
  write_udp bytes sz udp = elim (ltb 0 sz) [
    | false ↦ pure tt udp
    | true ↦ elim udp.dst_addr [
      | none ↦ lift (err (from_kind invalid_filename)) udp
      | some dst ↦ if ltb (length bytes) sz then lift panic udp else send bytes sz dst udp
    ]
  ]

  unfoldable pub set_block : Bool → M SimpleUdp (Unit {0})
  set_block is_block udp =
      let (r, socket') = set_nonblocking (not is_block) udp.socket in
      elim r [
        | failure e ↦ record { out = err e; state = with_socket udp socket'; log = [] }
        | success done ↦ returns tt (with_socket udp socket') []
      ]

  abbrev pub udp_socket : ComplexSock
  udp_socket = record {
    State = SimpleUdp;
    open_sock = pure tt;
    close = pure tt;
    drop_sock = pure tt;
    read = read_udp;
    write = write_udp;
    set_block = set_block;
    get_type_name = λ udp. udp.stype;
    get_id = λ udp. udp.id;
    get_description = λ udp. description udp.stype udp.id;
  }

  -- `udp_config.ip_dst.map(..)`
  abbrev destination : UdpConfig → Option (IpAddr × ℕ)
  destination config = elim config.ip_dst [ none ↦ none | some ip ↦ some (ip, config.port_dst) ]

  unfoldable pub new_udp : UdpConfig → Socket → M ℕ SimpleUdp
  new_udp config socket = do
    id ← fetch_add
    pure (record {
      stype = "udp";
      id = id;
      config = config;
      socket = socket;
      dst_addr = destination config;
    })

  -- `SocketFactoryUDP`
  unfoldable pub create_sock : (String → Parsed UdpConfig) → SocketParams → M ℕ SimpleUdp
  unfolding new_udp
  create_sock from_str params = elim (from_str params) [
    | rejected e ↦ λ next_id. record {
      out = err (new invalid_input "Invalid UDP configuration");
      state = next_id;
      log = eprintln e ∷ [];
    }
    | parsed config ↦ elim (bind config.ip_local config.port_local) [
      | failure e ↦ lift (err e)
      | success socket ↦ new_udp config socket
    ]
  ]

  -- `SocketFactoryUDP` with its documentation, whose schema is given.
  abbrev pub udp_doc : Text → SockDocViewer
  udp_doc schema = record {
    get_full_scheme = schema;
    get_examples =
        lit "Transmitter configuration"
        ∷ lit ": "
        ∷ lit "{ \"ip_dst\": \"127.0.0.1\", \"port_dst\": 1234 }"
        ∷ lit "\n"
        ∷ lit "Receiver configuration"
        ∷ lit ": "
        ∷ lit "{ \"port_local\": 1234 }"
        ∷ [];
  }

  abbrev pub udp_factory : (String → Parsed UdpConfig) → Text → SocketFactory ℕ
  udp_factory from_str schema = record {
    sock = udp_socket;
    create_sock = create_sock from_str;
    create_doc_viewer = udp_doc schema;
  }
