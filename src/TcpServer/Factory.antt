-- ===== src/TcpServer/Factory.antt =====
-- src/sockets/tcp_server.rs: `TcpServerFactory`.
use polysock.Base.{
  Text, lit, ℕ, String, Bool, true, none, [], ◌∷◌, M, err, new, invalid_input, eprintln, pure,
  ◌>>=◌,
}
use polysock.Sock.{SocketFactory, SocketParams, SockDocViewer, Parsed, parsed, rejected, fetch_add}
use polysock.Net.{TcpOs}
use polysock.TcpServer.{TcpServerConfig, TcpServer, tcp_server}

module _ (os : TcpOs) where
  module _ (from_str : String → Parsed TcpServerConfig) where
    -- `TcpServerFactory`
    unfoldable pub create_sock : SocketParams → M ℕ (TcpServer os)
    create_sock params = elim (from_str params) [
      | rejected e ↦ λ next_id. record {
        out = err (new invalid_input "Invalid TCP configuration");
        state = next_id;
        log = eprintln e ∷ [];
      }
      | parsed config ↦ do
        id ← fetch_add
        pure (record {
          stype = "tcp-server";
          id = id;
          config = config;
          clients = [];
          blocking = true;
          is_running = true;
          handle = none;
        })
    ]

    -- Its documentation, whose schema is given.
    abbrev pub server_doc : Text → SockDocViewer
    server_doc schema = record {
      get_full_scheme = schema;
      get_examples =
          lit "Server configuration with IP constrain"
          ∷ lit ": "
          ∷ lit "{ \"ip_local\": \"127.0.0.1\", \"port_local\": 1234 }"
          ∷ lit "\n"
          ∷ lit "Server configuration without IP constrain"
          ∷ lit ": "
          ∷ lit "{ \"port_local\": 1234 }"
          ∷ [];
    }

    abbrev pub server_factory : (TcpServer os → ℕ) → Bool → Text → SocketFactory ℕ
    server_factory rounds pending schema = record {
      sock = tcp_server os rounds pending;
      create_sock = create_sock;
      create_doc_viewer = server_doc schema;
    }
