-- ===== src/Args/Factories.antt =====
-- src/args.rs: the map from the names of the sockets to their factories.
use Prim.Native.String.{compare}
use Prim.Native.Nat.{Ordering}
use polysock.Base.{ℕ, String, Bool, true, false, Option, none, some, List, if◌then◌else◌}
use polysock.Base.{Outcome, Error, Text}
use polysock.Sock.{SocketFactory, Parsed, map_parsed, counting}
use polysock.Net.{UdpOs, TcpOs}
use polysock.Udp.{UdpFields, udp_config, udp_factory}
use polysock.TcpClient.{TcpClientFields, client_config, client_factory}
use polysock.TcpServer.Factory.{server_factory}
use polysock.TcpServer.{TcpServer, TcpServerFields, server_config}
use polysock.Terminal.{Console}
use polysock.Terminal.Socket.{terminal_factory}
use polysock.TestGen.{TestGenConfig}
use polysock.TestGen.Factory.{test_gen_factory, test_gen_doc}

-- What the program finds outside: the operating system, the parsers and the schemas that are derived
-- of the configurations, and the text of an error. `rounds` and `pending` are those of a server, and
-- `stdout` says whether the standard output takes a line of a trace.
pub record Environment : Type 1 where
  pub udp_os : UdpOs
  pub tcp_os : TcpOs
  pub console : Console
  pub console_state : console.State
  pub rounds : TcpServer tcp_os → ℕ
  pub pending : Bool
  pub stdout : Text → Bool
  pub read_to_string : String → Outcome (List ℕ)
  pub parse_udp : String → Parsed UdpFields
  pub parse_client : String → Parsed TcpClientFields
  pub parse_server : String → Parsed TcpServerFields
  pub parse_test_gen : String → Parsed TestGenConfig
  pub udp_schema : Text
  pub client_schema : Text
  pub server_schema : Text
  pub test_gen_schema : Text
  pub display : Error → Text

-- The counters of identifiers, one for each type of socket.
pub record Ids : Type 0 where
  pub udp_id : ℕ
  pub stdio_id : ℕ
  pub client_id : ℕ
  pub server_id : ℕ
  pub test_gen_id : ℕ

-- Equality of texts.
abbrev pub same_text : String → String → Bool
same_text s t = elim (compare s t) [ Ordering.eq ↦ true | _ ↦ false ]

module _ (env : Environment) where
  abbrev pub udp_sockets : SocketFactory Ids
  udp_sockets =
      counting (λ ids. ids.udp_id) (λ n ids. record ids { udp_id = n })
        (udp_factory env.udp_os (λ s. map_parsed udp_config (env.parse_udp s)) env.udp_schema)

  abbrev pub terminals : SocketFactory Ids
  terminals =
      counting (λ ids. ids.stdio_id) (λ n ids. record ids { stdio_id = n })
        (terminal_factory env.console env.console_state)

  abbrev pub tcp_clients : SocketFactory Ids
  tcp_clients =
      counting (λ ids. ids.client_id) (λ n ids. record ids { client_id = n })
        (client_factory env.tcp_os (λ s. map_parsed client_config (env.parse_client s))
          env.client_schema)

  abbrev pub tcp_servers : SocketFactory Ids
  tcp_servers =
      counting (λ ids. ids.server_id) (λ n ids. record ids { server_id = n })
        (server_factory env.tcp_os (λ s. map_parsed server_config (env.parse_server s)) env.rounds
          env.pending env.server_schema)

  abbrev pub test_gens : SocketFactory Ids
  test_gens =
      counting (λ ids. ids.test_gen_id) (λ n ids. record ids { test_gen_id = n })
        (test_gen_factory env.read_to_string env.parse_test_gen (test_gen_doc env.test_gen_schema))

  -- `FACTORY_MAP.get(..)`
  unfoldable pub factory_map : String → Option (SocketFactory Ids)
  factory_map name =
      if same_text name "udp"
      then some udp_sockets
      else if same_text name "stdio"
      then some terminals
      else if same_text name "tcp-client"
      then some tcp_clients
      else if same_text name "tcp-server"
      then some tcp_servers
      else if same_text name "test-gen"
      then some test_gens
      else none
