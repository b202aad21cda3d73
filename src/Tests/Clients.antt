-- ===== src/Tests/Clients.antt =====
-- The TCP client of src/sockets/tcp_client.rs over a queue of bytes as its stream.
use polysock.Base.{
  ℕ, List, ◌++◌, false, some, Event, replicate, ◌≡◌, refl, true, none, [], ◌∷◌, arith, returns,
}
use polysock.Net.{success, TcpOs}
use polysock.Net.Received.{short, dry, silent, message}
use polysock.Sock.Manager.{binding_thread}
use polysock.TcpClient.{TcpClientConfig, SimpleTcpClient, with_stream, tcp_client}
use polysock.TcpClient.Streams.{all_written, writing, binding_thread-streams, binding_thread-closed}
use polysock.Tests.Servers.{queues}

abbrev host : TcpClientConfig
host = record { ip_dst = "127.0.0.1"; port_dst = 1234 }

abbrev unopened : SimpleTcpClient queues
unopened = record { stype = "tcp-client"; id = 3; config = host; stream = none; is_blocking = true }

abbrev on_stream : List ℕ → SimpleTcpClient queues
on_stream = with_stream queues unopened

binding_thread-streams_example :
    (log : List Event) × (binding_thread
        (tcp_client queues)
        (tcp_client queues)
        1
        (replicate 2 true ++ (false ∷ []))
        (on_stream (5 ∷ 6 ∷ []), on_stream [])
      ≡ returns tt (on_stream [], on_stream (5 ∷ 6 ∷ [])) log)
binding_thread-streams_example =
    binding_thread-streams queues 1 unopened unopened {s = 5 ∷ 6 ∷ []} {t = []}
      (message (short refl (omega arith)) (omega arith) (omega arith)
        (message (dry refl refl) (omega arith) (omega arith) silent))
      (writing refl (writing refl all_written))

-- Streams that the other side has closed.
abbrev ended : TcpOs
ended = record queues { recv = λ n q. (success [], q) }

abbrev connected : SimpleTcpClient ended
connected = record {
  stype = "tcp-client";
  id = 3;
  config = host;
  stream = some [];
  is_blocking = true;
}

binding_thread-closed_example :
    (log : List Event) × (binding_thread
        (tcp_client ended)
        (tcp_client ended)
        1
        (replicate 3 true ++ (false ∷ []))
        (connected, connected)
      ≡ returns tt (connected, connected) log)
binding_thread-closed_example =
    binding_thread-closed ended 0 3 connected connected {s = []} {t = []} refl refl
