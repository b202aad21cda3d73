-- ===== src/Tests/Servers.antt =====
-- The TCP server of src/sockets/tcp_server.rs over queues of bytes as streams.
use polysock.Base.{
  ℕ, ◌≡◌, refl, String, true, false, none, some, List, [], ◌∷◌, ◌++◌, arith, take, drop, replicate,
  Event, returns, from_kind, would_block,
}
use polysock.Net.{Result, success, failure, TcpOs}
use polysock.Sock.Wrapper.{u8, read_all}
use polysock.TcpServer.{
  Thread, Client, shutdowns, TcpServer, listening, read_server, write_server, run_thread,
  tcp_server,
}
use polysock.Sock.Manager.{binding_thread, drop_sockets}
use polysock.Sock.Manager.Copies.{accept, none_left, binding_thread-copies}
use polysock.Net.Received.{short, silent, message, Yields-Messages}
use polysock.Udp.{with_socket, udp_socket}
use polysock.Udp.Datagrams.{udp-IsReceiver}
use polysock.Tests.Sockets.{datagrams, udp_of}
use polysock.TcpServer.Shutdown.{binding_thread-shuts_down}
use polysock.TcpServer.Packing.{read_server_lem}
use polysock.TcpServer.Messages.{read_all-clients, read_all-lost}
use polysock.TcpServer.Serving.{served, left, joined_by, run_thread-serves, close-shuts_down}

abbrev queue_recv : ℕ → List ℕ → Result (List ℕ) × List ℕ
queue_recv n [] = (failure (from_kind would_block), [])
queue_recv n (b ∷ q) = (success (take n (b ∷ q)), drop n (b ∷ q))

abbrev queue_accept : List (List ℕ × String) → Result (List ℕ × String) × List (List ℕ × String)
queue_accept [] = (failure (from_kind would_block), [])
queue_accept (cli ∷ waiting) = (success cli, waiting)

abbrev pub queues : TcpOs
queues = record {
  Stream = List ℕ;
  Listener = List (List ℕ × String);
  recv = queue_recv;
  write_all = λ bytes q. (success tt, q ++ bytes);
  set_nonblocking = λ flag q. (success tt, q);
  connect = λ ip port. success [];
  bind = λ ip port. success [];
  listener_nonblocking = λ flag l. (success tt, l);
  accept = queue_accept;
}

-- A server with connections that wait for its thread, and with clients.
abbrev server_with : List (List ℕ × String) → List (List ℕ × String) → TcpServer queues
server_with waiting clients = record {
  stype = "tcp-server";
  id = 0;
  config = record { ip_local = "0.0.0.0"; port_local = 1234 };
  clients = clients;
  blocking = false;
  is_running = true;
  handle = some (listening waiting);
}

abbrev server_of : List (List ℕ × String) → TcpServer queues
server_of = server_with (([], "c") ∷ [])

abbrev three : List (List ℕ × String)
three = (1 ∷ 2 ∷ [], "a") ∷ ([], "b") ∷ (3 ∷ 4 ∷ 5 ∷ [], "c") ∷ []

-- Of three clients the second is silent, and the bytes of the third do not fit.
read_server_lem_example :
    read_server queues (replicate 4 0) 4 (server_of three)
    ≡ returns (2, 1 ∷ 2 ∷ 0 ∷ 0 ∷ []) (server_of (([], "a") ∷ ([], "b") ∷ ([], "c") ∷ [])) []
read_server_lem_example = read_server_lem queues (replicate 4 0) 4 (server_of three)

abbrev one_round : TcpServer queues → ℕ
one_round server = 1

-- A fourth client is accepted before the read.
read_all-clients_example :
    read_all (tcp_server queues one_round false) u8 1 (server_with ((6 ∷ [], "d") ∷ []) three)
    ≡ returns
        (1 ∷ 2 ∷ 3 ∷ 4 ∷ 5 ∷ 6 ∷ [])
        (server_with [] (([], "a") ∷ ([], "b") ∷ ([], "c") ∷ ([], "d") ∷ []))
        []
unfolding run_thread
read_all-clients_example =
    read_all-clients queues one_round 0 false (server_with ((6 ∷ [], "d") ∷ []) three)
      (server_with [] (three ++ ((6 ∷ [], "d") ∷ []))) refl (omega arith)

read_all-lost_example :
    read_all
      (tcp_server queues one_round false)
      u8
      1
      (server_with ((replicate 1030 7, "a") ∷ []) [])
    ≡ returns [] (server_with [] (([], "a") ∷ [])) []
unfolding run_thread
read_all-lost_example =
    read_all-lost queues one_round 0 false (server_with ((replicate 1030 7, "a") ∷ []) [])
      (server_with [] ((replicate 1030 7, "a") ∷ [])) (replicate 1030 7) [] "a" []
      (replicate 1030 7) refl refl refl (omega arith)

close-shuts_down_example :
    let server = server_of three in
    let thread : Thread queues = listening (([], "c") ∷ []) in
    (before : List Event) × ((tcp_server queues one_round true).close server
      ≡ returns tt
          (record server { is_running = false; handle = none; clients = [] })
          (before
            ++ shutdowns queues (
                (three ++ served queues server.blocking 1 thread)
                ++ served queues server.blocking 1 (left queues server.blocking 1 thread))))
close-shuts_down_example =
    close-shuts_down queues one_round true (server_of three) (listening (([], "c") ∷ [])) refl refl

run_thread-serves_example :
    let server = server_of three in
    let thread : Thread queues = listening (([], "c") ∷ []) in
    (log : List Event) × (run_thread queues 2 server
      ≡ returns tt
          (joined_by queues server
            (served queues server.blocking 2 thread, left queues server.blocking 2 thread))
          log)
run_thread-serves_example =
    run_thread-serves queues 2 (server_of three) (listening (([], "c") ∷ [])) refl refl

-- A datagram comes and is written to three clients before the flag is cleared.
copied :
    (log : List Event) × (binding_thread
        (udp_socket datagrams)
        (tcp_server queues one_round true)
        1
        (true ∷ false ∷ [])
        (udp_of ((8 ∷ []) ∷ []), server_with [] three)
      ≡ returns tt
          (
            udp_of [],
            server_with [] ((1 ∷ 2 ∷ 8 ∷ [], "a") ∷ (8 ∷ [], "b") ∷ (3 ∷ 4 ∷ 5 ∷ 8 ∷ [], "c") ∷ []),
          )
          log)
unfolding run_thread write_server
copied =
    binding_thread-copies (udp_socket datagrams) (tcp_server queues one_round true) 1
      ((8 ∷ []) ∷ [])
      (Yields-Messages datagrams.recv (udp_socket datagrams) (with_socket datagrams (udp_of []))
        (udp-IsReceiver datagrams (udp_of [])) 1
        (message (short refl (omega arith)) (omega arith) (omega arith) silent))
      (accept refl none_left)

binding_thread-shuts_down_example :
    let to = tcp_server queues one_round true in
    let r = drop_sockets (udp_socket datagrams) to (
      binding_thread
        (udp_socket datagrams)
        to
        1
        (true ∷ false ∷ [])
        (udp_of ((8 ∷ []) ∷ []), server_with [] three)) in
    let end = r.state.1 in (end.clients ≡ []) × (end.handle ≡ none) × (end.is_running ≡ false)
unfolding run_thread polysock.TcpServer.close_server
binding_thread-shuts_down_example =
    binding_thread-shuts_down queues (udp_socket datagrams) one_round true 1 (true ∷ false ∷ [])
      (udp_of ((8 ∷ []) ∷ [])) (server_with [] three) (listening [], refl) (rw copied.1 tt)
