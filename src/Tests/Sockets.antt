-- ===== src/Tests/Sockets.antt =====
-- The UDP socket of src/sockets/udp.rs, and the thread of src/sock/mod.rs, on sample inputs.
use polysock.Base.{
  ℕ, ◌≡◌, refl, true, false, some, List, [], ◌∷◌, ◌++◌, arith, length, take, replicate, Event,
  returns, from_kind, would_block,
}
use polysock.Net.{Result, success, failure, UdpOs}
use polysock.Sock.Manager.{binding_thread}
use polysock.Sock.Manager.Copies.{accept, none_left, binding_thread-copies}
use polysock.Sock.Wrapper.{u8, read_all}
use polysock.Udp.{SimpleUdp, with_socket, udp_socket}
use polysock.Net.Received.{short, dry, silent, message, Yields-Messages}
use polysock.Udp.Datagrams.{
  udp-IsReceiver, read_all-joined, all_sent, skip, sending, binding_thread-datagrams,
}
use polysock.Tests.Samples.{sink}

-- A socket is the datagrams that wait in it; `[]` stands for a moment in which none does. What is
-- sent is put at the end.
abbrev queue_recv : ℕ → List (List ℕ) → Result (List ℕ) × List (List ℕ)
queue_recv n [] = (failure (from_kind would_block), [])
queue_recv n ([] ∷ q) = (failure (from_kind would_block), q)
queue_recv n ((b ∷ bytes) ∷ q) = (success (take n (b ∷ bytes)), q)

abbrev pub datagrams : UdpOs
datagrams = record {
  Socket = List (List ℕ);
  recv = queue_recv;
  send_to = λ bytes dst q. (success (length bytes), q ++ (bytes ∷ []));
  set_nonblocking = λ flag q. (success tt, q);
  bind = λ ip port. success [];
}

abbrev pub udp_of : List (List ℕ) → SimpleUdp datagrams
udp_of q = record {
  stype = "udp";
  id = 0;
  config = record { ip_local = "0.0.0.0"; ip_dst = some "10.0.0.1"; port_local = 0; port_dst = 9 };
  socket = q;
  dst_addr = some ("10.0.0.1", 9);
}

binding_thread-datagrams_example :
    (log : List Event) × (binding_thread
        (udp_socket datagrams)
        (udp_socket datagrams)
        1
        (replicate 3 true ++ (false ∷ []))
        (udp_of ((1 ∷ 2 ∷ []) ∷ [] ∷ (3 ∷ []) ∷ []), udp_of [])
      ≡ returns tt (udp_of [], udp_of ((1 ∷ 2 ∷ []) ∷ (3 ∷ []) ∷ [])) log)
binding_thread-datagrams_example =
    binding_thread-datagrams datagrams 1 (udp_of ((1 ∷ 2 ∷ []) ∷ [] ∷ (3 ∷ []) ∷ [])) (udp_of [])
      {msgs = (1 ∷ 2 ∷ []) ∷ [] ∷ (3 ∷ []) ∷ []} refl
      (message (short refl (omega arith)) (omega arith) (omega arith) (
        message (dry refl refl) (omega arith) (omega arith)
          (message (short refl (omega arith)) (omega arith) (omega arith) silent)))
      (sending (omega arith) refl (skip (sending (omega arith) refl all_sent)))

-- A byte of the longer datagram is lost, and the shorter one is appended to the rest.
read_all-joined_example :
    read_all (udp_socket datagrams) u8 2 (udp_of (replicate 1025 7 ∷ (9 ∷ []) ∷ []))
    ≡ returns (replicate 1024 7 ++ (9 ∷ [])) (udp_of []) []
read_all-joined_example =
    read_all-joined datagrams (udp_of (replicate 1025 7 ∷ (9 ∷ []) ∷ [])) 0 (replicate 1024 7)
      (9 ∷ []) refl refl refl (omega arith)

binding_thread-copies_example :
    (log : List Event) × (binding_thread
        (udp_socket datagrams)
        sink
        1
        (replicate 2 true ++ (false ∷ []))
        (udp_of ((1 ∷ 2 ∷ []) ∷ [] ∷ []), [])
      ≡ returns tt (udp_of [], (1 ∷ 2 ∷ []) ∷ [] ∷ []) log)
binding_thread-copies_example =
    binding_thread-copies (udp_socket datagrams) sink 1 ((1 ∷ 2 ∷ []) ∷ [] ∷ [])
      (Yields-Messages datagrams.recv (udp_socket datagrams) (with_socket datagrams (udp_of []))
        (udp-IsReceiver datagrams (udp_of [])) 1
        (message (short refl (omega arith)) (omega arith) (omega arith)
          (message (dry refl refl) (omega arith) (omega arith) silent)))
      (accept refl (accept refl none_left))
