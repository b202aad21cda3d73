-- ===== src/Udp/Datagrams.antt =====
-- src/sockets/udp.rs and the thread of src/sock/mod.rs: the copy of datagrams.
use polysock.Base.{ℕ, suc, ◌<◌, ◌≡◌, refl, true, false, some, List, [], ◌∷◌, ◌++◌, arith}
use polysock.Base.{lt→ltb, le→ltb, length, take-all, replicate, write_at, Error, Event, returns}
use polysock.Sock.Wrapper.{u8, read_all}
use polysock.Sock.Manager.{binding_thread}
use polysock.Sock.Manager.Copies.{Accepts, none_left, accept, binding_thread-copies}
use polysock.Net.{success, failure, IpAddr, UdpOs, is_would_block}
use polysock.Net.Received.{short, filled, Messages, IsReceiver, read_all-Received, Yields-Messages}
use polysock.Udp.{SimpleUdp, with_socket, read_udp, send, write_udp, udp_socket}

module _ (os : UdpOs) where
  -- Datagrams sent to `dst`, one for each message that is not empty.
  pub data Sent (dst : IpAddr × ℕ) (end : os.Socket) : os.Socket → List (List ℕ) → Type 0 where
    all_sent : Sent dst end end []
    skip : {s : os.Socket} {rest : List (List ℕ)} → Sent dst end s rest → Sent dst end s ([] ∷ rest)
    sending :
        {s s' : os.Socket} {bytes : List ℕ} {rest : List (List ℕ)} {count : ℕ}
        → 0 < length bytes
        → os.send_to bytes dst s ≡ (success count, s')
        → Sent dst end s' rest
        → Sent dst end s (bytes ∷ rest)

  read_udp-datagram :
      (udp : SimpleUdp os) (buffer bytes : List ℕ) (sz : ℕ) {s' : os.Socket}
      → length buffer ≡ 1024
      → os.recv 1024 udp.socket ≡ (success bytes, s')
      → read_udp os buffer sz udp
        ≡ returns (length bytes, write_at buffer 0 bytes) (with_socket os udp s') []
  unfolding read_udp
  read_udp-datagram udp buffer bytes sz full got = rw (full, read_udp, got, full, got)

  read_udp-idle :
      (udp : SimpleUdp os) (buffer : List ℕ) (sz : ℕ) {s' : os.Socket} {e : Error}
      → length buffer ≡ 1024
      → os.recv 1024 udp.socket ≡ (failure e, s')
      → is_would_block e ≡ true
      → read_udp os buffer sz udp ≡ returns (0, buffer) (with_socket os udp s') []
  unfolding read_udp
  read_udp-idle udp buffer sz full got blocks = rw (full, read_udp, got, blocks, full, got)

  pub udp-IsReceiver :
      (udp : SimpleUdp os) → IsReceiver os.recv (udp_socket os) (with_socket os udp)
  udp-IsReceiver udp = record {
    answers = λ {s} {s'} {bytes} buffer full got.
        read_udp-datagram (with_socket os udp s) buffer bytes 1024 full got;
    idles = λ {s} buffer full got blocks.
        read_udp-idle (with_socket os udp s) buffer 1024 full got blocks;
  }

  -- A datagram that fills the 1024 bytes of a read, which is what is received of one of 1024 bytes or
  -- more, is not the end of a message: `read_all` appends the next datagram to it, if that one is
  -- shorter.
  pub read_all-joined :
      (udp : SimpleUdp os) (fuel : ℕ) (chunk next : List ℕ) {s' end : os.Socket}
      → os.recv 1024 udp.socket ≡ (success chunk, s')
      → length chunk ≡ 1024
      → os.recv 1024 s' ≡ (success next, end)
      → length next < 1024
      → read_all (udp_socket os) u8 (suc (suc fuel)) udp
        ≡ returns (chunk ++ next) (with_socket os udp end) []
  read_all-joined udp fuel chunk next got whole got' small =
      read_all-Received os.recv (udp_socket os) (with_socket os udp) (udp-IsReceiver udp)
        (suc (suc fuel)) (filled got whole (short got' small) refl refl) (omega arith)

  write_udp-sending :
      (udp : SimpleUdp os) (bytes : List ℕ) {s' : os.Socket} {dst : IpAddr × ℕ} {count : ℕ}
      → udp.dst_addr ≡ some dst
      → 0 < length bytes
      → os.send_to bytes dst udp.socket ≡ (success count, s')
      → write_udp os bytes (length bytes) udp ≡ returns tt (with_socket os udp s') []
  unfolding write_udp send
  write_udp-sending udp bytes e some_bytes got = simp (
    lt→ltb 0 (length bytes) some_bytes,
    write_udp,
    e,
    le→ltb (length bytes) (length bytes) (omega arith),
    take-all (length bytes) bytes (omega arith),
    send,
    got,
  )

  write_udp-empty : (udp : SimpleUdp os) → write_udp os [] 0 udp ≡ returns tt udp []
  unfolding write_udp
  write_udp-empty udp = refl

  Accepts-Sent :
      (udp : SimpleUdp os) {dst : IpAddr × ℕ} {end s : os.Socket} {msgs : List (List ℕ)}
      → udp.dst_addr ≡ some dst
      → Sent dst end s msgs
      → Accepts (udp_socket os) (with_socket os udp end) (with_socket os udp s) msgs
  Accepts-Sent udp e all_sent = none_left
  Accepts-Sent udp {s} e (skip rest) =
      accept (write_udp-empty (with_socket os udp s)) (Accepts-Sent udp e rest)
  Accepts-Sent udp {s} e (sending {bytes} some_bytes got rest) =
      accept (write_udp-sending (with_socket os udp s) bytes e some_bytes got)
        (Accepts-Sent udp e rest)

  -- A thread between two UDP sockets makes a message of the datagrams that come on the first one
  -- until one has less than 1024 bytes or nothing waits, so each shorter datagram is a message, and
  -- sends each message that is not empty to the destination as one datagram, in order; while nothing
  -- comes, nothing is sent. The messages have less than `2 ^ 64` bytes, and the fuel is a round for
  -- each datagram of the longest one.
  pub binding_thread-datagrams :
      (fuel : ℕ) (from to : SimpleUdp os) {dst : IpAddr × ℕ} {end end' : os.Socket}
      {msgs : List (List ℕ)}
      → to.dst_addr ≡ some dst
      → Messages os.recv fuel end from.socket msgs
      → Sent dst end' to.socket msgs
      → (log : List Event) × (binding_thread
            (udp_socket os)
            (udp_socket os)
            fuel
            (replicate (length msgs) true ++ (false ∷ []))
            (from, to)
          ≡ returns tt (with_socket os from end, with_socket os to end') log)
  binding_thread-datagrams fuel from to {msgs} e received sent =
      binding_thread-copies (udp_socket os) (udp_socket os) fuel msgs
        (Yields-Messages os.recv (udp_socket os) (with_socket os from) (udp-IsReceiver from) fuel
          received)
        (Accepts-Sent to e sent)
