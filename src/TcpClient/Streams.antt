-- ===== src/TcpClient/Streams.antt =====
-- src/sockets/tcp_client.rs and the thread of src/sock/mod.rs: what clients read of their streams and
-- write to them.
use polysock.Base.{
  zero, replicate, length-replicate, take-all, false, ◌∷◌, Event, none, true, ◌+◌, err, from_kind,
  not_connected, returns, ◌+◌, String, ◌%◌, ◌^◌, ℕ, suc, ◌≡◌, refl, true, List, [], ◌++◌, arith,
}
use polysock.Base.{le→ltb, length, write_at, Error, returns}
use polysock.Sock.Manager.{binding_thread}
use polysock.Sock.Manager.Copies.{Accepts, none_left, accept, binding_thread-copies}
use polysock.Sock.{Parsed, parsed}
use polysock.Net.{success, failure, is_would_block, TcpOs}
use polysock.Net.Received.{short, Messages, silent, message, IsReceiver, Yields-Messages}
use polysock.TcpClient.{
  create_sock, write_client, TcpClientConfig, SimpleTcpClient, with_stream, answer, read_client,
  tcp_client,
}

module _ (os : TcpOs) where
  read_client-success :
      (client : SimpleTcpClient os) (buffer bytes : List ℕ) {s s' : os.Stream}
      → length buffer ≡ 1024
      → os.recv 1024 s ≡ (success bytes, s')
      → read_client os buffer 1024 (with_stream os client s)
        ≡ returns (length bytes, write_at buffer 0 bytes) (with_stream os client s') []
  unfolding read_client answer
  read_client-success client buffer bytes e got =
      rw (le→ltb (length buffer) 1024 (omega (arith, e)), got)

  read_client-dry :
      (client : SimpleTcpClient os) (buffer : List ℕ) {s s' : os.Stream} {x : Error}
      → length buffer ≡ 1024
      → os.recv 1024 s ≡ (failure x, s')
      → is_would_block x ≡ true
      → read_client os buffer 1024 (with_stream os client s)
        ≡ returns (0, buffer) (with_stream os client s') []
  unfolding read_client answer
  read_client-dry client buffer e got blocks =
      rw (le→ltb (length buffer) 1024 (omega (arith, e)), got, answer, blocks)

  client-IsReceiver :
      (client : SimpleTcpClient os) → IsReceiver os.recv (tcp_client os) (with_stream os client)
  client-IsReceiver client = record {
    answers = λ {s} {s'} {bytes} buffer full got. read_client-success client buffer bytes full got;
    idles = λ buffer full got blocks. read_client-dry client buffer full got blocks;
  }

  -- Messages that a stream takes one by one.
  pub data Written (end : os.Stream) : os.Stream → List (List ℕ) → Type 0 where
    all_written : Written end end []
    writing :
        {s s' : os.Stream} {bytes : List ℕ} {rest : List (List ℕ)}
        → os.write_all bytes s ≡ (success tt, s')
        → Written end s' rest
        → Written end s (bytes ∷ rest)

  write_client-success :
      (client : SimpleTcpClient os) (bytes : List ℕ) {s s' : os.Stream}
      → os.write_all bytes s ≡ (success tt, s')
      → write_client os bytes (length bytes) (with_stream os client s)
        ≡ returns tt (with_stream os client s') []
  unfolding write_client
  write_client-success client bytes {s} put = simp (
    take-all (length bytes) bytes (omega arith),
    le→ltb (length bytes) (length bytes) (omega arith),
    put,
  )

  Accepts-Written :
      (client : SimpleTcpClient os) {end s : os.Stream} {msgs : List (List ℕ)}
      → Written end s msgs
      → Accepts (tcp_client os) (with_stream os client end) (with_stream os client s) msgs
  Accepts-Written client all_written = none_left
  Accepts-Written client (writing {bytes} put rest) =
      accept (write_client-success client bytes put) (Accepts-Written client rest)

  -- A thread between two connected clients makes a message of what the stream of the first one has
  -- until a read of 1024 bytes comes back short or would block, and writes the messages, the empty
  -- ones included, to the stream of the second one, each as a whole and in order. The messages have
  -- less than `2 ^ 64` bytes, and the fuel is a round for each read of the longest one.
  pub binding_thread-streams :
      (fuel : ℕ) (from to : SimpleTcpClient os) {end s end' t : os.Stream} {msgs : List (List ℕ)}
      → Messages os.recv fuel end s msgs
      → Written end' t msgs
      → (log : List Event) × (binding_thread
            (tcp_client os)
            (tcp_client os)
            fuel
            (replicate (length msgs) true ++ (false ∷ []))
            (with_stream os from s, with_stream os to t)
          ≡ returns tt (with_stream os from end, with_stream os to end') log)
  binding_thread-streams fuel from to {msgs} received written =
      binding_thread-copies (tcp_client os) (tcp_client os) fuel msgs
        (Yields-Messages os.recv (tcp_client os) (with_stream os from) (client-IsReceiver from) fuel
          received)
        (Accepts-Written to written)

  -- Once the other side has closed the stream, so that its reads return nothing, and an empty write
  -- leaves the second stream as it is, the thread does not end: after any number of rounds the two
  -- clients are as before, and the thread ends only when the flag is cleared, without an error.
  pub binding_thread-closed :
      (fuel n : ℕ) (from to : SimpleTcpClient os) {s t : os.Stream}
      → os.recv 1024 s ≡ (success [], s)
      → os.write_all [] t ≡ (success tt, t)
      → (log : List Event) × (binding_thread
            (tcp_client os)
            (tcp_client os)
            (suc fuel)
            (replicate n true ++ (false ∷ []))
            (with_stream os from s, with_stream os to t)
          ≡ returns tt (with_stream os from s, with_stream os to t) log)
  binding_thread-closed fuel n from to {s} {t} closed idle =
      rw (length-replicate {A = List ℕ} n []) at
        (binding_thread-streams (suc fuel) from to (empty_messages n) (empty_writes n))
    where
      empty_messages : (n : ℕ) → Messages os.recv (suc fuel) s s (replicate n [])
      empty_messages zero = silent
      empty_messages (suc n) =
          message (short closed (omega arith)) (omega arith) (omega arith) (empty_messages n)

      empty_writes : (n : ℕ) → Written t t (replicate n [])
      empty_writes zero = all_written
      empty_writes (suc n) = writing idle (empty_writes n)

  -- A client that the factory has made is not connected: until it has been opened, every read and
  -- every write fails with `NotConnected`, and it blocks by default.
  pub create_sock-NotConnected :
      (from_str : String → Parsed TcpClientConfig) (params : String) (config : TcpClientConfig)
      (next_id : ℕ) (bytes : List ℕ) (sz : ℕ)
      → from_str params ≡ parsed config
      → (client : SimpleTcpClient os) × (create_sock os from_str params next_id
          ≡ returns client ((next_id + 1) % 2 ^ 32) [])
        × ((read_client os bytes sz client).out ≡ err (from_kind not_connected))
        × ((write_client os bytes sz client).out ≡ err (from_kind not_connected))
        × (client.is_blocking ≡ true)
  unfolding create_sock read_client write_client
  create_sock-NotConnected from_str params config next_id bytes sz e = (
    record {
      stype = "tcp-client";
      id = next_id;
      config = config;
      stream = none;
      is_blocking = true;
    },
    rw (e, create_sock),
    refl,
    refl,
    refl,
  )
