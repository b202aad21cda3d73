-- ===== src/TcpServer/Messages.antt =====
-- src/sockets/tcp_server.rs and `read_all` of src/sock/mod.rs: which messages of the clients arrive.
use polysock.Base.{
  ℕ, suc, ◌-◌, ◌≤◌, ◌<◌, ◌≡◌, refl, ap, ap₂, ◌∙◌, min, String, Bool, List, [], ◌∷◌, ◌++◌, arith,
}
use polysock.Base.{
  lt→ltb, le→ltb, length, write_at, length-append, returns, Ret, M, Event, append-nil,
}
use polysock.Net.{success, TcpOs}
use polysock.Sock.Wrapper.{u8, read_all}
use polysock.Sock.Wrapper.Delivers.{last, read_all_loop-Delivers}
use polysock.TcpServer.{Client, TcpServer, capacity, read_server, run_thread, accepting, tcp_server}
use polysock.TcpServer.Packing.{handed, packed, fetched, after, read_server_lem}

abbrev pub join : List (List ℕ) → List ℕ
join [] = []
join (chunk ∷ rest) = chunk ++ join rest

packed-all :
    (room : ℕ) (chunks : List (List ℕ))
    → length (join chunks) ≤ room
    → packed room chunks ≡ join chunks
packed-all room [] h = refl
packed-all room (chunk ∷ rest) h =
    rw (le→ltb room (length chunk) (omega (arith, length-append chunk (join rest)))) (
      ap (◌++◌ chunk)
        (packed-all (room - length chunk) rest (omega (arith, length-append chunk (join rest)))))

module _ (os : TcpOs) where
  -- Every client's stream has handed out one buffer.
  abbrev pub all_fetched : List (Client os) → List (Client os)
  all_fetched [] = []
  all_fetched ((stream, addr) ∷ rest) = ((os.recv capacity stream).1, addr) ∷ all_fetched rest

  after-all :
      (room : ℕ) (cs : List (Client os))
      → length (join (fetched os cs)) ≤ room
      → after os room cs ≡ all_fetched cs
  after-all room [] h = refl
  after-all room ((stream, addr) ∷ rest) h =
      let chunk = handed (os.recv capacity stream).0 in
      let split = length-append chunk (join (fetched os rest)) in
      rw (le→ltb room (length chunk) (omega (arith, split))) (
        ap (◌∷◌ ((os.recv capacity stream).1, addr))
          (after-all (room - length chunk) rest (omega (arith, split))))

  -- The state and the results of a read, in terms of what is put into the buffer.
  abbrev read_result :
      TcpServer os → List ℕ → List ℕ → List (Client os) → Ret (TcpServer os) (ℕ × List ℕ)
  read_result server buffer p cs =
      returns (length p, write_at buffer 0 p) (record server { clients = cs }) []

  accepting-returns :
      {A : Type 0} (rounds : TcpServer os → ℕ) (op : M (TcpServer os) A)
      (server server' : TcpServer os) {log : List Event} {a : A} {end : TcpServer os}
      → run_thread os (rounds server) server ≡ returns tt server' log
      → op server' ≡ returns a end []
      → accepting os rounds op server ≡ returns a end log
  accepting-returns rounds op server server' {log} {a} {end} ran e =
      rw (ran, e) (ap (returns a end) (append-nil log))

  -- If what the streams of the clients, with those that the thread has accepted by then, hand out is
  -- less than 1024 bytes together, one call of `read_all` returns all of it, in the order of the
  -- clients.
  pub read_all-clients :
      (rounds : TcpServer os → ℕ) (fuel : ℕ) (pending : Bool) (server server' : TcpServer os)
      {log : List Event}
      → run_thread os (rounds server) server ≡ returns tt server' log
      → length (join (fetched os server'.clients)) < 1024
      → read_all (tcp_server os rounds pending) u8 (suc fuel) server
        ≡ returns
            (join (fetched os server'.clients))
            (record server' { clients = all_fetched server'.clients })
            log
  unfolding read_all
  read_all-clients rounds fuel pending server server' ran small =
      read_all_loop-Delivers (tcp_server os rounds pending) 1024 (omega arith) (omega arith)
        (suc fuel) []
        (last small (λ buffer full.
          let room = min 1024 (length buffer) in
          accepting-returns rounds (read_server os buffer 1024) server server' ran (
            read_server_lem os buffer 1024 server'
            ∙ ap₂ (read_result server' buffer)
                (packed-all room (fetched os server'.clients) (omega arith))
                (after-all room server'.clients (omega arith)))))
        (omega arith)

  first_over :
      (room : ℕ) (stream stream' : os.Stream) (addr : String) (rest : List (Client os))
      (tmp : List ℕ)
      → os.recv capacity stream ≡ (success tmp, stream')
      → room < length tmp
      → (packed room (fetched os ((stream, addr) ∷ rest)) ≡ [])
        × (after os room ((stream, addr) ∷ rest) ≡ (stream', addr) ∷ rest)
  first_over room stream stream' addr rest tmp got over =
      (rw (got, lt→ltb room (length tmp) over), rw (got, lt→ltb room (length tmp) over))

  -- A chunk of more than 1024 bytes from the first client, which may have been accepted just before,
  -- is lost: `read_all` returns nothing, and the client's stream has handed the chunk out.
  pub read_all-lost :
      (rounds : TcpServer os → ℕ) (fuel : ℕ) (pending : Bool) (server server' : TcpServer os)
      (stream stream' : os.Stream) (addr : String) (rest : List (Client os)) (tmp : List ℕ)
      {log : List Event}
      → run_thread os (rounds server) server ≡ returns tt server' log
      → server'.clients ≡ (stream, addr) ∷ rest
      → os.recv capacity stream ≡ (success tmp, stream')
      → 1024 < length tmp
      → read_all (tcp_server os rounds pending) u8 (suc fuel) server
        ≡ returns [] (record server' { clients = (stream', addr) ∷ rest }) log
  unfolding read_all
  read_all-lost rounds fuel pending server server' stream stream' addr rest tmp ran e got long =
      read_all_loop-Delivers (tcp_server os rounds pending) 1024 (omega arith) (omega arith)
        (suc fuel) []
        (last (omega arith) (λ buffer full.
          let room = min 1024 (length buffer) in
          let (none, gone) = first_over room stream stream' addr rest tmp got (omega arith) in
          accepting-returns rounds (read_server os buffer 1024) server server' ran (
            read_server_lem os buffer 1024 server'
            ∙ ap₂ (read_result server' buffer) (ap (λ cs. packed room (fetched os cs)) e ∙ none)
                (ap (after os room) e ∙ gone))))
        (omega arith)
