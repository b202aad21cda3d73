-- ===== src/TcpServer/Packing.antt =====
-- src/sockets/tcp_server.rs: what a read of the server puts into the buffer.
use polysock.Base.{
  ℕ, ◌+◌, ◌-◌, ◌≤◌, ◌<◌, ◌≡◌, refl, sym, ap, ◌∙◌, min, String, inl, inr, List, [], ◌∷◌, ◌++◌, arith,
}
use polysock.Base.{
  ltb, if◌then◌else◌, Bool-cases, ltb-false→le, ltb→lt, lt→ltb, le→ltb, pos→ne_zero, length,
  write_at, write_at-nil, write_at-write_at, length-write_at, length-append, returns,
}
use mathlib.Core.Path.{subst}
use polysock.Net.{Result, success, failure, TcpOs}
use polysock.TcpServer.{Client, TcpServer, capacity, read_clients, read_server}

-- The bytes that a call of the operating system has handed out.
abbrev pub handed : Result (List ℕ) → List ℕ
handed (success tmp) = tmp
handed (failure e) = []

-- The longest run of whole chunks that fits into `room` bytes.
abbrev pub packed : ℕ → List (List ℕ) → List ℕ
packed room [] = []
packed room (chunk ∷ rest) =
    let others = packed (room - length chunk) rest in
    if ltb room (length chunk) then [] else chunk ++ others

pub length-packed : (room : ℕ) (chunks : List (List ℕ)) → length (packed room chunks) ≤ room
length-packed room [] = omega arith
length-packed room (chunk ∷ rest) = elim (Bool-cases (ltb room (length chunk))) [
  | inl over ↦ rw over (omega arith)
  | inr fits ↦ rw fits (
      omega (
        arith,
        length-append chunk (packed (room - length chunk) rest),
        length-packed (room - length chunk) rest,
        ltb-false→le room (length chunk) fits,
      ))
]

packed-nil : (room : ℕ) (chunks : List (List ℕ)) → packed room ([] ∷ chunks) ≡ packed room chunks
packed-nil room chunks = rw (le→ltb room 0 (omega arith)) (ap (λ t. packed t chunks) (omega arith))

packed-stop :
    (room : ℕ) (chunk : List ℕ) (chunks : List (List ℕ))
    → room < length chunk
    → packed room (chunk ∷ chunks) ≡ []
packed-stop room chunk chunks h = rw (lt→ltb room (length chunk) h)

packed-take :
    (room : ℕ) (chunk : List ℕ) (chunks : List (List ℕ))
    → length chunk ≤ room
    → packed room (chunk ∷ chunks) ≡ chunk ++ packed (room - length chunk) chunks
packed-take room chunk chunks h = rw (le→ltb room (length chunk) h)

module _ (os : TcpOs) where
  -- What a read of one buffer of each client hands out.
  abbrev pub fetched : List (Client os) → List (List ℕ)
  fetched [] = []
  fetched ((stream, addr) ∷ rest) = handed (os.recv capacity stream).0 ∷ fetched rest

  -- The clients after the read: the streams up to the first chunk that does not fit have handed out
  -- their bytes, the one of that chunk as well.
  abbrev pub after : ℕ → List (Client os) → List (Client os)
  after room [] = []
  after room ((stream, addr) ∷ rest) =
      let chunk = handed (os.recv capacity stream).0 in
      let others = after (room - length chunk) rest in
      ((os.recv capacity stream).1, addr) ∷ (if ltb room (length chunk) then rest else others)

  -- The results of the loop are those with `p` behind the first `total` bytes.
  abbrev Puts : List ℕ → ℕ → List ℕ → List (Client os) → ℕ × List ℕ × List (Client os) → Type 0
  Puts bytes total p cs r = (r.0 ≡ total + length p) × (r.1 ≡ write_at bytes total p) × (r.2 ≡ cs)

  Puts-nil :
      (bytes : List ℕ) (total : ℕ) (cs : List (Client os))
      → Puts bytes total [] cs (total, bytes, cs)
  Puts-nil bytes total cs = (omega arith, sym (write_at-nil bytes total), refl)

  -- A client that hands out nothing, and one whose chunk is taken.
  Puts-skip :
      (bytes p : List ℕ) (total room : ℕ) (rest : List (Client os)) (cli : Client os)
      (r : ℕ × List ℕ × List (Client os))
      → Puts bytes total p (after room rest) r
      → Puts bytes total p
          (cli ∷ (if ltb room 0 then rest else after (room - 0) rest))
          (r.0, r.1, cli ∷ r.2)
  Puts-skip bytes p total room rest cli r (e, e', e'') = (
    e,
    e',
    rw (le→ltb room 0 (omega arith))
        (ap (◌∷◌ cli) e'' ∙ ap (λ t. cli ∷ after t rest) {x = room} {y = room - 0} (omega arith)),
  )

  Puts-more :
      (bytes chunk p : List ℕ) (total : ℕ) (cli : Client os) (cs : List (Client os))
      (r : ℕ × List ℕ × List (Client os))
      → Puts (write_at bytes total chunk) (total + length chunk) p cs r
      → Puts bytes total (chunk ++ p) (cli ∷ cs) (r.0, r.1, cli ∷ r.2)
  Puts-more bytes chunk p total cli cs r (e, e', e'') = (
    omega (arith, e, length-append chunk p),
    e' ∙ write_at-write_at bytes total chunk p (total + length chunk) refl,
    ap (◌∷◌ cli) e'',
  )

  -- What is to be shown of the loop over some clients.
  abbrev Packs : List (Client os) → ℕ → Type 0
  Packs cs sz =
      (total : ℕ) (bytes : List ℕ)
      → total ≤ sz
      → total ≤ length bytes
      → let room = min sz (length bytes) - total in
        Puts bytes total (packed room (fetched cs)) (after room cs)
          (read_clients os cs sz total bytes)

  -- The rest of the loop, behind a chunk that has been taken.
  behind :
      (rest : List (Client os)) (sz total : ℕ) (bytes chunk : List ℕ)
      → Packs rest sz
      → total + length chunk ≤ sz
      → total + length chunk ≤ length bytes
      → let room = min sz (length bytes) - total - length chunk in
        Puts
          (write_at bytes total chunk)
          (total + length chunk)
          (packed room (fetched rest))
          (after room rest)
          (read_clients os rest sz (total + length chunk) (write_at bytes total chunk))
  behind rest sz total bytes chunk ih le le' =
      let bytes' = write_at bytes total chunk in
      let same = length-write_at bytes total chunk le' in
      subst
        (λ t.
          Puts bytes' (total + length chunk) (packed t (fetched rest)) (after t rest)
            (read_clients os rest sz (total + length chunk) bytes'))
        {x = min sz (length bytes') - (total + length chunk)}
        {y = min sz (length bytes) - total - length chunk} (omega (arith, same))
        (ih (total + length chunk) bytes' le (omega (arith, le', same)))

  -- The loop's step, for what the first client's stream has answered.
  by_answer :
      (stream : os.Stream) (addr : String) (rest : List (Client os)) (sz total : ℕ) (bytes : List ℕ)
      (r : Result (List ℕ))
      → (os.recv capacity stream).0 ≡ r
      → Packs rest sz
      → total ≤ sz
      → total ≤ length bytes
      → let room = min sz (length bytes) - total in
        let cs = (stream, addr) ∷ rest in
        Puts bytes total
          (packed room (fetched cs))
          (after room cs)
          (read_clients os cs sz total bytes)
  unfolding read_clients
  by_answer stream addr rest sz total bytes (failure e) got ih h k =
      let room = min sz (length bytes) - total in
      rw (got, read_clients, packed-nil room (fetched rest))
        (Puts-skip bytes (packed room (fetched rest)) total room rest
          ((os.recv capacity stream).1, addr) (read_clients os rest sz total bytes)
          (ih total bytes h k))
  by_answer stream addr rest sz total bytes (success []) got ih h k =
      let room = min sz (length bytes) - total in
      rw (got, read_clients, packed-nil room (fetched rest))
        (Puts-skip bytes (packed room (fetched rest)) total room rest
          ((os.recv capacity stream).1, addr) (read_clients os rest sz total bytes)
          (ih total bytes h k))
  by_answer stream addr rest sz total bytes (success (b ∷ tmp)) got ih h k =
      let chunk = b ∷ tmp in
      let room = min sz (length bytes) - total in
      let some = pos→ne_zero (length chunk) (omega arith) in
      let cli : Client os = ((os.recv capacity stream).1, addr) in
      elim (Bool-cases (ltb sz (total + length chunk))) [
        | inl over ↦
            let out =
              lt→ltb room (length chunk) (omega (arith, ltb→lt sz (total + length chunk) over)) in
            rw (got, read_clients, some, over, out) (Puts-nil bytes total (cli ∷ rest))
        | inr fits ↦ elim (Bool-cases (ltb (length bytes) (total + length chunk))) [
          | inl over ↦
              let out =
                lt→ltb room (length chunk)
                  (omega (arith, ltb→lt (length bytes) (total + length chunk) over)) in
              rw (got, read_clients, some, fits, over, out) (Puts-nil bytes total (cli ∷ rest))
          | inr room_left ↦
              let le = ltb-false→le sz (total + length chunk) fits in
              let le' = ltb-false→le (length bytes) (total + length chunk) room_left in
              rw
                (
                  got,
                  read_clients,
                  some,
                  fits,
                  room_left,
                  le→ltb room (length chunk) (omega (arith, le, le')),
                )
                (Puts-more bytes chunk (packed (room - length chunk) (fetched rest)) total cli
                  (after (room - length chunk) rest)
                  (read_clients os rest sz (total + length chunk) (write_at bytes total chunk))
                  (behind rest sz total bytes chunk ih le le'))
        ]
      ]

  read_clients_lem : (cs : List (Client os)) (sz : ℕ) → Packs cs sz
  unfolding read_clients
  read_clients_lem [] sz total bytes h k = Puts-nil bytes total []
  read_clients_lem ((stream, addr) ∷ rest) sz total bytes h k =
      by_answer stream addr rest sz total bytes (os.recv capacity stream).0 refl
        (read_clients_lem rest sz) h k

  -- A read of the server puts whole chunks of its clients, in the order of the clients, at the start
  -- of the buffer, and returns their length: the longest run of what the clients' streams hand out
  -- that fits into the requested size and into the buffer. The stream of the first chunk that does
  -- not fit has handed it out all the same.
  pub read_server_lem :
      (bytes : List ℕ) (sz : ℕ) (server : TcpServer os)
      → let room = min sz (length bytes) in
        let p = packed room (fetched server.clients) in
        read_server os bytes sz server
        ≡ returns
            (length p, write_at bytes 0 p)
            (record server { clients = after room server.clients })
            []
  unfolding read_server
  read_server_lem bytes sz server =
      let room = min sz (length bytes) in
      let p = packed room (fetched server.clients) in
      let r = read_clients os server.clients sz 0 bytes in
      let (e, e', e'') =
        subst
          (λ t.
            Puts bytes 0 (packed t (fetched server.clients)) (after t server.clients)
              (read_clients os server.clients sz 0 bytes))
          {x = room - 0} {y = room} (omega arith)
          (read_clients_lem server.clients sz 0 bytes (omega arith) (omega arith)) in
      let count : r.0 ≡ length p = omega (arith, e) in
      ap (λ t. returns (t, r.1) (record server { clients = r.2 }) []) count
      ∙ ap (λ d. returns (length p, d) (record server { clients = r.2 }) []) e'
      ∙ ap (λ cs. returns (length p, write_at bytes 0 p) (record server { clients = cs }) []) e''
