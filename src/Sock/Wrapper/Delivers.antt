-- ===== src/Sock/Wrapper/Delivers.antt =====
-- src/sock/mod.rs, `read_all`: what a reader of a socket relies on. A socket delivers a message if
-- its reads return the message in full chunks and then a shorter one, which may be empty.
use polysock.Base.{ℕ, zero, suc, ◌*◌, ◌^◌, ◌≤◌, ◌<◌, ◌≡◌, ap, ◌∙◌}
use polysock.Base.{List, ◌++◌, append-nil, append_assoc, arith}
use polysock.Base.{lt→ltb, le→ltb, length, write_at, returns, Event}
use polysock.Sock.{ComplexSock}
use polysock.Sock.Wrapper.{u8, generic_read, read_all_loop}
use polysock.Sock.Wrapper.Bytes.{u8-IsPod, encode-u8}
use polysock.Sock.Wrapper.Transfer.{generic_read_lem}

-- From state `s` the message `bs` is delivered in `n` reads of `c` bytes, with the events `log`, and
-- leaves the state `end`.
pub data Delivers (K : ComplexSock) (c : ℕ) (end : K.State)
    : K.State → List ℕ → ℕ → List Event → Type 0 where
  last :
      {s : K.State} {bs : List ℕ} {l : List Event}
      → length bs < c
      → ((buffer : List ℕ)
          → length buffer ≡ c
          → K.read buffer c s ≡ returns (length bs, write_at buffer 0 bs) end l)
      → Delivers K c end s bs 1 l
  more :
      (chunk rest : List ℕ) (l l' : List Event) {s s' : K.State} {bs : List ℕ} {n m : ℕ}
      {log : List Event}
      → length chunk ≡ c
      → ((buffer : List ℕ)
          → length buffer ≡ c
          → K.read buffer c s ≡ returns (length chunk, write_at buffer 0 chunk) s' l)
      → Delivers K c end s' rest n l'
      → bs ≡ chunk ++ rest
      → log ≡ l ++ l'
      → m ≡ suc n
      → Delivers K c end s bs m log

module _ (K : ComplexSock) (c : ℕ) (pos : 0 < c) (small : c < 2 ^ 64) where
  -- A typed read of bytes is a read of the socket.
  pub generic_read-u8 :
      (bs : List ℕ) {s s' : K.State} {l : List Event}
      → length bs ≤ c
      → ((buffer : List ℕ)
          → length buffer ≡ c
          → K.read buffer c s ≡ returns (length bs, write_at buffer 0 bs) s' l)
      → generic_read K u8 c s ≡ returns bs s' l
  generic_read-u8 bs {s} {s'} {l} le answers =
      generic_read_lem K u8 u8-IsPod c bs pos (omega (arith, small)) le
        (rw (encode-u8 bs) (λ buffer full. rw one (answers buffer (full ∙ one))))
    where
      one : 1 * c ≡ c
      one = omega arith

  -- With chunks of at least one byte that fit into memory, and fuel for each read, the loop of
  -- `read_all` returns the message that the socket delivers.
  pub read_all_loop-Delivers :
      (fuel : ℕ) (result : List ℕ) {end s : K.State} {bs : List ℕ} {n : ℕ} {log : List Event}
      → Delivers K c end s bs n log
      → n ≤ fuel
      → read_all_loop K u8 fuel c result s ≡ returns (result ++ bs) end log
  unfolding read_all_loop
  read_all_loop-Delivers zero result (last lt answers) h = absurd (omega arith)
  read_all_loop-Delivers (suc fuel) result {end} {bs} {log} (last lt answers) h =
      rw (generic_read-u8 bs (omega arith) answers, lt→ltb (length bs) c lt)
        (ap (returns (result ++ bs) end) (append-nil log))
  read_all_loop-Delivers zero result (more chunk rest l l' full answers d e f g) h =
      absurd (omega arith)
  read_all_loop-Delivers (suc fuel) result {end} (more chunk rest l l' full answers d e f g) h =
      rw
        (
          generic_read-u8 chunk (omega arith) answers,
          le→ltb (length chunk) c (omega arith),
          read_all_loop-Delivers fuel (result ++ chunk) d (omega arith),
          e,
          f,
        )
        (ap (λ t. returns t end (l ++ l')) (append_assoc result chunk rest))
