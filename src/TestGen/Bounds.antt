-- ===== src/TestGen/Bounds.antt =====
-- The bounds of a read of src/sockets/testgen.rs, from any state of the generator.
use mathlib.Core.Path.{subst}
use polysock.Base.{
  ℕ, ◌%◌, ◌/◌, ◌+◌, ◌-◌, ◌≤◌, ◌≡◌, refl, inl, inr, Option, none, some, List, [], ◌∷◌, arith,
}
use polysock.Base.{
  ltb, ◌==◌, Bool-cases, ltb-false→le, ltb→lt, length, take, drop, replicate, length-write_at,
  length-replicate, length-take,
}
use polysock.Base.{Outcome, ok, Ret}
use polysock.Base.{Holds, Holds-ok, Holds-map, Holds-bind, Holds-chain, Holds-any}
use polysock.TestGen.{
  TestGenTypes, static, sequence, increment, blocks, text_string, hex_string, Private, byte, text,
  get_curr_size,
}
use polysock.TestGen.Strategy.{
  Filled, filled, write_bytes, copy_bytes, block_loop, blocks_read, static_read, sequence_read,
  sequence_store, next_data, test_vec, increment_read, text_string_read, hex_string_read, file_read,
  Strategy, strategy_read, static_strategy, sequence_strategy, increment_strategy, block_strategy,
  text_string_strategy, hex_string_strategy, file_strategy,
}
use polysock.TestGen.Gen.{SimpleTestGen, test_gen, wait_cycle, fill, read, set_private, advance}
use polysock.Sock.Decorators.Simulation.{KeepsBuffer}

-- Buffers as long as `buf`, and what a strategy returns of `n` bytes.
abbrev AsLong : List ℕ → List ℕ → Type 0
AsLong buf buf' = length buf' ≡ length buf

abbrev Fills : List ℕ → ℕ → Filled → Type 0
Fills buf n (m, q, buf') = (m ≡ n) × (length buf' ≡ length buf)

write_bytes-AsLong : (buf : List ℕ) (i v n : ℕ) → Holds (AsLong buf) (write_bytes buf i v n)
unfolding write_bytes
write_bytes-AsLong buf i v n = elim (Bool-cases (ltb (length buf) (i + n))) [
  | inl over ↦ rw over tt
  | inr fits ↦ rw fits (
      length-write_at buf i (replicate n v)
        (omega (arith, length-replicate n v, ltb-false→le (length buf) (i + n) fits)))
]

copy_bytes-AsLong :
    (source buf : List ℕ) (pos n : ℕ) → Holds (AsLong buf) (copy_bytes source pos buf n)
unfolding copy_bytes
copy_bytes-AsLong source buf pos n = elim (Bool-cases (ltb (length source) (pos + n))) [
  | inl over ↦ rw over tt
  | inr fits ↦ elim (Bool-cases (ltb (length buf) n)) [
    | inl over ↦ rw (fits, over) tt
    | inr room ↦
        rw (fits, room)
          (length-write_at buf 0 (take n (drop pos source))
            (omega (arith, length-take n (drop pos source), ltb-false→le (length buf) n room)))
  ]
]

filled-Fills :
    (buf : List ℕ) (n : ℕ) (q : Option Private) (o : Outcome (List ℕ))
    → Holds (AsLong buf) o
    → Holds (Fills buf n) (filled n q o)
filled-Fills buf n q o h =
    Holds-map (AsLong buf) (Fills buf n) (λ b. (n, q, b)) o h (λ b e. (refl, e))

block_loop-AsLong :
    (bl : List ℕ) (bs pos real curr : ℕ) (buf : List ℕ)
    → Holds (AsLong buf) (block_loop bl bs pos real curr buf)
unfolding block_loop
block_loop-AsLong [] bs pos real curr buf = refl
block_loop-AsLong (el ∷ rest) bs pos real curr buf = elim (Bool-cases (ltb real (curr + chunk))) [
  | inl short ↦ rw short (write_bytes-AsLong buf curr el (real - curr))
  | inr long ↦ rw long (
      Holds-bind (AsLong buf) (AsLong buf) (block_loop rest bs pos real (curr + chunk))
        (write_bytes buf curr el chunk) (write_bytes-AsLong buf curr el chunk)
        (λ b e.
          subst (λ m. Holds (λ c. length c ≡ m) (block_loop rest bs pos real (curr + chunk) b)) e
            (block_loop-AsLong rest bs pos real (curr + chunk) b)))
]
  where
    chunk : ℕ
    chunk = bs - (pos + curr) % bs

sequence_read-Fills :
    (cfg : TestGenTypes) (p : Option Private) (buf : List ℕ) (n : ℕ)
    → Holds (Fills buf n) (sequence_read cfg p buf n)
unfolding sequence_read sequence_store
sequence_read-Fills (sequence size) none buf n = tt
sequence_read-Fills (sequence size) (some (text t)) buf n = tt
sequence_read-Fills (sequence size) (some (byte b)) buf n =
    let vec = test_vec n 0 b in
    Holds-bind (λ b. Unit {0}) (Fills buf n) _ (next_data vec n b) (Holds-any (next_data vec n b))
      (λ b done.
        filled-Fills buf n (some (byte b)) (copy_bytes vec 0 buf n) (copy_bytes-AsLong vec buf 0 n))
sequence_read-Fills _ p buf n = tt

increment_read-Fills :
    (cfg : TestGenTypes) (p : Option Private) (buf : List ℕ) (n : ℕ)
    → Holds (Fills buf n) (increment_read cfg p buf n)
unfolding increment_read
increment_read-Fills (increment value size) none buf n = tt
increment_read-Fills (increment value size) (some (text t)) buf n = tt
increment_read-Fills (increment value size) (some (byte b)) buf n =
    filled-Fills buf n (some (byte b)) (write_bytes buf 0 b n) (write_bytes-AsLong buf 0 b n)
increment_read-Fills _ p buf n = tt

blocks_read-Fills :
    (cfg : TestGenTypes) (p : Option Private) (buf : List ℕ) (n pos : ℕ)
    → Holds (Fills buf n) (blocks_read cfg p buf n pos)
unfolding blocks_read
blocks_read-Fills (blocks bl bs) p buf n pos = elim (Bool-cases (bs == 0)) [
  | inl e ↦ rw e tt
  | inr e ↦ rw e (
      filled-Fills buf n p (block_loop (drop (pos / bs) bl) bs pos n 0 buf)
        (block_loop-AsLong (drop (pos / bs) bl) bs pos n 0 buf))
]
blocks_read-Fills _ p buf n pos = tt

file_read-Fills :
    (p : Option Private) (buf : List ℕ) (n pos : ℕ) → Holds (Fills buf n) (file_read p buf n pos)
unfolding file_read
file_read-Fills none buf n pos = tt
file_read-Fills (some (byte b)) buf n pos = tt
file_read-Fills (some (text t)) buf n pos =
    filled-Fills buf n (some (text t)) (copy_bytes t pos buf n) (copy_bytes-AsLong t buf pos n)

static_read-Fills :
    (cfg : TestGenTypes) (p : Option Private) (buf : List ℕ) (n : ℕ)
    → Holds (Fills buf n) (static_read cfg p buf n)
unfolding static_read
static_read-Fills (static value size) p buf n =
    filled-Fills buf n p (write_bytes buf 0 value n) (write_bytes-AsLong buf 0 value n)
static_read-Fills _ p buf n = tt

text_string_read-Fills :
    (cfg : TestGenTypes) (p : Option Private) (buf : List ℕ) (n pos : ℕ)
    → Holds (Fills buf n) (text_string_read cfg p buf n pos)
unfolding text_string_read
text_string_read-Fills (text_string t) p buf n pos =
    filled-Fills buf n p (copy_bytes t pos buf n) (copy_bytes-AsLong t buf pos n)
text_string_read-Fills _ p buf n pos = tt

hex_string_read-Fills :
    (cfg : TestGenTypes) (p : Option Private) (buf : List ℕ) (n pos : ℕ)
    → Holds (Fills buf n) (hex_string_read cfg p buf n pos)
unfolding hex_string_read
hex_string_read-Fills (hex_string t) p buf n pos =
    filled-Fills buf n p (copy_bytes t pos buf n) (copy_bytes-AsLong t buf pos n)
hex_string_read-Fills _ p buf n pos = tt

strategy_read-Fills :
    (r : Strategy) (cfg : TestGenTypes) (p : Option Private) (buf : List ℕ) (n pos : ℕ)
    → Holds (Fills buf n) (strategy_read r cfg p buf n pos)
unfolding strategy_read
strategy_read-Fills static_strategy cfg p buf n pos = static_read-Fills cfg p buf n
strategy_read-Fills sequence_strategy cfg p buf n pos = sequence_read-Fills cfg p buf n
strategy_read-Fills increment_strategy cfg p buf n pos = increment_read-Fills cfg p buf n
strategy_read-Fills block_strategy cfg p buf n pos = blocks_read-Fills cfg p buf n pos
strategy_read-Fills text_string_strategy cfg p buf n pos = text_string_read-Fills cfg p buf n pos
strategy_read-Fills hex_string_strategy cfg p buf n pos = hex_string_read-Fills cfg p buf n pos
strategy_read-Fills file_strategy cfg p buf n pos = file_read-Fills p buf n pos

get_curr_size-le : (size sz pos : ℕ) → get_curr_size size sz pos ≤ sz
unfolding get_curr_size
get_curr_size-le size sz pos = elim (Bool-cases (ltb (size - pos) sz)) [
  | inl e ↦ rw e (omega (arith, ltb→lt (size - pos) sz e))
  | inr e ↦ rw e (omega arith)
]

-- What a read returns to its caller, whose buffer is `buf`.
abbrev Returned : List ℕ → ℕ × List ℕ → Type 0
Returned buf (n, buf') = (n ≤ length buf) × (length buf' ≡ length buf)

fill-Returned :
    (buf : List ℕ) (sz : ℕ) (g : SimpleTestGen)
    → sz ≤ length buf
    → Holds (Returned buf) (fill buf sz g).out
unfolding fill
fill-Returned buf sz g h =
    let real = get_curr_size g.p.pattern_size sz g.p.pos in
    Holds-chain (Fills buf real) (Returned buf)
      (strategy_read g.reader g.pat_cfg g.p.pattern_priv buf real g.p.pos) g [] _
      (strategy_read-Fills g.reader g.pat_cfg g.p.pattern_priv buf real g.p.pos)
      λ (ret, q, buf') g' (e, e').
        let r = advance sz real (set_private g' (record g'.p { pattern_priv = q })) in
        Holds-chain (λ done. Unit {0}) (Returned buf) r.out r.state r.log _ (Holds-any r.out)
          (λ done t any. (omega (arith, get_curr_size-le g.p.pattern_size sz g.p.pos), e'))

-- From any state, a read of at most the length of the buffer returns no more than that, and keeps
-- the length of the buffer.
pub read_bounds :
    (buf buf' : List ℕ) (sz n : ℕ) (g : SimpleTestGen)
    → sz ≤ length buf
    → (read buf sz g).out ≡ ok (n, buf')
    → (n ≤ length buf) × (length buf' ≡ length buf)
unfolding read
read_bounds buf buf' sz n g h e =
    Holds-ok (Returned buf) (read buf sz g).out
      (Holds-chain (λ done. Unit {0}) (Returned buf) r.out r.state r.log _ (Holds-any r.out)
        (λ done g' any. fill-Returned buf sz g' h))
      e
  where
    r : Ret SimpleTestGen (Unit {0})
    r = wait_cycle g

pub test_gen-KeepsBuffer : KeepsBuffer test_gen
test_gen-KeepsBuffer = read_bounds
