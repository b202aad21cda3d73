-- ===== src/TestGen/Strategy.antt =====
-- src/sockets/testgen.rs: the strategies that fill a buffer with the pattern from a position on. A
-- copy or a fill by pointers is undefined where it passes the end of the buffer or of its source.
use polysock.Base.{ℕ, zero, suc, ◌+◌, ◌-◌, ◌/◌, ◌%◌, Option, none, some, List, [], ◌∷◌}
use polysock.Base.{ltb, ◌==◌, if◌then◌else◌, length, get_elem?, take, drop, replicate, write_at}
use polysock.Base.{
  Outcome, ok, err, panic, undefined, from_kind, invalid_data, map_outcome, bind_outcome,
}
use polysock.TestGen.{
  TestGenTypes, static, sequence, increment, blocks, text_string, hex_string, Private, byte, text,
}

-- `ptr::write_bytes(buf + at, value, count)`
unfoldable pub write_bytes : List ℕ → ℕ → ℕ → ℕ → Outcome (List ℕ)
write_bytes buf at value count =
    if ltb (length buf) (at + count)
    then undefined
    else ok (write_at buf at (replicate count value))

-- `ptr::copy_nonoverlapping(source + pos, buf, count)`
unfoldable pub copy_bytes : List ℕ → ℕ → List ℕ → ℕ → Outcome (List ℕ)
copy_bytes source pos buf count =
    if ltb (length source) (pos + count)
    then undefined
    else if ltb (length buf) count
    then undefined
    else ok (write_at buf 0 (take count (drop pos source)))

-- The count that a strategy returns, the private state and the buffer after the call.
abbrev pub Filled : Type 0
Filled = ℕ × Option Private × List ℕ

abbrev pub filled : ℕ → Option Private → Outcome (List ℕ) → Outcome Filled
filled n p = map_outcome (λ buf. (n, p, buf))

abbrev pub invalid : Outcome Filled
invalid = err (from_kind invalid_data)

unfoldable pub static_read : TestGenTypes → Option Private → List ℕ → ℕ → Outcome Filled
unfolding write_bytes
static_read (static value size) p buf real_size =
    filled real_size p (write_bytes buf 0 value real_size)
static_read cfg p buf real_size = invalid

-- `test_vec`: element `i` is `(i + last_data) & 0xFF`; `n` elements from `i` on.
unfoldable pub test_vec : ℕ → ℕ → ℕ → List ℕ
test_vec zero i last_data = []
test_vec (suc n) i last_data = (i + last_data) % 256 ∷ test_vec n (i + 1) last_data

abbrev pub advanced : Option ℕ → Outcome ℕ
advanced none = panic
advanced (some b) = ok ((b + 1) % 256)

-- The last byte of `test_vec` plus one; an index out of bounds would panic.
unfoldable pub next_data : List ℕ → ℕ → ℕ → Outcome ℕ
next_data vec real_size last_data =
    if length vec == 0 then ok last_data else advanced (get_elem? vec (real_size - 1))

unfoldable pub sequence_store : Outcome ℕ → List ℕ → List ℕ → ℕ → Outcome Filled
unfolding copy_bytes
sequence_store o vec buf real_size =
    bind_outcome o (λ b. filled real_size (some (byte b)) (copy_bytes vec 0 buf real_size))

unfoldable pub sequence_read : TestGenTypes → Option Private → List ℕ → ℕ → Outcome Filled
sequence_read (sequence size) none buf real_size = panic
sequence_read (sequence size) (some (text t)) buf real_size = invalid
sequence_read (sequence size) (some (byte last_data)) buf real_size =
    let vec = test_vec real_size 0 last_data in
    sequence_store (next_data vec real_size last_data) vec buf real_size
sequence_read cfg p buf real_size = invalid

unfoldable pub increment_read : TestGenTypes → Option Private → List ℕ → ℕ → Outcome Filled
unfolding write_bytes
increment_read (increment value size) none buf real_size = panic
increment_read (increment value size) (some (text t)) buf real_size = invalid
increment_read (increment value size) (some (byte last_data)) buf real_size =
    filled real_size (some (byte last_data)) (write_bytes buf 0 last_data real_size)
increment_read cfg p buf real_size = invalid

-- The loop over the blocks from the current one on.
unfoldable pub block_loop : List ℕ → ℕ → ℕ → ℕ → ℕ → List ℕ → Outcome (List ℕ)
block_loop [] bs pos real_size curr buf = ok buf
block_loop (el ∷ rest) bs pos real_size curr buf =
    let chunk = bs - (pos + curr) % bs in
    if ltb real_size (curr + chunk)
    then write_bytes buf curr el (real_size - curr)
    else bind_outcome (write_bytes buf curr el chunk)
        (block_loop rest bs pos real_size (curr + chunk))

-- A block size of 0 divides by zero.
unfoldable pub blocks_read : TestGenTypes → Option Private → List ℕ → ℕ → ℕ → Outcome Filled
unfolding block_loop write_bytes
blocks_read (blocks bl bs) p buf real_size pos =
    if bs == 0
    then panic
    else filled real_size p (block_loop (drop (pos / bs) bl) bs pos real_size 0 buf)
blocks_read cfg p buf real_size pos = invalid

unfoldable pub text_string_read : TestGenTypes → Option Private → List ℕ → ℕ → ℕ → Outcome Filled
unfolding copy_bytes
text_string_read (text_string t) p buf real_size pos =
    filled real_size p (copy_bytes t pos buf real_size)
text_string_read cfg p buf real_size pos = invalid

unfoldable pub hex_string_read : TestGenTypes → Option Private → List ℕ → ℕ → ℕ → Outcome Filled
unfolding copy_bytes
hex_string_read (hex_string t) p buf real_size pos =
    filled real_size p (copy_bytes t pos buf real_size)
hex_string_read cfg p buf real_size pos = invalid

unfoldable pub file_read : Option Private → List ℕ → ℕ → ℕ → Outcome Filled
unfolding copy_bytes
file_read none buf real_size pos = panic
file_read (some (byte b)) buf real_size pos = invalid
file_read (some (text t)) buf real_size pos =
    filled real_size (some (text t)) (copy_bytes t pos buf real_size)

-- `Box<dyn TestPatternStrategy + Send>`: one constructor for each implementation of the trait.
pub data Strategy : Type 0 where
  static_strategy sequence_strategy increment_strategy block_strategy : Strategy
  text_string_strategy hex_string_strategy file_strategy : Strategy

-- The trait's `read`.
unfoldable pub strategy_read :
    Strategy → TestGenTypes → Option Private → List ℕ → ℕ → ℕ → Outcome Filled
strategy_read static_strategy cfg p buf n pos = static_read cfg p buf n
strategy_read sequence_strategy cfg p buf n pos = sequence_read cfg p buf n
strategy_read increment_strategy cfg p buf n pos = increment_read cfg p buf n
strategy_read block_strategy cfg p buf n pos = blocks_read cfg p buf n pos
strategy_read text_string_strategy cfg p buf n pos = text_string_read cfg p buf n pos
strategy_read hex_string_strategy cfg p buf n pos = hex_string_read cfg p buf n pos
strategy_read file_strategy cfg p buf n pos = file_read p buf n pos

-- `reset_priv` of the sequence: 0. `unwrap` of a missing state panics.
unfoldable pub sequence_reset : Option Private → Outcome (Option Private)
sequence_reset none = panic
sequence_reset (some (byte last_data)) = ok (some (byte 0))
sequence_reset (some (text t)) = ok (some (text t))

unfoldable pub increment_reset : Option Private → Outcome (Option Private)
increment_reset none = panic
increment_reset (some (byte last_data)) = ok (some (byte ((last_data + 1) % 256)))
increment_reset (some (text t)) = ok (some (text t))

-- The trait's `reset_priv`, which does nothing unless it is implemented.
unfoldable pub reset_priv : Strategy → Option Private → Outcome (Option Private)
unfolding sequence_reset increment_reset
reset_priv sequence_strategy p = sequence_reset p
reset_priv increment_strategy p = increment_reset p
reset_priv _ p = ok p
