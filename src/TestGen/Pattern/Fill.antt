-- ===== src/TestGen/Pattern/Fill.antt =====
-- The strategies of src/sockets/testgen.rs next to the bytes of an iteration.
use polysock.Base.{ℕ, zero, suc, ◌+◌, ◌-◌, ◌/◌, ◌%◌, ◌≤◌, ◌<◌, ◌≡◌, refl, sym, ap, ap₂, ◌∙◌}
use polysock.Base.{Option, some, List, ◌∷◌, length, get_elem?, take, drop, replicate}
use polysock.Base.{write_at, arith, ok, le→ltb, pos→ne_zero}
use polysock.Base.{take-all, length-replicate, length-drop, take-replicate, drop-replicate}
use polysock.TestGen.{TestGenTypes, sequence, blocks, Private, byte}
use polysock.TestGen.Strategy.{
  Strategy, write_bytes, copy_bytes, block_loop, test_vec, next_data, advanced, sequence_store,
  sequence_read, increment_read, blocks_read, static_read, text_string_read, hex_string_read,
  file_read, strategy_read, reset_priv,
}
use polysock.TestGen.Pattern.{
  count_up, expand, iteration, Agrees, static_fits, sequence_fits, increment_fits, blocks_fit,
  text_string_fits, hex_string_fits, file_fits, length-count_up,
}
use polysock.TestGen.Pattern.Blocks.{write_bytes_lem, drop-expand_blocks, block_loop_lem}

take-count_up : (n m start : ℕ) → n ≤ m → take n (count_up start m) ≡ count_up start n
take-count_up zero m start h = refl
take-count_up (suc n) zero start h = absurd (omega arith)
take-count_up (suc n) (suc m) start h =
    ap (◌∷◌ (start % 256)) (take-count_up n m (start + 1) (omega arith))

drop-count_up : (n m start k : ℕ) → n + k ≡ m → drop n (count_up start m) ≡ count_up (start + n) k
drop-count_up zero m start k e = ap₂ count_up (omega arith) (omega arith)
drop-count_up (suc n) zero start k e = absurd (omega arith)
drop-count_up (suc n) (suc m) start k e =
    drop-count_up n m (start + 1) k (omega arith) ∙ ap (λ t. count_up t k) (omega arith)

test_vec_lem : (n i last pos : ℕ) → last ≡ pos % 256 → test_vec n i last ≡ count_up (pos + i) n
unfolding test_vec
test_vec_lem zero i last pos e = refl
test_vec_lem (suc n) i last pos e =
    ap₂ ◌∷◌ (omega arith) (test_vec_lem n (i + 1) last pos e ∙ ap (λ t. count_up t n) (omega arith))

get_elem?-count_up : (n start : ℕ) → get_elem? (count_up start (suc n)) n ≡ some ((start + n) % 256)
get_elem?-count_up zero start = ap some (omega arith)
get_elem?-count_up (suc n) start = get_elem?-count_up n (start + 1) ∙ ap some (omega arith)

next_data_lem :
    (n last pos : ℕ) → last ≡ pos % 256 → next_data (count_up pos n) n last ≡ ok ((pos + n) % 256)
unfolding next_data
next_data_lem zero last pos e = ap ok (omega arith)
next_data_lem (suc n) last pos e = rw (pos→ne_zero (length (count_up pos (suc n))) (omega arith)) (
    ap (λ t. advanced (get_elem? (count_up pos (suc n)) t)) {x = suc n - 1} {y = n} (omega arith)
    ∙ ap advanced (get_elem?-count_up n pos)
    ∙ ap ok (omega arith))

copy_bytes_lem :
    (source buf : List ℕ) (pos n : ℕ)
    → pos + n ≤ length source
    → n ≤ length buf
    → copy_bytes source pos buf n ≡ ok (write_at buf 0 (take n (drop pos source)))
unfolding copy_bytes
copy_bytes_lem source buf pos n h k =
    rw (le→ltb (length source) (pos + n) h, le→ltb (length buf) n k)

-- A stretch of one value.
cut-replicate :
    (pos n size v : ℕ) → pos + n ≤ size → take n (drop pos (replicate size v)) ≡ replicate n v
cut-replicate pos n size v h =
    ap (take n) (drop-replicate pos size v) ∙ take-replicate n (size - pos) v (omega arith)

cut-count_up :
    (pos n size : ℕ) → pos + n ≤ size → take n (drop pos (count_up 0 size)) ≡ count_up pos n
cut-count_up pos n size h =
    ap (take n) (drop-count_up pos size 0 (size - pos) (omega arith))
    ∙ take-count_up n (size - pos) (0 + pos) (omega arith)
    ∙ ap (λ t. count_up t n) (omega arith)

fill_lem :
    (pos n size v : ℕ) (buf : List ℕ)
    → pos + n ≤ length (replicate size v)
    → n ≤ length buf
    → write_bytes buf 0 v n ≡ ok (write_at buf 0 (take n (drop pos (replicate size v))))
fill_lem pos n size v buf fits room =
    write_bytes_lem buf 0 v n (omega arith)
    ∙ ap (λ t. ok (write_at buf 0 t))
        (sym (cut-replicate pos n size v (omega (arith, length-replicate size v))))

sequence_read_lem :
    (pos n size b : ℕ) (buf : List ℕ)
    → b ≡ pos % 256
    → pos + n ≤ length (count_up 0 size)
    → n ≤ length buf
    → sequence_read (sequence size) (some (byte b)) buf n
      ≡ ok (n, some (byte ((pos + n) % 256)), write_at buf 0 (take n (drop pos (count_up 0 size))))
unfolding sequence_read sequence_store
sequence_read_lem pos n size b buf e fits room =
    rw
      (
        vec,
        next_data_lem n b pos e,
        sequence_store,
        copy_bytes_lem (count_up pos n) buf 0 n (omega (arith, length-count_up pos n)) room,
        cut-count_up pos n size (omega (arith, length-count_up 0 size)),
      )
      (ap (λ t. ok (n, some (byte ((pos + n) % 256)), write_at buf 0 t))
        (take-all n (count_up pos n) (omega (arith, length-count_up pos n))))
  where
    vec : test_vec n 0 b ≡ count_up pos n
    vec = test_vec_lem n 0 b pos e ∙ ap (λ t. count_up t n) (omega arith)

blocks_read_lem :
    (pos n bs : ℕ) (bl buf : List ℕ) (p : Option Private)
    → 0 < bs
    → pos + n ≤ length (expand bs bl)
    → n ≤ length buf
    → blocks_read (blocks bl bs) p buf n pos
      ≡ ok (n, p, write_at buf 0 (take n (drop pos (expand bs bl))))
unfolding blocks_read
blocks_read_lem pos n bs bl buf p h fits room =
    rw (pos→ne_zero bs h, loop, drop-expand_blocks bs pos bl h) refl
  where
    loop :
        block_loop (drop (pos / bs) bl) bs pos n 0 buf
        ≡ ok (write_at buf 0 (take n (drop (pos % bs) (expand bs (drop (pos / bs) bl)))))
    loop =
        block_loop_lem (drop (pos / bs) bl) bs pos n 0 (pos % bs) buf h
          (ap (λ t. t % bs) (omega arith)) (omega arith) room
          (omega
            (arith, ap length (drop-expand_blocks bs pos bl h), length-drop pos (expand bs bl)))
        ∙ ap (λ t. ok (write_at buf 0 (take t (drop (pos % bs) (expand bs (drop (pos / bs) bl))))))
            {x = n - 0} {y = n} (omega arith)

module _ (content : List ℕ) where
  pub strategy_read_any :
      {r : Strategy} {cfg : TestGenTypes} {p : Option Private} {pos k : ℕ} (n : ℕ)
      → Agrees content r cfg p pos k
      → pos + n ≤ length (iteration cfg content k)
      → (q : Option Private) × ((buf : List ℕ)
          → n ≤ length buf
          → strategy_read r cfg p buf n pos
            ≡ ok (n, q, write_at buf 0 (take n (drop pos (iteration cfg content k)))))
        × Agrees content r cfg q (pos + n) k
  unfolding strategy_read static_read increment_read text_string_read hex_string_read file_read
  strategy_read_any {p} {pos} n (static_fits {value} {size}) fits =
      (p, λ buf room. rw (fill_lem pos n size value buf fits room), static_fits)
  strategy_read_any {pos} n (sequence_fits {size} {b} e) fits = (
    some (byte ((pos + n) % 256)),
    λ buf room. sequence_read_lem pos n size b buf e fits room,
    sequence_fits refl,
  )
  strategy_read_any {p} {pos} {k} n (increment_fits {value} {size} e) fits = (
    p,
    λ buf room. rw e (rw (fill_lem pos n size ((value + k) % 256) buf fits room)),
    increment_fits e,
  )
  strategy_read_any {p} {pos} n (blocks_fit {bl} {bs} h) fits =
      (p, λ buf room. blocks_read_lem pos n bs bl buf p h fits room, blocks_fit h)
  strategy_read_any {p} {pos} n (text_string_fits {t}) fits =
      (p, λ buf room. rw (copy_bytes_lem t buf pos n fits room), text_string_fits)
  strategy_read_any {p} {pos} n (hex_string_fits {t}) fits =
      (p, λ buf room. rw (copy_bytes_lem t buf pos n fits room), hex_string_fits)
  strategy_read_any {p} {pos} n file_fits fits =
      (p, λ buf room. rw (copy_bytes_lem content buf pos n fits room), file_fits)

  -- Where the part of iteration `k` from `pos` on has `n` bytes and the buffer has room for them,
  -- every strategy writes exactly these bytes at the start of the buffer: nothing is undefined, and
  -- no error or panic occurs. The private state is then that of position `pos + n`.
  pub strategy_read_lem :
      {r : Strategy} {cfg : TestGenTypes} {p : Option Private} {pos k : ℕ} (buf : List ℕ) (n : ℕ)
      → Agrees content r cfg p pos k
      → pos + n ≤ length (iteration cfg content k)
      → n ≤ length buf
      → (q : Option Private) × (strategy_read r cfg p buf n pos
          ≡ ok (n, q, write_at buf 0 (take n (drop pos (iteration cfg content k)))))
        × Agrees content r cfg q (pos + n) k
  strategy_read_lem buf n agrees fits room =
      let (q, reads, agrees') = strategy_read_any n agrees fits in (q, reads buf room, agrees')

  -- At the end of an iteration the private state becomes that of the next.
  pub reset_priv_lem :
      {r : Strategy} {cfg : TestGenTypes} {p : Option Private} {pos k : ℕ}
      → Agrees content r cfg p pos k
      → (q : Option Private) × (reset_priv r p ≡ ok q) × Agrees content r cfg q 0 (k + 1)
  unfolding reset_priv
  reset_priv_lem {p} static_fits = (p, refl, static_fits)
  reset_priv_lem (sequence_fits e) = (some (byte 0), refl, sequence_fits refl)
  reset_priv_lem (increment_fits {b} e) =
      (some (byte ((b + 1) % 256)), refl, increment_fits (omega arith))
  reset_priv_lem {p} (blocks_fit h) = (p, refl, blocks_fit h)
  reset_priv_lem {p} text_string_fits = (p, refl, text_string_fits)
  reset_priv_lem {p} hex_string_fits = (p, refl, hex_string_fits)
  reset_priv_lem {p} file_fits = (p, refl, file_fits)
