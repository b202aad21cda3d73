-- ===== src/TestGen/Pattern/Blocks.antt =====
-- The block strategy writes the part of the expanded blocks that is asked for.
use polysock.Base.{ℕ, zero, suc, ◌+◌, ◌-◌, ◌*◌, ◌/◌, ◌%◌, ◌≤◌, ◌<◌, ◌≡◌, refl, sym, ap, ◌∙◌}
use polysock.Base.{
  inl, inr, List, [], ◌∷◌, ◌++◌, length, take, drop, replicate, write_at, arith, ok,
}
use polysock.Base.{ltb, Bool-cases, ltb→lt, ltb-false→le, le→ltb}
use polysock.Base.{length-append, length-replicate, length-write_at, write_at-write_at}
use polysock.Base.{
  true, false, take-nil, write_at-nil, drop-nil, drop-append_left, drop-append_right,
  drop-replicate, take-append_left,
}
use polysock.Base.{take-append_right, take-replicate}
use native.Mathlib.Nat.{mod_self, mod-lt, mod-add-mod}
use polysock.TestGen.Strategy.{write_bytes, block_loop}
use polysock.TestGen.Pattern.{expand}

pub write_bytes_lem :
    (buf : List ℕ) (i v n : ℕ)
    → i + n ≤ length buf
    → write_bytes buf i v n ≡ ok (write_at buf i (replicate n v))
unfolding write_bytes
write_bytes_lem buf i v n h = rw (le→ltb (length buf) (i + n) h)

-- The expansion from an offset inside the first block on.
drop-expand :
    (bs o b : ℕ) (bl : List ℕ)
    → o ≤ bs
    → drop o (expand bs (b ∷ bl)) ≡ replicate (bs - o) b ++ expand bs bl
drop-expand bs o b bl h =
    drop-append_left o (replicate bs b) (expand bs bl) (omega (arith, length-replicate bs b))
    ∙ ap (λ t. t ++ expand bs bl) (drop-replicate o bs b)

-- From the first block that is not skipped on.
drop-expand_skip :
    (bs q r i : ℕ) (bl : List ℕ)
    → q * bs + r ≡ i
    → drop r (expand bs (drop q bl)) ≡ drop i (expand bs bl)
drop-expand_skip bs zero r i bl e = ap (λ j. drop j (expand bs bl)) (omega arith)
drop-expand_skip bs (suc q) r i [] e = drop-nil r ∙ sym (drop-nil i)
drop-expand_skip bs (suc q) r i (b ∷ bl) e =
    drop-expand_skip bs q r (q * bs + r) bl refl
    ∙ sym (
        drop-append_right i (q * bs + r) (replicate bs b) (expand bs bl)
          (grind (arith, length-replicate bs b)))

pub drop-expand_blocks :
    (bs i : ℕ) (bl : List ℕ)
    → 0 < bs
    → drop (i % bs) (expand bs (drop (i / bs) bl)) ≡ drop i (expand bs bl)
drop-expand_blocks bs i bl h = drop-expand_skip bs (i / bs) (i % bs) i bl (grind arith)

-- The end of a block is the start of the next one.
next_offset : (bs i : ℕ) → 0 < bs → 0 ≡ (i + (bs - i % bs)) % bs
next_offset bs i h =
    sym (mod_self bs)
    ∙ ap (λ t. t % bs) (omega (arith, mod-lt i h))
    ∙ mod-add-mod i bs (bs - i % bs)

-- From place `curr` on, which stands for offset `o` of the first of the blocks that are left, the
-- loop writes the next bytes of the blocks, each `bs` times, up to place `real`, where the blocks
-- that are left have as many and the buffer has room.
pub block_loop_lem :
    (rest : List ℕ) (bs pos real curr o : ℕ) (buf : List ℕ)
    → 0 < bs
    → o ≡ (pos + curr) % bs
    → curr ≤ real
    → real ≤ length buf
    → real - curr ≤ length (drop o (expand bs rest))
    → block_loop rest bs pos real curr buf
      ≡ ok (write_at buf curr (take (real - curr) (drop o (expand bs rest))))
unfolding block_loop
block_loop_lem [] bs pos real curr o buf h e le fits enough =
    ap ok (sym (ap (λ t. write_at buf curr (take (real - curr) t)) (drop-nil o) ∙ nothing))
  where
    nothing : write_at buf curr (take (real - curr) []) ≡ buf
    nothing = ap (λ t. write_at buf curr t) (take-nil (real - curr)) ∙ write_at-nil buf curr
block_loop_lem (el ∷ rest) bs pos real curr o buf h e le fits enough =
    rw (← e) (elim (Bool-cases (ltb real (curr + (bs - o)))) [
      | inl short ↦ rw short (
          write_bytes_lem buf curr el (real - curr) (omega arith)
          ∙ ap (λ t. ok (write_at buf curr t)) (sym (cut short)))
      | inr long ↦
          rw (long, write_bytes_lem buf curr el (bs - o) (inside long))
            (block_loop_lem rest bs pos real (curr + (bs - o)) 0
                (write_at buf curr (replicate (bs - o) el)) h (turn long)
                (omega (arith, ltb-false→le real (curr + (bs - o)) long))
                (omega (
                  arith,
                  length-write_at buf curr (replicate (bs - o) el),
                  length-replicate (bs - o) el,
                  inside long,
                ))
                (omega (
                  arith,
                  ap length whole,
                  length-append (replicate (bs - o) el) (expand bs rest),
                  length-replicate (bs - o) el,
                ))
              ∙ ap ok (joined long))
    ])
  where
    below : o < bs
    below = omega (arith, e, mod-lt (pos + curr) h)

    whole : drop o (expand bs (el ∷ rest)) ≡ replicate (bs - o) el ++ expand bs rest
    whole = drop-expand bs o el rest (omega (arith, below))

    inside : ltb real (curr + (bs - o)) ≡ false → curr + (bs - o) ≤ length buf
    inside long = omega (arith, ltb-false→le real (curr + (bs - o)) long)

    cut :
        ltb real (curr + (bs - o)) ≡ true
        → take (real - curr) (drop o (expand bs (el ∷ rest))) ≡ replicate (real - curr) el
    cut short =
        ap (take (real - curr)) whole
        ∙ take-append_left (real - curr) (replicate (bs - o) el) (expand bs rest)
            (omega (arith, length-replicate (bs - o) el, ltb→lt real (curr + (bs - o)) short))
        ∙ take-replicate (real - curr) (bs - o) el
            (omega (arith, ltb→lt real (curr + (bs - o)) short))

    split :
        ltb real (curr + (bs - o)) ≡ false
        → take (real - curr) (drop o (expand bs (el ∷ rest)))
          ≡ replicate (bs - o) el ++ take (real - (curr + (bs - o))) (expand bs rest)
    split long =
        ap (take (real - curr)) whole
        ∙ take-append_right (real - curr) (real - (curr + (bs - o))) (replicate (bs - o) el)
            (expand bs rest)
            (omega (arith, length-replicate (bs - o) el, ltb-false→le real (curr + (bs - o)) long))

    turn : ltb real (curr + (bs - o)) ≡ false → 0 ≡ (pos + (curr + (bs - o))) % bs
    turn long =
        next_offset bs (pos + curr) h
        ∙ ap (λ t. (pos + curr + (bs - t)) % bs) (sym e)
        ∙ ap (λ t. t % bs) (omega arith)

    joined :
        ltb real (curr + (bs - o)) ≡ false
        → write_at
            (write_at buf curr (replicate (bs - o) el))
            (curr + (bs - o))
            (take (real - (curr + (bs - o))) (expand bs rest))
          ≡ write_at buf curr (take (real - curr) (drop o (expand bs (el ∷ rest))))
    joined long =
        write_at-write_at buf curr (replicate (bs - o) el)
          (take (real - (curr + (bs - o))) (expand bs rest)) (curr + (bs - o))
          (omega (arith, length-replicate (bs - o) el))
        ∙ ap (write_at buf curr) (sym (split long))
