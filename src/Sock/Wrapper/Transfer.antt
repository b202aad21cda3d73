-- ===== src/Sock/Wrapper/Transfer.antt =====
-- src/sock/mod.rs, `SocketWrapper`: typed reads and writes in terms of the socket's reads and
-- writes of bytes.
use polysock.Base.{ℕ, suc, ◌+◌, ◌*◌, ◌/◌, ◌^◌, ◌≤◌, ◌<◌, ◌≡◌, sym, ap, ap₂, ◌∙◌}
use polysock.Base.{inl, inr, true, false, List, [], ◌++◌, append-nil, arith}
use polysock.Base.{ltb, Bool-cases, lt→ltb, le→ltb, pos→ne_zero}
use polysock.Base.{length, take, drop, replicate, write_at, length-replicate}
use polysock.Base.{take-all, drop-all}
use mathlib.Core.Path.{fun_ext}
use native.Mathlib.Decide.{dec_lt}
use native.Mathlib.Nat.{sub-zero}
use polysock.Base.{refl, if◌then◌else◌, Outcome, ok, err, panic, undefined, no_fuel, chain}
use polysock.Base.{pure, prepend, ◌>>=◌, ltb-false→le, M, Event, returns, exit}
use native.Mathlib.Nat.{mod-eq_of_lt, mul-div_cancel_left}
use polysock.Sock.{ComplexSock}
use polysock.Sock.Wrapper.{Pod, mul_usize, encode, read_loop, generic_read}
use polysock.Sock.Wrapper.{generic_write, write_memory}
use polysock.Sock.Wrapper.Bytes.{IsPod, length-encode, elements-encode}

mul_usize_lem : (a b : ℕ) → a * b < 2 ^ 64 → mul_usize a b ≡ a * b
unfolding mul_usize
mul_usize_lem a b h = mod-eq_of_lt h

module _ (K : ComplexSock) where
  -- What follows the socket's answer to the first read.
  abbrev after : ℕ → ℕ → ℕ × List ℕ → M K.State (ℕ × List ℕ)
  after fuel n (chunk, tail) = elim (ltb chunk n) [
    | true ↦ pure (0 + chunk, tail)
    | false ↦ read_loop K fuel n (0 + chunk) tail
  ]

  read_loop-done :
      (fuel n got : ℕ) (buffer : List ℕ)
      → n ≤ got
      → read_loop K (suc fuel) n got buffer ≡ pure (got, buffer)
  unfolding read_loop
  read_loop-done fuel n got buffer h = rw (le→ltb got n h, read_loop)

  read_loop-first :
      (fuel n : ℕ) (buffer : List ℕ)
      → 0 < n
      → read_loop K (suc fuel) n 0 buffer ≡ (K.read buffer n >>= after fuel n)
  unfolding read_loop
  read_loop-first fuel n buffer h =
      rw (lt→ltb 0 n h, read_loop) (ap (λ m. K.read buffer m >>= λ r. first m r) (sub-zero n))
    where
      first : ℕ → ℕ × List ℕ → M K.State (ℕ × List ℕ)
      first m (chunk, tail) = elim (ltb chunk m) [
        | true ↦ pure (0 + chunk, tail)
        | false ↦ read_loop K fuel n (0 + chunk) tail
      ]

  after-pure : (fuel n : ℕ) (r : ℕ × List ℕ) → after (suc fuel) n r ≡ pure r
  after-pure fuel n (chunk, tail) = elim (Bool-cases (ltb chunk n)) [
    | inl short ↦ rw (short, after) (ap (λ t. pure (t, tail)) (omega arith))
    | inr all ↦
        let le : n ≤ 0 + chunk = omega (arith, ltb-false→le chunk n all) in
        rw (all, after, read_loop-done fuel n (0 + chunk) tail le)
          (ap (λ t. pure (t, tail)) (omega arith))
  ]

  chain-pure :
      (o : Outcome (ℕ × List ℕ)) (s : K.State) (l : List Event)
      → chain o s l pure ≡ record { out = o; state = s; log = l }
  chain-pure (ok a) s l = ap (returns a s) (append-nil l)
  chain-pure (err e) s l = refl
  chain-pure panic s l = refl
  chain-pure undefined s l = refl
  chain-pure (exit code) s l = refl
  chain-pure no_fuel s l = refl

  -- The loop comes to its end within two rounds, as the one read comes to its own: with two rounds
  -- of fuel or more, whatever the socket answers, the loop of a typed read does one read of the
  -- socket of the whole length, and ends as that read does; of no bytes it reads none.
  pub read_loop-read :
      (fuel n : ℕ) (buffer : List ℕ)
      → read_loop K (suc (suc fuel)) n 0 buffer
        ≡ (if ltb 0 n then K.read buffer n else pure (0, buffer))
  read_loop-read fuel n buffer = elim (dec_lt 0 n) [
    | yes h ↦
        read_loop-first (suc fuel) n buffer h
        ∙ ap (λ f. K.read buffer n >>= f) (fun_ext (after-pure fuel n))
        ∙ fun_ext (λ s. let r = K.read buffer n s in chain-pure r.out r.state r.log)
        ∙ ap (λ b. if b then K.read buffer n else pure (0, buffer)) (sym (lt→ltb 0 n h))
    | no h ↦
        let le : n ≤ 0 = omega arith in
        read_loop-done (suc fuel) n 0 buffer le
        ∙ ap (λ b. if b then K.read buffer n else pure (0, buffer)) (sym (le→ltb 0 n le))
  ]

  read_loop_lem :
      (n : ℕ) (buffer bs : List ℕ) {s s' : K.State} {l : List Event}
      → 0 < n
      → length bs ≤ n
      → K.read buffer n s ≡ returns (length bs, write_at buffer 0 bs) s' l
      → read_loop K 2 n 0 buffer s ≡ returns (length bs, write_at buffer 0 bs) s' l
  read_loop_lem n buffer bs {s} {s'} {l} pos le e =
      rw (read_loop-first 1 n buffer pos, e)
        (elim (Bool-cases (ltb (length bs) n)) [
          | inl short ↦ rw (short, after) (ended s' l)
          | inr all ↦
              rw
                (
                  all,
                  after,
                  read_loop-done 0 n (0 + length bs) (write_at buffer 0 bs)
                      (omega (arith, ltb-false→le (length bs) n all)),
                )
                (ended s' l)
        ])
    where
      ended :
          (s' : K.State) (l : List Event)
          → prepend {A = ℕ × List ℕ} l (pure (0 + length bs, write_at buffer 0 bs) s')
            ≡ returns (length bs, write_at buffer 0 bs) s' l
      ended s' l = ap₂ (λ t l. returns (t, write_at buffer 0 bs) s' l) (omega arith) (append-nil l)

  -- If the read of the socket ends the process, so does the typed read.
  pub generic_read-exit :
      {T : Type 0} (pod : Pod T) (sz code : ℕ) {s : K.State}
      → 0 < pod.size_of * sz
      → pod.size_of * sz < 2 ^ 64
      → ((buffer : List ℕ)
          → length buffer ≡ pod.size_of * sz
          → (K.read buffer (pod.size_of * sz) s).out ≡ exit code)
      → (generic_read K pod sz s).out ≡ exit code
  unfolding generic_read
  generic_read-exit pod sz code pos small stops =
      let n = pod.size_of * sz in
      rw (
        mul_usize_lem pod.size_of sz small,
        read_loop-first 1 n (replicate n 0) pos,
        stops (replicate n 0) (length-replicate n 0),
      )

  write_memory_lem :
      (n : ℕ) (memory : List ℕ) → length memory ≡ n → write_memory K n memory ≡ K.write memory n
  unfolding write_memory
  write_memory_lem n memory e =
      rw (le→ltb (length memory) n (omega arith), write_memory) (ap (λ t. K.write t n) copied)
    where
      copied : write_at (replicate n 0) 0 (take n memory) ≡ memory
      copied =
          ap (write_at (replicate n 0) 0) (take-all n memory (omega arith))
          ∙ ap (◌++◌ memory) (
              drop-all (length memory) (replicate n 0)
                (omega (arith, length-replicate {A = ℕ} n 0)))
          ∙ append-nil memory

  module _ {T : Type 0} (pod : Pod T) (law : IsPod pod) where
    open pod use {size_of}

    -- If values are asked for whose bytes fit into memory, and the socket fills the buffer with the
    -- bytes of some values, no more than asked for, those values are read.
    pub generic_read_lem :
        (sz : ℕ) (xs : List T) {s s' : K.State} {l : List Event}
        → 0 < sz
        → size_of * sz < 2 ^ 64
        → length xs ≤ sz
        → ((buffer : List ℕ)
            → length buffer ≡ size_of * sz
            → K.read buffer (size_of * sz) s
              ≡ returns (length (encode pod xs), write_at buffer 0 (encode pod xs)) s' l)
        → generic_read K pod sz s ≡ returns xs s' l
    unfolding generic_read
    generic_read_lem sz xs {s} {s'} {l} pos small le answers =
        rw
          (
            mul_usize_lem size_of sz small,
            reads,
            pos→ne_zero size_of law.size_pos,
            num,
            elements-encode pod law xs [] (drop (length (encode pod xs)) buffer) 0 (omega arith),
          )
          (ap (returns xs s') (append-nil l))
      where
        n : ℕ
        n = size_of * sz

        buffer : List ℕ
        buffer = replicate n 0

        few : length (encode pod xs) ≤ n
        few = grind (arith, length-encode pod law xs)

        reads :
            read_loop K 2 n 0 buffer s
            ≡ returns (length (encode pod xs), write_at buffer 0 (encode pod xs)) s' l
        reads =
            read_loop_lem n buffer (encode pod xs) (grind (arith, law.size_pos)) few
              (answers buffer (length-replicate {A = ℕ} n 0))

        num : length (encode pod xs) / size_of ≡ length xs
        num =
            ap (λ t. t / size_of) (length-encode pod law xs)
            ∙ mul-div_cancel_left (length xs) law.size_pos

    -- A write of all values of a slice, whose bytes fit into memory, hands their bytes to the
    -- socket.
    pub generic_write_lem :
        (xs : List T)
        → size_of * length xs < 2 ^ 64
        → generic_write K pod xs (length xs) ≡ K.write (encode pod xs) (size_of * length xs)
    unfolding generic_write
    generic_write_lem xs small =
        rw (mul_usize_lem size_of (length xs) small)
          (write_memory_lem (size_of * length xs) (encode pod xs) (length-encode pod law xs))
