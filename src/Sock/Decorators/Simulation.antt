-- ===== src/Sock/Decorators/Simulation.antt =====
-- Two sockets over the same state whose operations differ only in what they show.
-- The typed reads and writes and the thread of src/sock/mod.rs over the one and over the other.
use polysock.Base.{
  ℕ, zero, suc, ◌-◌, ◌+◌, ◌≤◌, ◌≡◌, refl, ap, length-write_at, length-replicate, length-take,
  length-drop, length-append, Bool, true, false, List, [], ◌∷◌, ◌++◌, arith,
}
use polysock.Base.{ltb, inl, inr, Bool-cases, length, take, drop, write_at, replicate}
use polysock.Base.{
  unwind, unwound, unwind_failed, unwound_failed, after_drop, Outcome, ok, err, panic, undefined,
  exit, no_fuel, Event, M, Ret, chain, ◌>>=◌,
}
use polysock.Sock.{ComplexSock}
use polysock.Sock.Wrapper.{
  Pod, u8, mul_usize, encode, read_loop, generic_read, write_memory, generic_write, read_all_loop,
  read_all,
}
use polysock.Sock.Manager.{transfer, binding_thread, on_from, on_to}

abbrev pub Same : {S A : Type 0} → Ret S A → Ret S A → Type 0
Same r r' = (r.out ≡ r'.out) × (r.state ≡ r'.state)

Same-chain :
    {S A B : Type 0} (o : Outcome A) (s : S) (l l' : List Event) (f f' : A → S → Ret S B)
    → ((a : A) (s : S) → o ≡ ok a → Same (f a s) (f' a s))
    → Same (chain o s l f) (chain o s l' f')
Same-chain (ok a) s l l' f f' same = same a s refl
Same-chain (err e) s l l' f f' same = (refl, refl)
Same-chain panic s l l' f f' same = (refl, refl)
Same-chain undefined s l l' f f' same = (refl, refl)
Same-chain (exit code) s l l' f f' same = (refl, refl)
Same-chain no_fuel s l l' f f' same = (refl, refl)

pub Same-bind :
    {S A B : Type 0} (m m' : M S A) (f f' : A → M S B) (s : S)
    → Same (m s) (m' s)
    → ((a : A) (t : S) → (m' s).out ≡ ok a → Same (f a t) (f' a t))
    → Same ((m >>= f) s) ((m' >>= f') s)
Same-bind m m' f f' s (e, e') same =
    rw (e, e') (Same-chain (m' s).out (m' s).state (m s).log (m' s).log f f' same)

pub Same-unwind :
    {S A : Type 0} (d d' : M S (Unit {0})) (r r' : Ret S A)
    → ((s : S) → Same (d s) (d' s))
    → Same r r'
    → Same (unwind d r) (unwind d' r')
Same-unwind {S} {A} d d' r r' drops (e, e') = rw (e, e') (by_outcome r'.out r'.state)
  where
    by_outcome : (o : Outcome A) (s : S) → Same (unwound d o s r.log) (unwound d' o s r'.log)
    by_outcome (ok a) s = (ap (after_drop (ok a)) (drops s).0, (drops s).1)
    by_outcome (err x) s = (ap (after_drop (err x)) (drops s).0, (drops s).1)
    by_outcome panic s = (ap (after_drop panic) (drops s).0, (drops s).1)
    by_outcome undefined s = (refl, refl)
    by_outcome (exit n) s = (refl, refl)
    by_outcome no_fuel s = (refl, refl)

pub Same-unwind_failed :
    {S A : Type 0} (d d' : M S (Unit {0})) (r r' : Ret S A)
    → ((s : S) → Same (d s) (d' s))
    → Same r r'
    → Same (unwind_failed d r) (unwind_failed d' r')
Same-unwind_failed {S} {A} d d' r r' drops (e, e') = rw (e, e') (by_outcome r'.out r'.state)
  where
    by_outcome :
        (o : Outcome A) (s : S) → Same (unwound_failed d o s r.log) (unwound_failed d' o s r'.log)
    by_outcome (ok a) s = (refl, refl)
    by_outcome (err x) s = (ap (after_drop (err x)) (drops s).0, (drops s).1)
    by_outcome panic s = (ap (after_drop panic) (drops s).0, (drops s).1)
    by_outcome undefined s = (refl, refl)
    by_outcome (exit n) s = (refl, refl)
    by_outcome no_fuel s = (refl, refl)

-- What `generic_read` relies on: a read of at most the length of the buffer returns no more than
-- that, and keeps the length.
abbrev pub KeepsBuffer : ComplexSock → Type 0
KeepsBuffer K =
    (buf buf' : List ℕ) (sz n : ℕ) (s : K.State)
    → sz ≤ length buf
    → (K.read buf sz s).out ≡ ok (n, buf')
    → (n ≤ length buf) × (length buf' ≡ length buf)

module _ (K : ComplexSock) (open_sock' close' : M K.State (Unit {0}))
    (read' : List ℕ → ℕ → M K.State (ℕ × List ℕ)) (write' : List ℕ → ℕ → M K.State (Unit {0})) where
  -- The socket with the other operations.
  abbrev pub with_operations : ComplexSock
  with_operations = record K {
    open_sock = open_sock';
    close = close';
    read = read';
    write = write';
  }

  module _ (keeps : KeepsBuffer K)
      (reads : (buf : List ℕ) (sz : ℕ) (s : K.State)
        → sz ≤ length buf
        → Same (read' buf sz s) (K.read buf sz s)) where
    read_loop-Same :
        (fuel n got : ℕ) (buffer : List ℕ) (s : K.State)
        → n ≤ length buffer
        → Same (read_loop with_operations fuel n got buffer s) (read_loop K fuel n got buffer s)
    unfolding read_loop
    read_loop-Same zero n got buffer s h = (refl, refl)
    read_loop-Same (suc fuel) n got buffer s h = elim (Bool-cases (ltb got n)) [
      | inl more ↦
          rw (more, read_loop)
            (Same-bind (read' rest (n - got)) (K.read rest (n - got)) _ _ s
              (reads rest (n - got) s room)
              λ (chunk, tail) t got_chunk. elim (Bool-cases (ltb chunk (n - got))) [
                | inl short ↦ rw (short, read_loop) (refl, refl)
                | inr full ↦
                    rw (full, read_loop)
                      (read_loop-Same fuel n (got + chunk) (take got buffer ++ tail) t
                        (whole tail (keeps rest tail (n - got) chunk s room got_chunk).1))
              ])
      | inr done ↦ rw (done, read_loop) (refl, refl)
    ]
      where
        rest : List ℕ
        rest = drop got buffer

        room : n - got ≤ length rest
        room = omega (arith, length-drop got buffer)

        whole : (tail : List ℕ) → length tail ≡ length rest → n ≤ length (take got buffer ++ tail)
        whole tail e = omega (
          arith,
          length-append (take got buffer) tail,
          length-take got buffer,
          length-drop got buffer,
        )

    generic_read-Same :
        {T : Type 0} (pod : Pod T) (sz : ℕ) (s : K.State)
        → Same (generic_read with_operations pod sz s) (generic_read K pod sz s)
    unfolding generic_read
    generic_read-Same pod sz s =
        let n = mul_usize pod.size_of sz in
        Same-bind (read_loop with_operations 2 n 0 (replicate n 0))
          (read_loop K 2 n 0 (replicate n 0)) _ _ s
          (read_loop-Same 2 n 0 (replicate n 0) s (omega (arith, length-replicate {A = ℕ} n 0)))
          (λ r s e. (refl, refl))

    pub read_all_loop-Same :
        {T : Type 0} (pod : Pod T) (fuel c : ℕ) (result : List T) (s : K.State)
        → Same
            (read_all_loop with_operations pod fuel c result s)
            (read_all_loop K pod fuel c result s)
    unfolding read_all_loop
    read_all_loop-Same pod zero c result s = (refl, refl)
    read_all_loop-Same pod (suc fuel) c result s =
        Same-bind (generic_read with_operations pod c) (generic_read K pod c) _ _ s
          (generic_read-Same pod c s)
          λ chunk s e. elim (Bool-cases (ltb (length chunk) c)) [
            | inl short ↦ rw (short, read_all_loop) (refl, refl)
            | inr full ↦
                rw (full, read_all_loop) (read_all_loop-Same pod fuel c (result ++ chunk) s)
          ]

  -- The buffer of a write has the length that is given with it.
  pub write_memory-Same :
      ((buf : List ℕ) (sz : ℕ) (s : K.State)
        → sz ≤ length buf
        → Same (write' buf sz s) (K.write buf sz s))
      → (n : ℕ) (memory : List ℕ) (s : K.State)
      → Same (write_memory with_operations n memory s) (write_memory K n memory s)
  unfolding write_memory
  write_memory-Same writes n memory s = elim (Bool-cases (ltb (length memory) n)) [
    | inl short ↦ rw (short, write_memory) (refl, refl)
    | inr enough ↦
        rw (enough, write_memory)
          (writes (write_at (replicate n 0) 0 (take n memory)) n s (
            omega (
              arith,
              length-take n memory,
              length-write_at (replicate n 0) 0 (take n memory),
              length-replicate {A = ℕ} n 0,
            )))
  ]

-- The thread with another socket to read from.
module _ (K to : ComplexSock) (open_sock' close' : M K.State (Unit {0}))
    (read' : List ℕ → ℕ → M K.State (ℕ × List ℕ)) (write' : List ℕ → ℕ → M K.State (Unit {0}))
    (keeps : KeepsBuffer K)
    (reads : (buf : List ℕ) (sz : ℕ) (s : K.State)
      → sz ≤ length buf
      → Same (read' buf sz s) (K.read buf sz s)) where
  abbrev from' : ComplexSock
  from' = with_operations K open_sock' close' read' write'

  transfer-from_Same :
      (fuel : ℕ) (p : K.State × to.State) → Same (transfer from' to fuel p) (transfer K to fuel p)
  unfolding transfer read_all
  transfer-from_Same fuel (s, t) =
      let (e, e') =
        read_all_loop-Same K open_sock' close' read' write' keeps reads u8 fuel 1024 [] s in
      Same-bind (on_from (read_all from' u8 fuel)) (on_from (read_all K u8 fuel)) _ _ (s, t)
        (e, ap (λ z. (z, t)) e') (λ buf p e. (refl, refl))

  pub binding_thread-from_Same :
      (fuel : ℕ) (loads : List Bool) (p : K.State × to.State)
      → Same (binding_thread from' to fuel loads p) (binding_thread K to fuel loads p)
  unfolding binding_thread
  binding_thread-from_Same fuel [] p = (refl, refl)
  binding_thread-from_Same fuel (false ∷ loads) p = (refl, refl)
  binding_thread-from_Same fuel (true ∷ loads) p =
      Same-bind (transfer from' to fuel) (transfer K to fuel) _ _ p (transfer-from_Same fuel p)
        (λ done p e. binding_thread-from_Same fuel loads p)

-- The thread with another socket to write to.
module _ (from K : ComplexSock) (open_sock' close' : M K.State (Unit {0}))
    (read' : List ℕ → ℕ → M K.State (ℕ × List ℕ)) (write' : List ℕ → ℕ → M K.State (Unit {0}))
    (writes : (buf : List ℕ) (sz : ℕ) (s : K.State)
      → sz ≤ length buf
      → Same (write' buf sz s) (K.write buf sz s)) where
  abbrev to' : ComplexSock
  to' = with_operations K open_sock' close' read' write'

  transfer-to_Same :
      (fuel : ℕ) (p : from.State × K.State)
      → Same (transfer from to' fuel p) (transfer from K fuel p)
  unfolding transfer generic_write
  transfer-to_Same fuel p =
      Same-bind (on_from (read_all from u8 fuel)) (on_from (read_all from u8 fuel)) _ _ p
        (refl, refl)
        λ buf (s, t) reads.
          let (e, e') =
            write_memory-Same K open_sock' close' read' write' writes (mul_usize 1 (length buf))
              (encode u8 buf) t in
          Same-bind (on_to (generic_write to' u8 buf (length buf)))
            (on_to (generic_write K u8 buf (length buf))) _ _ (s, t) (e, ap (λ z. (s, z)) e')
            (λ done p e. (refl, refl))

  pub binding_thread-to_Same :
      (fuel : ℕ) (loads : List Bool) (p : from.State × K.State)
      → Same (binding_thread from to' fuel loads p) (binding_thread from K fuel loads p)
  unfolding binding_thread
  binding_thread-to_Same fuel [] p = (refl, refl)
  binding_thread-to_Same fuel (false ∷ loads) p = (refl, refl)
  binding_thread-to_Same fuel (true ∷ loads) p =
      Same-bind (transfer from to' fuel) (transfer from K fuel) _ _ p (transfer-to_Same fuel p)
        (λ done p e. binding_thread-to_Same fuel loads p)
