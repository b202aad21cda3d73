-- ===== src/Sock/Manager/Keeps.antt =====
-- src/sock/mod.rs: what the writes of the thread keep of the socket that it writes to.
use polysock.Base.{ℕ, Bool, true, false, inl, inr, Bool-cases, List, [], ◌∷◌, length, ltb}
use polysock.Base.{Outcome, ok, err, panic, undefined, exit, no_fuel, Event, M, Ret, chain, ◌>>=◌}
use polysock.Sock.{ComplexSock}
use polysock.Sock.Wrapper.{u8, mul_usize, encode, write_memory, generic_write, read_all}
use polysock.Sock.Manager.{on_from, on_to, transfer, binding_thread}

chain-Keeps :
    {S A B : Type 0} (P : S → Type 0) (o : Outcome A) (s : S) (l : List Event) (f : A → S → Ret S B)
    → P s
    → ((a : A) (s : S) → P s → P (f a s).state)
    → P (chain o s l f).state
chain-Keeps P (ok a) s l f p keeps = keeps a s p
chain-Keeps P (err e) s l f p keeps = p
chain-Keeps P panic s l f p keeps = p
chain-Keeps P undefined s l f p keeps = p
chain-Keeps P (exit code) s l f p keeps = p
chain-Keeps P no_fuel s l f p keeps = p

bind-Keeps :
    {S A B : Type 0} (P : S → Type 0) (m : M S A) (f : A → M S B) (s : S)
    → P (m s).state
    → ((a : A) (s : S) → P s → P (f a s).state)
    → P ((m >>= f) s).state
bind-Keeps P m f s p keeps = chain-Keeps P (m s).out (m s).state (m s).log f p keeps

module _ (from to : ComplexSock) (P : to.State → Type 0)
    (writes : (buf : List ℕ) (n : ℕ) (t : to.State) → P t → P (to.write buf n t).state) where
  write_memory-Keeps :
      (n : ℕ) (memory : List ℕ) (t : to.State) → P t → P (write_memory to n memory t).state
  unfolding write_memory
  write_memory-Keeps n memory t p = elim (Bool-cases (ltb (length memory) n)) [
    | inl short ↦ rw (short, write_memory) p
    | inr enough ↦ rw (enough, write_memory) (writes _ n t p)
  ]

  abbrev Second : from.State × to.State → Type 0
  Second pair = P pair.1

  transfer-Keeps :
      (fuel : ℕ) (pair : from.State × to.State)
      → Second pair
      → Second (transfer from to fuel pair).state
  unfolding transfer generic_write
  transfer-Keeps fuel pair p =
      bind-Keeps Second (on_from (read_all from u8 fuel)) _ pair p (λ buf (s, t) q.
        bind-Keeps Second (on_to (generic_write to u8 buf (length buf))) _ (s, t)
          (write_memory-Keeps (mul_usize 1 (length buf)) (encode u8 buf) t q) (λ done pair r. r))

  -- What every write keeps, the thread keeps.
  pub binding_thread-Keeps :
      (fuel : ℕ) (loads : List Bool) (pair : from.State × to.State)
      → P pair.1
      → P (binding_thread from to fuel loads pair).state.1
  unfolding binding_thread
  binding_thread-Keeps fuel [] pair p = p
  binding_thread-Keeps fuel (false ∷ loads) pair p = p
  binding_thread-Keeps fuel (true ∷ loads) pair p =
      bind-Keeps Second (transfer from to fuel) _ pair (transfer-Keeps fuel pair p)
        (λ done pair q. binding_thread-Keeps fuel loads pair q)
