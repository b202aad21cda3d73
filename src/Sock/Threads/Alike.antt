-- ===== src/Sock/Threads/Alike.antt =====
-- src/sock/mod.rs: the two threads of a binding over sockets whose operations differ only in what
-- they show.
use polysock.Base.{
  ℕ, ◌==◌, ◌≡◌, refl, ap, ap₂, after_drop, ◌∙◌, Bool, inl, inr, Bool-cases, some, List, [], Outcome,
  ok, err, panic, undefined, exit, no_fuel, Event, M, length,
}
use mathlib.Core.Option.{map}
use polysock.Sock.{ComplexSock}
use polysock.Sock.Wrapper.{u8, read_all, generic_write}
use polysock.Sock.Decorators.Simulation.{Same-unwind, Same, with_operations}
use polysock.Sock.Threads.{
  Point, loading, locking_source, reading, sleeping, locking_target, writing, dropping_source,
  dropping_target, ended, Shared, Moved, moved, stopped, drop_arc, after_read, after_write,
  thread_turn,
}

-- A socket and the same one with other operations do the same for a thread, but for what they show.
pub record IsAlike (K : ComplexSock) (open_sock' close' : M K.State (Unit {0}))
    (read' : List ℕ → ℕ → M K.State (ℕ × List ℕ)) (write' : List ℕ → ℕ → M K.State (Unit {0}))
    : Type 0 where
  pub reads :
      (fuel : ℕ) (s : K.State)
      → Same
          (read_all (with_operations K open_sock' close' read' write') u8 fuel s)
          (read_all K u8 fuel s)
  pub writes :
      (buf : List ℕ) (s : K.State)
      → Same
          (generic_write (with_operations K open_sock' close' read' write') u8 buf (length buf) s)
          (generic_write K u8 buf (length buf) s)
  pub closes : (s : K.State) → Same (close' s) (K.close s)

pub IsAlike-refl : (K : ComplexSock) → IsAlike K K.open_sock K.close K.read K.write
IsAlike-refl K = record {
  reads = λ fuel s. (refl, refl);
  writes = λ buf s. (refl, refl);
  closes = λ s. (refl, refl);
}

-- What a turn leads to, without what it shows.
abbrev pub quiet : {A B : Type 0} → Moved A B → Moved A B
quiet m = record m { log = [] }

module _ (f t : ComplexSock) where
  after_read-quiet :
      (o : Outcome (List ℕ)) (s' : f.State) (l l' : List Event) (s : Shared f.State)
      (z : Shared t.State)
      → quiet (after_read f t o s' l s z) ≡ quiet (after_read f t o s' l' s z)
  after_read-quiet (ok buf) s' l l' s z = refl
  after_read-quiet (err e) s' l l' s z = refl
  after_read-quiet panic s' l l' s z = refl
  after_read-quiet undefined s' l l' s z = refl
  after_read-quiet (exit n) s' l l' s z = refl
  after_read-quiet no_fuel s' l l' s z = refl

  after_write-quiet :
      (buf : List ℕ) (o : Outcome (Unit {0})) (t' : t.State) (l l' : List Event)
      (s : Shared f.State) (z : Shared t.State)
      → quiet (after_write f t buf o t' l s z) ≡ quiet (after_write f t buf o t' l' s z)
  after_write-quiet buf (ok done) t' l l' s z = refl
  after_write-quiet buf (err e) t' l l' s z = refl
  after_write-quiet buf panic t' l l' s z = refl
  after_write-quiet buf undefined t' l l' s z = refl
  after_write-quiet buf (exit n) t' l l' s z = refl
  after_write-quiet buf no_fuel t' l l' s z = refl

module _ (K : ComplexSock) (open_sock' close' : M K.State (Unit {0}))
    (read' : List ℕ → ℕ → M K.State (ℕ × List ℕ)) (write' : List ℕ → ℕ → M K.State (Unit {0}))
    (alike : IsAlike K open_sock' close' read' write') where
  drop_arc-alike :
      (m : Shared K.State)
      → Same (drop_arc (with_operations K open_sock' close' read' write') m) (drop_arc K m)
  drop_arc-alike m = elim (Bool-cases (m.refs == 1)) [
    | inl last ↦
        let (e, d) =
          Same-unwind K.drop_sock K.drop_sock (close' m.inner) (K.close m.inner) (λ s. (refl, refl))
            (alike.closes m.inner) in
        rw (last, drop_arc) (e, ap (λ s. record m { inner = s; refs = 0 }) d)
    | inr others ↦ rw (others, drop_arc) (refl, refl)
  ]

-- A turn that drops a share, without what it shows.
abbrev dropped : {A B : Type 0} → Outcome (Unit {0}) → Point → Shared A → Shared B → Moved A B
dropped o p s t = record (moved p s t []) { over = stopped o }

module _ (f : ComplexSock) (of cf : M f.State (Unit {0})) (rf : List ℕ → ℕ → M f.State (ℕ × List ℕ))
    (wf : List ℕ → ℕ → M f.State (Unit {0})) (alike_f : IsAlike f of cf rf wf) (t : ComplexSock)
    (ot ct : M t.State (Unit {0})) (rt : List ℕ → ℕ → M t.State (ℕ × List ℕ))
    (wt : List ℕ → ℕ → M t.State (Unit {0})) (alike_t : IsAlike t ot ct rt wt) where
  abbrev pub f' : ComplexSock
  f' = with_operations f of cf rf wf

  abbrev pub t' : ComplexSock
  t' = with_operations t ot ct rt wt

  pub thread_turn-quiet :
      (fuel : ℕ) (running : Bool) (p : Point) (s : Shared f.State) (z : Shared t.State)
      → map quiet (thread_turn f' t' fuel running p s z)
        ≡ map quiet (thread_turn f t fuel running p s z)
  unfolding thread_turn
  thread_turn-quiet fuel running loading s z = refl
  thread_turn-quiet fuel running locking_source s z = refl
  thread_turn-quiet fuel running reading s z =
      let (e, d) = alike_f.reads fuel s.inner in
      let r' = read_all f' u8 fuel s.inner in
      let r = read_all f u8 fuel s.inner in
      ap some (
        ap (λ o. quiet (after_read f t o r'.state r'.log s z)) e
        ∙ ap (λ x. quiet (after_read f t r.out x r'.log s z)) d
        ∙ after_read-quiet f t r.out r.state r'.log r.log s z)
  thread_turn-quiet fuel running (locking_target buf) s z = refl
  thread_turn-quiet fuel running (writing buf) s z =
      let (e, d) = alike_t.writes buf z.inner in
      let r' = generic_write t' u8 buf (length buf) z.inner in
      let r = generic_write t u8 buf (length buf) z.inner in
      ap some (
        ap (λ o. quiet (after_write f t buf o r'.state r'.log s z)) e
        ∙ ap (λ x. quiet (after_write f t buf r.out x r'.log s z)) d
        ∙ after_write-quiet f t buf r.out r.state r'.log r.log s z)
  thread_turn-quiet fuel running sleeping s z = refl
  thread_turn-quiet fuel running (dropping_source o) s z =
      let (e, d) = drop_arc-alike f of cf rf wf alike_f s in
      ap₂ (λ r x. some (dropped (after_drop o r) (dropping_target (after_drop o r)) x z)) e d
  thread_turn-quiet fuel running (dropping_target o) s z =
      let (e, d) = drop_arc-alike t ot ct rt wt alike_t z in
      ap₂ (λ r x. some (dropped (after_drop o r) (ended (after_drop o r)) s x)) e d
  thread_turn-quiet fuel running (ended o) s z = refl
