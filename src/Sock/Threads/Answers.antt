-- ===== src/Sock/Threads/Answers.antt =====
-- src/sock/mod.rs: the threads of a binding whose sockets answer every call.
use polysock.Base.{
  ℕ, ◌==◌, ◌≡◌, refl, ap, ◌∙◌, inl, inr, Bool, true, false, Bool-cases, Option, none, some, List,
  [], ◌∷◌, length, Event,
}
use polysock.Base.{Outcome, ok, err, panic, undefined, exit, no_fuel, after_drop}
use polysock.Sock.{ComplexSock}
use polysock.Sock.Wrapper.{u8, drop_wrapper, read_all, generic_write}
use polysock.Sock.Threads.{
  Point, loading, locking_source, reading, sleeping, locking_target, writing, dropping_source,
  dropping_target, ended, Shared, Moved, stopped, drop_arc, acquire, after_read, after_write,
  thread_turn, Turn, first, second, clear, Binding, spawned, after_first, after_second, live_turn,
  turn, run,
}
use polysock.Sock.Threads.Counts.{Each}
use polysock.Sock.Threads.Safety.{Each-some, Each-map, Each-unless_over, Each-cleared, Each-bind}

-- A call has come to an end: it returns, unwinds or ends the process.
abbrev pub IsSettled : {A : Type 0} → Outcome A → Type 0
IsSettled (ok a) = Unit {0}
IsSettled (err e) = Unit {0}
IsSettled panic = Unit {0}
IsSettled (exit code) = Unit {0}
IsSettled undefined = ⊥
IsSettled no_fuel = ⊥

-- A socket whose reads, writes and drop come to an end, in the states that they lead to.
pub record Answers (K : ComplexSock) (fuel : ℕ) (P : K.State → Type 0) : Type 0 where
  pub reads :
      (s : K.State) → P s → IsSettled (read_all K u8 fuel s).out × P (read_all K u8 fuel s).state
  pub writes :
      (buf : List ℕ) (s : K.State)
      → P s
      → let r = generic_write K u8 buf (length buf) s in IsSettled r.out × P r.state
  pub drops : (s : K.State) → P s → IsSettled (drop_wrapper K s).out × P (drop_wrapper K s).state

abbrev IsExit : Option (Outcome (Unit {0})) → Type 0
IsExit none = Unit {0}
IsExit (some (exit code)) = Unit {0}
IsExit (some (ok done)) = ⊥
IsExit (some (err e)) = ⊥
IsExit (some panic) = ⊥
IsExit (some undefined) = ⊥
IsExit (some no_fuel) = ⊥

exit_of : (o : Outcome (Unit {0})) → IsExit (some o) → (code : ℕ) × (o ≡ exit code)
exit_of (exit code) h = (code, refl)
exit_of (ok done) h = absurd h
exit_of (err e) h = absurd h
exit_of panic h = absurd h
exit_of undefined h = absurd h
exit_of no_fuel h = absurd h

exit_code :
    (over : Option (Outcome (Unit {0}))) {o : Outcome (Unit {0})}
    → IsExit over
    → over ≡ some o
    → (code : ℕ) × (over ≡ some (exit code))
exit_code over {o} h e = let (code, exits) = exit_of o (rw e at h) in (code, e ∙ ap some exits)

-- What a thread has come to before it drops its shares.
abbrev Settled : Point → Type 0
Settled (dropping_source o) = IsSettled o
Settled (dropping_target o) = IsSettled o
Settled (ended o) = IsSettled o
Settled loading = Unit {0}
Settled locking_source = Unit {0}
Settled reading = Unit {0}
Settled sleeping = Unit {0}
Settled (locking_target buf) = Unit {0}
Settled (writing buf) = Unit {0}

stopped-IsExit : (o : Outcome (Unit {0})) → IsSettled o → IsExit (stopped o)
stopped-IsExit (ok done) h = tt
stopped-IsExit (err e) h = tt
stopped-IsExit panic h = tt
stopped-IsExit (exit code) h = tt
stopped-IsExit undefined h = absurd h
stopped-IsExit no_fuel h = absurd h

after_panic : (o : Outcome (Unit {0})) → IsSettled o → IsSettled (after_drop o panic)
after_panic (ok done) h = tt
after_panic (err e) h = tt
after_panic panic h = tt
after_panic (exit code) h = tt
after_panic undefined h = absurd h
after_panic no_fuel h = absurd h

after_drop-IsSettled :
    (o o' : Outcome (Unit {0})) → IsSettled o → IsSettled o' → IsSettled (after_drop o o')
after_drop-IsSettled o (ok done) h h' = h
after_drop-IsSettled o (err e) h h' = h
after_drop-IsSettled o panic h h' = after_panic o h
after_drop-IsSettled o (exit code) h h' = tt
after_drop-IsSettled o undefined h h' = absurd h'
after_drop-IsSettled o no_fuel h h' = absurd h'

drop_arc-Answers :
    {K : ComplexSock} {fuel : ℕ} {P : K.State → Type 0}
    → Answers K fuel P
    → (m : Shared K.State) → P m.inner
    → IsSettled (drop_arc K m).out × P (drop_arc K m).state.inner
drop_arc-Answers answers m p = elim (Bool-cases (m.refs == 1)) [
  | inl one ↦ rw (one, drop_arc) (answers.drops m.inner p)
  | inr more ↦ rw (more, drop_arc) (tt, p)
]

module _ (source target : ComplexSock) (fuel : ℕ) (P : source.State → Type 0)
    (Q : target.State → Type 0) where
  abbrev Sound : Moved source.State target.State → Type 0
  Sound m = IsExit m.over × Settled m.point × P m.source.inner × Q m.target.inner

  after_read-Sound :
      (o : Outcome (List ℕ)) (s' : source.State) (log : List Event) (s : Shared source.State)
      (t : Shared target.State)
      → IsSettled o
      → P s'
      → Q t.inner
      → Sound (after_read source target o s' log s t)
  after_read-Sound (ok buf) s' log s t h p q = (tt, tt, p, q)
  after_read-Sound (err x) s' log s t h p q = (tt, tt, p, q)
  after_read-Sound panic s' log s t h p q = (tt, tt, p, q)
  after_read-Sound (exit n) s' log s t h p q = (tt, tt, p, q)
  after_read-Sound undefined s' log s t h p q = absurd h
  after_read-Sound no_fuel s' log s t h p q = absurd h

  after_write-Sound :
      (buf : List ℕ) (o : Outcome (Unit {0})) (t' : target.State) (log : List Event)
      (s : Shared source.State) (t : Shared target.State)
      → IsSettled o
      → P s.inner
      → Q t'
      → Sound (after_write source target buf o t' log s t)
  after_write-Sound buf (ok done) t' log s t h p q = (tt, tt, p, q)
  after_write-Sound buf (err x) t' log s t h p q = (tt, tt, p, q)
  after_write-Sound buf panic t' log s t h p q = (tt, tt, p, q)
  after_write-Sound buf (exit n) t' log s t h p q = (tt, tt, p, q)
  after_write-Sound buf undefined t' log s t h p q = absurd h
  after_write-Sound buf no_fuel t' log s t h p q = absurd h

  acquire-Sound :
      (locked poisoned : Bool) (taken failed : Moved source.State target.State)
      → Sound taken
      → Sound failed
      → Each Sound (acquire source target locked poisoned taken failed)
  acquire-Sound true poisoned taken failed f g = tt
  acquire-Sound false true taken failed f g = g
  acquire-Sound false false taken failed f g = f

  pub thread_turn-Sound :
      (running : Bool) (p : Point) (s : Shared source.State) (t : Shared target.State)
      → Answers source fuel P
      → Answers target fuel Q
      → Settled p
      → P s.inner
      → Q t.inner
      → Each Sound (thread_turn source target fuel running p s t)
  unfolding thread_turn
  thread_turn-Sound true loading s t a b h p q = (tt, tt, p, q)
  thread_turn-Sound false loading s t a b h p q = (tt, tt, p, q)
  thread_turn-Sound running locking_source s t a b h p q =
      acquire-Sound s.locked s.poisoned _ _ (tt, tt, p, q) (tt, tt, p, q)
  thread_turn-Sound running reading s t a b h p q =
      let (settled, p') = a.reads s.inner p in after_read-Sound _ _ _ s t settled p' q
  thread_turn-Sound running (locking_target buf) s t a b h p q =
      acquire-Sound t.locked t.poisoned _ _ (tt, tt, p, q) (tt, tt, p, q)
  thread_turn-Sound running (writing buf) s t a b h p q =
      let (settled, q') = b.writes buf t.inner q in after_write-Sound buf _ _ _ s t settled p q'
  thread_turn-Sound running sleeping s t a b h p q = (tt, tt, p, q)
  thread_turn-Sound running (dropping_source o) s t a b h p q =
      let (settled, p') = drop_arc-Answers a s p in
      let h' = after_drop-IsSettled o _ h settled in (stopped-IsExit _ h', h', p', q)
  thread_turn-Sound running (dropping_target o) s t a b h p q =
      let (settled, q') = drop_arc-Answers b t q in
      let h' = after_drop-IsSettled o _ h settled in (stopped-IsExit _ h', h', p, q')
  thread_turn-Sound running (ended o) s t a b h p q = tt

module _ (from to : ComplexSock) (fuel : ℕ) (P : from.State → Type 0) (Q : to.State → Type 0)
    (answers : Answers from fuel P) (answers' : Answers to fuel Q) where
  -- A binding has not got stuck in a call.
  abbrev pub IsSound : Binding from to → Type 0
  IsSound b = IsExit b.over × Settled b.point1 × Settled b.point2 × P b.left.inner × Q b.right.inner

  turn-IsSound :
      (whose : Turn) (b : Binding from to) → IsSound b → Each IsSound (turn from to fuel whose b)
  unfolding turn live_turn
  turn-IsSound first b (x, h1, h2, p, q) = Each-unless_over IsSound b.over _ (λ live.
      Each-map (Sound from to fuel P Q) IsSound (after_first from to b) _
        (thread_turn-Sound from to fuel P Q b.running b.point1 b.left b.right answers answers' h1 p
          q)
        (λ m (x', h, p', q'). (x', h, h2, p', q')))
  turn-IsSound second b (x, h1, h2, p, q) = Each-unless_over IsSound b.over _ (λ live.
      Each-map (Sound to from fuel Q P) IsSound (after_second from to b) _
        (thread_turn-Sound to from fuel Q P b.running b.point2 b.right b.left answers' answers h2 q
          p)
        (λ m (x', h, q', p'). (x', h1, h, p', q')))
  turn-IsSound clear b sound =
      Each-unless_over IsSound b.over _
        (λ live. Each-cleared IsSound b.running (record b { running = false }) sound)

  run-Each :
      (turns : List Turn) (b : Binding from to)
      → IsSound b
      → Each IsSound (run from to fuel turns b)
  unfolding run
  run-Each [] b sound = sound
  run-Each (whose ∷ turns) b sound =
      Each-bind IsSound IsSound (turn from to fuel whose b) (run from to fuel turns)
        (turn-IsSound whose b sound) (λ b'. run-Each turns b')

  -- A binding that is over is so because the process has ended.
  pub run-exits :
      (turns : List Turn) (b b' : Binding from to) {o : Outcome (Unit {0})}
      → IsSound b
      → run from to fuel turns b ≡ some b'
      → b'.over ≡ some o
      → (code : ℕ) × (b'.over ≡ some (exit code))
  run-exits turns b b' sound e over =
      exit_code b'.over (Each-some IsSound (run-Each turns b sound) e).0 over

  pub run-IsSound :
      (turns : List Turn) (pair : from.State × to.State) (b : Binding from to)
      → P pair.0
      → Q pair.1
      → run from to fuel turns (spawned from to pair) ≡ some b
      → IsSound b
  run-IsSound turns pair b p q e =
      Each-some IsSound (run-Each turns (spawned from to pair) (tt, tt, tt, p, q)) e
