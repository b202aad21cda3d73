-- ===== src/Sock/Threads/Progress.antt =====
-- src/sock/mod.rs: whose turn it can be among the two threads of a binding.
use polysock.Base.{
  ℕ, ◌≡◌, refl, ap, ◌⊎◌, inl, inr, Bool, true, false, Option, none, some, List, Outcome, arith,
}
use polysock.Sock.{ComplexSock}
use polysock.Sock.Threads.{
  Point, loading, locking_source, reading, sleeping, locking_target, writing, dropping_source,
  dropping_target, ended, Shared, Moved, acquire, thread_turn, Turn, first, second, Binding,
  spawned, after_first, after_second, live_turn, turn, run,
}
use polysock.Sock.Threads.Counts.{held, holds_source, holds_target}
use polysock.Sock.Threads.Safety.{IsConsistent, run-IsConsistent}

-- Where a thread can be when it does not take its turn.
pub data IsWaiting {A B : Type 0} (s : Shared A) (t : Shared B) : Point → Type 0 where
  at_source : s.locked ≡ true → IsWaiting s t locking_source
  at_target : (buf : List ℕ) → t.locked ≡ true → IsWaiting s t (locking_target buf)
  at_end : (o : Outcome (Unit {0})) → IsWaiting s t (ended o)

module _ (source target : ComplexSock) where
  abbrev Takes : Option (Moved source.State target.State) → Type 0
  Takes o = (m : Moved source.State target.State) × (o ≡ some m)

  acquire-Takes :
      (locked poisoned : Bool) (taken failed : Moved source.State target.State)
      → Takes (acquire source target locked poisoned taken failed) ⊎ (locked ≡ true)
  acquire-Takes true poisoned taken failed = inr refl
  acquire-Takes false true taken failed = inl (failed, refl)
  acquire-Takes false false taken failed = inl (taken, refl)

  thread_turn-Takes :
      (fuel : ℕ) (running : Bool) (p : Point) (s : Shared source.State) (t : Shared target.State)
      → Takes (thread_turn source target fuel running p s t) ⊎ IsWaiting s t p
  unfolding thread_turn
  thread_turn-Takes fuel running loading s t = inl (_, refl)
  thread_turn-Takes fuel running locking_source s t = elim (acquire-Takes s.locked s.poisoned _ _) [
    | inl taken ↦ inl taken
    | inr e ↦ inr (at_source e)
  ]
  thread_turn-Takes fuel running reading s t = inl (_, refl)
  thread_turn-Takes fuel running (locking_target buf) s t =
      elim (acquire-Takes t.locked t.poisoned _ _) [
        | inl taken ↦ inl taken
        | inr e ↦ inr (at_target buf e)
      ]
  thread_turn-Takes fuel running (writing buf) s t = inl (_, refl)
  thread_turn-Takes fuel running sleeping s t = inl (_, refl)
  thread_turn-Takes fuel running (dropping_source o) s t = inl (_, refl)
  thread_turn-Takes fuel running (dropping_target o) s t = inl (_, refl)
  thread_turn-Takes fuel running (ended o) s t = inr (at_end o)

IsWaiting-ended :
    {A B : Type 0} (s : Shared A) (t : Shared B) {p : Point}
    → IsWaiting s t p
    → held s.locked ≡ 0
    → held t.locked ≡ 0
    → (o : Outcome (Unit {0})) × (p ≡ ended o)
IsWaiting-ended s t (at_source e) zs zt = absurd (omega (arith, ap held e, zs))
IsWaiting-ended s t (at_target buf e) zs zt = absurd (omega (arith, ap held e, zt))
IsWaiting-ended s t (at_end o) zs zt = (o, refl)

IsWaiting-holds :
    {A B : Type 0} (s : Shared A) (t : Shared B) {p : Point}
    → IsWaiting s t p
    → (holds_source p ≡ 0) × (holds_target p ≡ 0)
IsWaiting-holds s t (at_source e) = (refl, refl)
IsWaiting-holds s t (at_target buf e) = (refl, refl)
IsWaiting-holds s t (at_end o) = (refl, refl)

module _ (from to : ComplexSock) where
  -- Both threads are at their end.
  abbrev pub BothEnded : Binding from to → Type 0
  BothEnded b = (o1 o2 : Outcome (Unit {0})) × (b.point1 ≡ ended o1) × (b.point2 ≡ ended o2)

  abbrev pub CanTurn : ℕ → Turn → Binding from to → Type 0
  CanTurn fuel whose b = (b' : Binding from to) × (turn from to fuel whose b ≡ some b')

  pub progress :
      (fuel : ℕ) (b : Binding from to)
      → IsConsistent b
      → b.over ≡ none
      → CanTurn fuel first b ⊎ CanTurn fuel second b ⊎ BothEnded b
  unfolding turn live_turn
  progress fuel b c live = elim (thread_turn-Takes from to fuel b.running b.point1 b.left b.right) [
    | inl (m, e) ↦ inl (after_first from to b m, rw (live, e) refl)
    | inr w1 ↦ elim (thread_turn-Takes to from fuel b.running b.point2 b.right b.left) [
      | inl (m, e) ↦ inr (inl (after_second from to b m, rw (live, e) refl))
      | inr w2 ↦
          let (a1, z1) = IsWaiting-holds b.left b.right w1 in
          let (a2, z2) = IsWaiting-holds b.right b.left w2 in
          let left_free : held b.left.locked ≡ 0 = omega (arith, c.left_lock, a1, z2) in
          let right_free : held b.right.locked ≡ 0 = omega (arith, c.right_lock, z1, a2) in
          let (o1, e1) = IsWaiting-ended b.left b.right w1 left_free right_free in
          let (o2, e2) = IsWaiting-ended b.right b.left w2 right_free left_free in
          inr (inr (o1, o2, e1, e2))
    ]
  ]

  -- However the turns have gone, one of the two threads can take its turn, unless both are at their
  -- end or the process is over: the two locks cannot block both threads.
  pub run-progress :
      (fuel : ℕ) (turns : List Turn) (pair : from.State × to.State) (b : Binding from to)
      → run from to fuel turns (spawned from to pair) ≡ some b
      → b.over ≡ none
      → CanTurn fuel first b ⊎ CanTurn fuel second b ⊎ BothEnded b
  run-progress fuel turns pair b e live =
      progress fuel b (run-IsConsistent from to fuel turns pair b e) live
