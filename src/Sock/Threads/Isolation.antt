-- ===== src/Sock/Threads/Isolation.antt =====
-- src/sock/mod.rs: what a turn of one thread of a binding leaves of the socket of the other one's call.
use polysock.Base.{
  ℕ, ◌+◌, ◌≤◌, ◌==◌, ◌≡◌, refl, inl, inr, Bool, true, false, Bool-cases, some, List, arith, Event,
  ==_iff,
}
use polysock.Base.{Outcome, ok, err, panic, undefined, exit, no_fuel}
use polysock.Sock.{ComplexSock}
use polysock.Sock.Threads.{
  Point, loading, locking_source, reading, sleeping, locking_target, writing, dropping_source,
  dropping_target, ended, Shared, Moved, drop_arc, acquire, after_read, after_write, thread_turn,
  Turn, first, second, clear, Binding, spawned, after_first, after_second, live_turn, turn, run,
}
use polysock.Sock.Threads.Counts.{
  holds_source, holds_target, holds_le_source, holds_le_target, keeps_source, keeps_target, Each,
}
use polysock.Sock.Threads.Safety.{
  IsConsistent, run-IsConsistent, held_le, Each-map, Each-unless_over,
}

-- The drop of a share that is not the last one.
drop_arc-inner :
    (K : ComplexSock) (m : Shared K.State) → 2 ≤ m.refs → (drop_arc K m).state.inner ≡ m.inner
drop_arc-inner K m many = elim (Bool-cases (m.refs == 1)) [
  | inl one ↦ absurd (omega (arith, (==_iff m.refs 1).0 one, many))
  | inr more ↦ rw (more, drop_arc) refl
]

module _ (source target : ComplexSock) where
  abbrev SourceKept : Shared source.State → Moved source.State target.State → Type 0
  SourceKept s m = m.source.inner ≡ s.inner

  abbrev TargetKept : Shared target.State → Moved source.State target.State → Type 0
  TargetKept t m = m.target.inner ≡ t.inner

  acquire-Each :
      (P : Moved source.State target.State → Type 0) (locked poisoned : Bool)
      (taken failed : Moved source.State target.State)
      → P taken
      → P failed
      → Each P (acquire source target locked poisoned taken failed)
  acquire-Each P true poisoned taken failed f g = tt
  acquire-Each P false true taken failed f g = g
  acquire-Each P false false taken failed f g = f

  after_read-TargetKept :
      (o : Outcome (List ℕ)) (s' : source.State) (log : List Event) (s : Shared source.State)
      (t : Shared target.State)
      → TargetKept t (after_read source target o s' log s t)
  after_read-TargetKept (ok buf) s' log s t = refl
  after_read-TargetKept (err x) s' log s t = refl
  after_read-TargetKept panic s' log s t = refl
  after_read-TargetKept undefined s' log s t = refl
  after_read-TargetKept (exit n) s' log s t = refl
  after_read-TargetKept no_fuel s' log s t = refl

  after_write-SourceKept :
      (buf : List ℕ) (o : Outcome (Unit {0})) (t' : target.State) (log : List Event)
      (s : Shared source.State) (t : Shared target.State)
      → SourceKept s (after_write source target buf o t' log s t)
  after_write-SourceKept buf (ok done) t' log s t = refl
  after_write-SourceKept buf (err x) t' log s t = refl
  after_write-SourceKept buf panic t' log s t = refl
  after_write-SourceKept buf undefined t' log s t = refl
  after_write-SourceKept buf (exit n) t' log s t = refl
  after_write-SourceKept buf no_fuel t' log s t = refl

  -- A thread that is not in a call of the socket it reads leaves it alone, but for the drop of the
  -- last share.
  pub thread_turn-SourceKept :
      (fuel : ℕ) (running : Bool) (p : Point) (s : Shared source.State) (t : Shared target.State)
      → holds_source p ≡ 0
      → keeps_source p + 1 ≤ s.refs
      → Each (SourceKept s) (thread_turn source target fuel running p s t)
  unfolding thread_turn
  thread_turn-SourceKept fuel running loading s t out refs = refl
  thread_turn-SourceKept fuel running locking_source s t out refs =
      acquire-Each (SourceKept s) s.locked s.poisoned _ _ refl refl
  thread_turn-SourceKept fuel running reading s t out refs = absurd (omega (arith, out))
  thread_turn-SourceKept fuel running (locking_target buf) s t out refs =
      acquire-Each (SourceKept s) t.locked t.poisoned _ _ refl refl
  thread_turn-SourceKept fuel running (writing buf) s t out refs =
      after_write-SourceKept buf _ _ _ s t
  thread_turn-SourceKept fuel running sleeping s t out refs = refl
  thread_turn-SourceKept fuel running (dropping_source o) s t out refs =
      drop_arc-inner source s (omega (arith, refs))
  thread_turn-SourceKept fuel running (dropping_target o) s t out refs = refl
  thread_turn-SourceKept fuel running (ended o) s t out refs = tt

  pub thread_turn-TargetKept :
      (fuel : ℕ) (running : Bool) (p : Point) (s : Shared source.State) (t : Shared target.State)
      → holds_target p ≡ 0
      → keeps_target p + 1 ≤ t.refs
      → Each (TargetKept t) (thread_turn source target fuel running p s t)
  unfolding thread_turn
  thread_turn-TargetKept fuel running loading s t out refs = refl
  thread_turn-TargetKept fuel running locking_source s t out refs =
      acquire-Each (TargetKept t) s.locked s.poisoned _ _ refl refl
  thread_turn-TargetKept fuel running reading s t out refs = after_read-TargetKept _ _ _ s t
  thread_turn-TargetKept fuel running (locking_target buf) s t out refs =
      acquire-Each (TargetKept t) t.locked t.poisoned _ _ refl refl
  thread_turn-TargetKept fuel running (writing buf) s t out refs = absurd (omega (arith, out))
  thread_turn-TargetKept fuel running sleeping s t out refs = refl
  thread_turn-TargetKept fuel running (dropping_source o) s t out refs = refl
  thread_turn-TargetKept fuel running (dropping_target o) s t out refs =
      drop_arc-inner target t (omega (arith, refs))
  thread_turn-TargetKept fuel running (ended o) s t out refs = tt

-- The first socket of a binding, or the second one.
pub data Side : Type 0 where
  left_sock right_sock : Side

-- The thread that is not this one.
abbrev pub other : Turn → Turn
other first = second
other second = first
other clear = clear

module _ (from to : ComplexSock) where
  -- The calls of a socket that a thread is in.
  abbrev pub calls : Turn → Side → Binding from to → ℕ
  calls first left_sock b = holds_source b.point1
  calls first right_sock b = holds_target b.point1
  calls second left_sock b = holds_target b.point2
  calls second right_sock b = holds_source b.point2
  calls clear side b = 0

  abbrev pub Untouched : Side → Binding from to → Binding from to → Type 0
  Untouched left_sock b b' = b'.left.inner ≡ b.left.inner
  Untouched right_sock b b' = b'.right.inner ≡ b.right.inner

  isolated :
      (fuel : ℕ) (who : Turn) (side : Side) (b : Binding from to)
      → IsConsistent b
      → calls who side b ≡ 1
      → (calls (other who) side b ≡ 0) × Each (Untouched side b) (turn from to fuel (other who) b)
  unfolding turn live_turn
  isolated fuel first left_sock b c in_call =
      let out : holds_target b.point2 ≡ 0 =
        omega (arith, c.left_lock, held_le b.left.locked, in_call) in
      (
        out,
        Each-unless_over (Untouched left_sock b) b.over _ (λ live.
            Each-map _ (Untouched left_sock b) (after_second from to b) _
              (thread_turn-TargetKept to from fuel b.running b.point2 b.right b.left out
                (omega (arith, c.left_refs, in_call, holds_le_source b.point1)))
              (λ m e. e)),
      )
  isolated fuel first right_sock b c in_call =
      let out : holds_source b.point2 ≡ 0 =
        omega (arith, c.right_lock, held_le b.right.locked, in_call) in
      (
        out,
        Each-unless_over (Untouched right_sock b) b.over _ (λ live.
            Each-map _ (Untouched right_sock b) (after_second from to b) _
              (thread_turn-SourceKept to from fuel b.running b.point2 b.right b.left out
                (omega (arith, c.right_refs, in_call, holds_le_target b.point1)))
              (λ m e. e)),
      )
  isolated fuel second left_sock b c in_call =
      let out : holds_source b.point1 ≡ 0 =
        omega (arith, c.left_lock, held_le b.left.locked, in_call) in
      (
        out,
        Each-unless_over (Untouched left_sock b) b.over _ (λ live.
            Each-map _ (Untouched left_sock b) (after_first from to b) _
              (thread_turn-SourceKept from to fuel b.running b.point1 b.left b.right out
                (omega (arith, c.left_refs, in_call, holds_le_target b.point2)))
              (λ m e. e)),
      )
  isolated fuel second right_sock b c in_call =
      let out : holds_target b.point1 ≡ 0 =
        omega (arith, c.right_lock, held_le b.right.locked, in_call) in
      (
        out,
        Each-unless_over (Untouched right_sock b) b.over _ (λ live.
            Each-map _ (Untouched right_sock b) (after_first from to b) _
              (thread_turn-TargetKept from to fuel b.running b.point1 b.left b.right out
                (omega (arith, c.right_refs, in_call, holds_le_source b.point2)))
              (λ m e. e)),
      )
  isolated fuel clear side b c in_call = absurd (omega (arith, in_call))

  -- In any order of the turns: while a thread of a binding in both directions is in a call of a
  -- socket, the other thread is in no call of it, and whatever turn the other one takes, the drop of
  -- its share of the socket included, leaves the socket as it is, so that it is not closed.
  pub run-exclusive :
      (fuel : ℕ) (turns : List Turn) (pair : from.State × to.State) (b : Binding from to)
      (who : Turn) (side : Side)
      → run from to fuel turns (spawned from to pair) ≡ some b
      → calls who side b ≡ 1
      → (calls (other who) side b ≡ 0) × Each (Untouched side b) (turn from to fuel (other who) b)
  run-exclusive fuel turns pair b who side e in_call =
      isolated fuel who side b (run-IsConsistent from to fuel turns pair b e) in_call
