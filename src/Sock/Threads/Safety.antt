-- ===== src/Sock/Threads/Safety.antt =====
-- src/sock/mod.rs: the locks of a binding in both directions, whatever the order of the turns.
use polysock.Base.{
  Option-cases, inl, inr, ℕ, ◌+◌, ◌≤◌, ◌≡◌, refl, Bool, true, false, Option, none, some, List, [],
  ◌∷◌, arith,
}
use mathlib.Core.Option.{map, bind}
use polysock.Base.{Outcome}
use polysock.Sock.{ComplexSock}
use polysock.Sock.Threads.{
  Moved, Turn, first, second, clear, Binding, spawned, cleared, unless_over, after_first,
  after_second, live_turn, turn, run, play,
}
use polysock.Sock.Threads.Counts.{
  held, holds_source, holds_target, keeps_source, keeps_target, Each, IsBalanced,
  thread_turn-IsBalanced,
}

-- Every lock that is held is held by one thread, and the shares of a socket are those of the
-- threads that have not dropped theirs.
pub record IsConsistent {from to : ComplexSock} (b : Binding from to) : Type 0 where
  pub left_lock : held b.left.locked ≡ holds_source b.point1 + holds_target b.point2
  pub right_lock : held b.right.locked ≡ holds_target b.point1 + holds_source b.point2
  pub left_refs : b.left.refs ≡ keeps_source b.point1 + keeps_target b.point2
  pub right_refs : b.right.refs ≡ keeps_target b.point1 + keeps_source b.point2

pub held_le : (b : Bool) → held b ≤ 1
held_le true = omega arith
held_le false = omega arith

pub Each-map :
    {A B : Type 0} (P : A → Type 0) (Q : B → Type 0) (f : A → B) (o : Option A)
    → Each P o
    → ((a : A) → P a → Q (f a))
    → Each Q (map f o)
Each-map P Q f none h k = tt
Each-map P Q f (some a) h k = k a h

pub Each-some : {A : Type 0} (P : A → Type 0) {o : Option A} {a : A} → Each P o → o ≡ some a → P a
Each-some P h e = rw e at h

pub Each-cleared : {A : Type 0} (P : A → Type 0) (b : Bool) (a : A) → P a → Each P (cleared b a)
Each-cleared P true a h = h
Each-cleared P false a h = tt

pub Each-unless_over :
    {A : Type 0} (P : A → Type 0) (over : Option (Outcome (Unit {0}))) (o : Option A)
    → (over ≡ none → Each P o)
    → Each P (unless_over over o)
Each-unless_over P none o h = h refl
Each-unless_over P (some x) o h = tt

pub Each-bind :
    {A B : Type 0} (P : A → Type 0) (Q : B → Type 0) (o : Option A) (f : A → Option B)
    → Each P o
    → ((a : A) → P a → Each Q (f a))
    → Each Q (bind o f)
unfolding bind
Each-bind P Q none f h k = tt
Each-bind P Q (some a) f h k = k a h

module _ (from to : ComplexSock) where
  after_first-IsConsistent :
      (b : Binding from to) (m : Moved from.State to.State)
      → IsConsistent b
      → IsBalanced b.point1 b.left b.right m
      → IsConsistent (after_first from to b m)
  after_first-IsConsistent b m c e = record {
    left_lock = omega (arith, c.left_lock, e.source_lock);
    right_lock = omega (arith, c.right_lock, e.target_lock);
    left_refs = omega (arith, c.left_refs, e.source_refs);
    right_refs = omega (arith, c.right_refs, e.target_refs);
  }

  after_second-IsConsistent :
      (b : Binding from to) (m : Moved to.State from.State)
      → IsConsistent b
      → IsBalanced b.point2 b.right b.left m
      → IsConsistent (after_second from to b m)
  after_second-IsConsistent b m c e = record {
    left_lock = omega (arith, c.left_lock, e.target_lock);
    right_lock = omega (arith, c.right_lock, e.source_lock);
    left_refs = omega (arith, c.left_refs, e.target_refs);
    right_refs = omega (arith, c.right_refs, e.source_refs);
  }

  live_turn-IsConsistent :
      (fuel : ℕ) (whose : Turn) (b : Binding from to)
      → IsConsistent b
      → Each IsConsistent (live_turn from to fuel whose b)
  unfolding live_turn
  live_turn-IsConsistent fuel first b c =
      Each-map (IsBalanced b.point1 b.left b.right) IsConsistent (after_first from to b) _
        (thread_turn-IsBalanced from to fuel b.running b.point1 b.left b.right
          (omega (arith, c.left_lock)) (omega (arith, c.right_lock)) (omega (arith, c.left_refs))
          (omega (arith, c.right_refs)))
        (λ m. after_first-IsConsistent b m c)
  live_turn-IsConsistent fuel second b c =
      Each-map (IsBalanced b.point2 b.right b.left) IsConsistent (after_second from to b) _
        (thread_turn-IsBalanced to from fuel b.running b.point2 b.right b.left
          (omega (arith, c.right_lock)) (omega (arith, c.left_lock)) (omega (arith, c.right_refs))
          (omega (arith, c.left_refs)))
        (λ m. after_second-IsConsistent b m c)
  live_turn-IsConsistent fuel clear b c =
      Each-cleared IsConsistent b.running (record b { running = false })
        (record {
          left_lock = c.left_lock;
          right_lock = c.right_lock;
          left_refs = c.left_refs;
          right_refs = c.right_refs;
        })

  pub turn-IsConsistent :
      (fuel : ℕ) (whose : Turn) (b : Binding from to)
      → IsConsistent b
      → Each IsConsistent (turn from to fuel whose b)
  unfolding turn
  turn-IsConsistent fuel whose b c =
      Each-unless_over IsConsistent b.over (live_turn from to fuel whose b)
        (λ live. live_turn-IsConsistent fuel whose b c)

  pub run-Each :
      (fuel : ℕ) (turns : List Turn) (b : Binding from to)
      → IsConsistent b
      → Each IsConsistent (run from to fuel turns b)
  unfolding run
  run-Each fuel [] b c = c
  run-Each fuel (whose ∷ turns) b c =
      Each-bind IsConsistent IsConsistent (turn from to fuel whose b) (run from to fuel turns)
        (turn-IsConsistent fuel whose b c) (λ b'. run-Each fuel turns b')

  pub spawned-IsConsistent : (pair : from.State × to.State) → IsConsistent (spawned from to pair)
  spawned-IsConsistent (s, t) = record {
    left_lock = refl;
    right_lock = refl;
    left_refs = refl;
    right_refs = refl;
  }

  -- Whatever the order in which the two threads of a binding in both directions take their turns
  -- and the flag is cleared, the locks that are held are held by the thread that is in a call of
  -- that socket, and the share count of each socket is that of the threads that have not dropped it.
  pub run-IsConsistent :
      (fuel : ℕ) (turns : List Turn) (pair : from.State × to.State) (b : Binding from to)
      → run from to fuel turns (spawned from to pair) ≡ some b
      → IsConsistent b
  run-IsConsistent fuel turns pair b e =
      Each-some IsConsistent
        (run-Each fuel turns (spawned from to pair) (spawned-IsConsistent pair)) e

  -- A schedule that passes over some turns is one of the turns that are taken.
  pub play-run :
      (fuel : ℕ) (turns : List Turn) (b : Binding from to)
      → (taken : List Turn) × (run from to fuel taken b ≡ some (play from to fuel turns b))
  unfolding run play bind
  play-run fuel [] b = ([], refl)
  play-run fuel (whose ∷ turns) b = elim (Option-cases (turn from to fuel whose b)) [
    | inl blocked ↦ rw blocked (play-run fuel turns b)
    | inr (b', takes) ↦ let (taken, e) = play-run fuel turns b' in (whose ∷ taken, rw takes e)
  ]
