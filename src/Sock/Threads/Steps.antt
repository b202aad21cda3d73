-- ===== src/Sock/Threads/Steps.antt =====
-- src/sock/mod.rs: how many turns a thread of a binding has left once the flag is cleared.
use polysock.Base.{
  after_drop, ℕ, ◌+◌, ◌≤◌, ◌<◌, ◌≡◌, refl, ap, Bool, true, false, Option, none, some, List, Outcome,
  ok, err, panic, undefined, exit, no_fuel, arith, Event,
}
use polysock.Sock.{ComplexSock}
use polysock.Sock.Threads.{
  Point, loading, locking_source, reading, sleeping, locking_target, writing, dropping_source,
  dropping_target, ended, Shared, Moved, stopped, drop_arc, acquire, after_read, after_write,
  thread_turn, Binding,
}
use polysock.Sock.Threads.Counts.{Each}

-- How many turns a thread can take when the flag is cleared.
abbrev pub steps_left : Point → ℕ
steps_left locking_source = 8
steps_left reading = 7
steps_left (locking_target buf) = 6
steps_left (writing buf) = 5
steps_left sleeping = 4
steps_left loading = 3
steps_left (dropping_source o) = 2
steps_left (dropping_target o) = 1
steps_left (ended o) = 0

abbrev pub remaining : Option (Outcome (Unit {0})) → ℕ → ℕ
remaining none n = n
remaining (some o) n = 0

abbrev pub turns_left : {from to : ComplexSock} → Binding from to → ℕ
turns_left b = remaining b.over (steps_left b.point1 + steps_left b.point2)

pub steps_left_le : (p : Point) → steps_left p ≤ 8
steps_left_le locking_source = omega arith
steps_left_le reading = omega arith
steps_left_le (locking_target buf) = omega arith
steps_left_le (writing buf) = omega arith
steps_left_le sleeping = omega arith
steps_left_le loading = omega arith
steps_left_le (dropping_source o) = omega arith
steps_left_le (dropping_target o) = omega arith
steps_left_le (ended o) = omega arith

pub remaining_le : (o : Option (Outcome (Unit {0}))) (n : ℕ) → remaining o n ≤ n
remaining_le none n = omega arith
remaining_le (some o) n = omega arith

pub remaining_comm :
    (o : Option (Outcome (Unit {0}))) (m n : ℕ) → remaining o (m + n) ≡ remaining o (n + m)
remaining_comm none m n = omega arith
remaining_comm (some o) m n = refl

pub turns_left-live :
    {from to : ComplexSock} (b : Binding from to)
    → b.over ≡ none
    → turns_left b ≡ steps_left b.point1 + steps_left b.point2
turns_left-live b live = ap (λ o. remaining o (steps_left b.point1 + steps_left b.point2)) live

module _ (source target : ComplexSock) (k : ℕ) where
  -- A turn leaves fewer turns to its thread, beside the `k` of the other one.
  abbrev pub Shorter : Point → Moved source.State target.State → Type 0
  Shorter p m = remaining m.over (steps_left m.point + k) < steps_left p + k

  after_read-Shorter :
      (o : Outcome (List ℕ)) (s' : source.State) (log : List Event) (s : Shared source.State)
      (t : Shared target.State)
      → Shorter reading (after_read source target o s' log s t)
  after_read-Shorter (ok buf) s' log s t = omega arith
  after_read-Shorter (err x) s' log s t = omega arith
  after_read-Shorter panic s' log s t = omega arith
  after_read-Shorter undefined s' log s t = omega arith
  after_read-Shorter (exit n) s' log s t = omega arith
  after_read-Shorter no_fuel s' log s t = omega arith

  after_write-Shorter :
      (buf : List ℕ) (o : Outcome (Unit {0})) (t' : target.State) (log : List Event)
      (s : Shared source.State) (t : Shared target.State)
      → Shorter (writing buf) (after_write source target buf o t' log s t)
  after_write-Shorter buf (ok done) t' log s t = omega arith
  after_write-Shorter buf (err x) t' log s t = omega arith
  after_write-Shorter buf panic t' log s t = omega arith
  after_write-Shorter buf undefined t' log s t = omega arith
  after_write-Shorter buf (exit n) t' log s t = omega arith
  after_write-Shorter buf no_fuel t' log s t = omega arith

  acquire-Shorter :
      (p : Point) (locked poisoned : Bool) (taken failed : Moved source.State target.State)
      → Shorter p taken
      → Shorter p failed
      → Each (Shorter p) (acquire source target locked poisoned taken failed)
  acquire-Shorter p true poisoned taken failed f g = tt
  acquire-Shorter p false true taken failed f g = g
  acquire-Shorter p false false taken failed f g = f

  pub thread_turn-Shorter :
      (fuel : ℕ) (p : Point) (s : Shared source.State) (t : Shared target.State)
      → Each (Shorter p) (thread_turn source target fuel false p s t)
  unfolding thread_turn
  thread_turn-Shorter fuel loading s t = omega arith
  thread_turn-Shorter fuel locking_source s t =
      acquire-Shorter locking_source s.locked s.poisoned _ _ (omega arith) (omega arith)
  thread_turn-Shorter fuel reading s t = after_read-Shorter _ _ _ s t
  thread_turn-Shorter fuel (locking_target buf) s t =
      acquire-Shorter (locking_target buf) t.locked t.poisoned _ _ (omega arith) (omega arith)
  thread_turn-Shorter fuel (writing buf) s t = after_write-Shorter buf _ _ _ s t
  thread_turn-Shorter fuel sleeping s t = omega arith
  thread_turn-Shorter fuel (dropping_source o) s t =
      let o' = after_drop o (drop_arc source s).out in
      omega (arith, remaining_le (stopped o') (1 + k))
  thread_turn-Shorter fuel (dropping_target o) s t =
      let o' = after_drop o (drop_arc target t).out in
      omega (arith, remaining_le (stopped o') (0 + k))
  thread_turn-Shorter fuel (ended o) s t = tt
