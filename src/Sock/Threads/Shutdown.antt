-- ===== src/Sock/Threads/Shutdown.antt =====
-- src/sock/mod.rs: the two threads of a binding once the flag is cleared.
use polysock.Base.{
  ℕ, zero, suc, ◌+◌, ◌≤◌, ◌<◌, ◌≡◌, refl, ap, ap₂, ◌∙◌, ◌⊎◌, inl, inr, false, some, List, [], ◌∷◌,
  Outcome, exit, arith, length, Option-cases,
}
use mathlib.Core.Option.{bind, bind-eq-some_iff, some-injective}
use polysock.Sock.{ComplexSock}
use polysock.Sock.Threads.{
  Turn, first, second, clear, Binding, spawned, after_first, after_second, live_turn, turn, run,
}
use polysock.Sock.Threads.Counts.{keeps_source, keeps_target, Each}
use polysock.Sock.Threads.Steps.{
  steps_left, turns_left, steps_left_le, remaining_le, remaining_comm, turns_left-live, Shorter,
  thread_turn-Shorter,
}
use polysock.Sock.Threads.Safety.{
  IsConsistent, turn-IsConsistent, run-IsConsistent, Each-some, Each-map, Each-unless_over,
}
use polysock.Sock.Threads.Answers.{Answers, IsSound, run-IsSound, run-exits}
use polysock.Sock.Threads.Progress.{progress, BothEnded}

module _ (from to : ComplexSock) where
  -- A turn leaves fewer of them and the flag cleared.
  abbrev Closer : Binding from to → Binding from to → Type 0
  Closer b b' = (b'.running ≡ false) × (turns_left b' < turns_left b)

  turn-Closer :
      (fuel : ℕ) (whose : Turn) (b : Binding from to)
      → b.running ≡ false
      → Each (Closer b) (turn from to fuel whose b)
  unfolding turn live_turn
  turn-Closer fuel first b off = Each-unless_over (Closer b) b.over _ (λ live.
      Each-map (Shorter from to (steps_left b.point2) b.point1) (Closer b) (after_first from to b) _
        (rw off (thread_turn-Shorter from to (steps_left b.point2) fuel b.point1 b.left b.right))
        (λ m lt. (off, omega (arith, lt, turns_left-live b live))))
  turn-Closer fuel second b off = Each-unless_over (Closer b) b.over _ (λ live.
      Each-map (Shorter to from (steps_left b.point1) b.point2) (Closer b) (after_second from to b)
        _ (rw off (thread_turn-Shorter to from (steps_left b.point1) fuel b.point2 b.right b.left))
        (λ m lt. (
          off,
          omega (
            arith,
            lt,
            turns_left-live b live,
            remaining_comm m.over (steps_left m.point) (steps_left b.point1),
          ),
        )))
  turn-Closer fuel clear b off = Each-unless_over (Closer b) b.over _ (λ live. rw off tt)

  run_bounded :
      (fuel : ℕ) (turns : List Turn) (b b' : Binding from to)
      → b.running ≡ false
      → run from to fuel turns b ≡ some b'
      → length turns + turns_left b' ≤ turns_left b
  unfolding run
  run_bounded fuel [] b b' off e = omega (arith, ap turns_left (some-injective b b' e))
  run_bounded fuel (whose ∷ turns) b b' off e =
      let (next, taken, rest) =
        (bind-eq-some_iff (turn from to fuel whose b) (run from to fuel turns)).0 e in
      let (off', fewer) = Each-some (Closer b) (turn-Closer fuel whose b off) taken in
      omega (arith, fewer, run_bounded fuel turns next b' off' rest)

  -- Once the flag is cleared, no schedule of the two threads has more than 16 turns.
  pub run_short :
      (fuel : ℕ) (turns : List Turn) (b b' : Binding from to)
      → b.running ≡ false
      → run from to fuel turns b ≡ some b'
      → length turns ≤ 16
  run_short fuel turns b b' off e = omega (
    arith,
    run_bounded fuel turns b b' off e,
    remaining_le b.over (steps_left b.point1 + steps_left b.point2),
    steps_left_le b.point1,
    steps_left_le b.point2,
  )

  -- Both threads have ended and the last shares of both sockets are dropped, or a thread has ended
  -- the process.
  abbrev pub IsOver : Binding from to → Type 0
  IsOver b =
      ((code : ℕ) × (b.over ≡ some (exit code)))
      ⊎ (BothEnded from to b × (b.left.refs ≡ 0) × (b.right.refs ≡ 0))

  -- The same where a call of a socket may also not come to an end.
  abbrev Stops : Binding from to → Type 0
  Stops b =
      ((o : Outcome (Unit {0})) × (b.over ≡ some o))
      ⊎ (BothEnded from to b × (b.left.refs ≡ 0) × (b.right.refs ≡ 0))

  abbrev Ends : ℕ → Binding from to → Type 0
  Ends fuel b =
      (turns : List Turn) × (b' : Binding from to) × (run from to fuel turns b ≡ some b') × Stops b'

  Ends-turn :
      (fuel : ℕ) (whose : Turn) (b next : Binding from to)
      → turn from to fuel whose b ≡ some next
      → Ends fuel next
      → Ends fuel b
  unfolding run bind
  Ends-turn fuel whose b next taken (turns, b', runs, over) =
      (whose ∷ turns, b', rw taken runs, over)

  ended-Stops : (b : Binding from to) → IsConsistent b → BothEnded from to b → Stops b
  ended-Stops b c (o1, o2, e1, e2) = inr (
    (o1, o2, e1, e2),
    c.left_refs ∙ ap₂ (λ p q. keeps_source p + keeps_target q) e1 e2,
    c.right_refs ∙ ap₂ (λ p q. keeps_target p + keeps_source q) e1 e2,
  )

  Ends-closer :
      (fuel n : ℕ) (whose : Turn) (b next : Binding from to)
      → turns_left b < suc n
      → b.running ≡ false
      → IsConsistent b
      → turn from to fuel whose b ≡ some next
      → (turns_left next < n → next.running ≡ false → IsConsistent next → Ends fuel next)
      → Ends fuel b
  Ends-closer fuel n whose b next small off c taken onward =
      let (off', fewer) = Each-some (Closer b) (turn-Closer fuel whose b off) taken in
      let c' = Each-some IsConsistent (turn-IsConsistent from to fuel whose b c) taken in
      Ends-turn fuel whose b next taken (onward (omega (arith, small, fewer)) off' c')

  ends :
      (fuel n : ℕ) (b : Binding from to)
      → turns_left b < n
      → b.running ≡ false
      → IsConsistent b
      → Ends fuel b
  unfolding run
  ends fuel zero b small off c = absurd (omega (arith, small))
  ends fuel (suc n) b small off c = elim (Option-cases b.over) [
    | inr (o, e) ↦ ([], b, refl, inl (o, e))
    | inl live ↦ elim (progress from to fuel b c live) [
      | inl (next, taken) ↦ Ends-closer fuel n first b next small off c taken (ends fuel n next)
      | inr (inl (next, taken)) ↦
          Ends-closer fuel n second b next small off c taken (ends fuel n next)
      | inr (inr both) ↦ ([], b, refl, ended-Stops b c both)
    ]
  ]

  -- A binding of sockets that answer every call, in the states that they lead to.
  module _ (fuel : ℕ) (P : from.State → Type 0) (Q : to.State → Type 0)
      (answers : Answers from fuel P) (answers' : Answers to fuel Q) where
    Stops-IsOver :
        (turns : List Turn) (b b' : Binding from to)
        → IsSound from to fuel P Q answers answers' b
        → run from to fuel turns b ≡ some b'
        → Stops b'
        → IsOver b'
    Stops-IsOver turns b b' sound runs (inl (o, over)) =
        inl (run-exits from to fuel P Q answers answers' turns b b' sound runs over)
    Stops-IsOver turns b b' sound runs (inr both) = inr both

    -- If every read, write and drop of the two sockets of a binding in both directions comes to an
    -- end, in the states that they lead to, then from any moment at which the flag is cleared some
    -- turns of the two threads bring both to their end, with the last share of each socket dropped,
    -- unless one of them ends the process; and they are no more than 16 turns.
    pub run-ends :
        (before : List Turn) (pair : from.State × to.State) (b : Binding from to)
        → P pair.0
        → Q pair.1
        → run from to fuel before (spawned from to pair) ≡ some b
        → b.running ≡ false
        → (turns : List Turn) × (b' : Binding from to) × (run from to fuel turns b ≡ some b')
          × IsOver b'
          × (length turns ≤ 16)
    run-ends before pair b p q e off =
        let c = run-IsConsistent from to fuel before pair b e in
        let sound = run-IsSound from to fuel P Q answers answers' before pair b p q e in
        let (turns, b', runs, stops) = ends fuel (turns_left b + 1) b (omega arith) off c in
        (
          turns,
          b',
          runs,
          Stops-IsOver turns b b' sound runs stops,
          run_short fuel turns b b' off runs,
        )
