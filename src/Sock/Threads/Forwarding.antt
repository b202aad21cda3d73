-- ===== src/Sock/Threads/Forwarding.antt =====
-- src/sock/mod.rs: the messages that each thread of a binding has read and has handed on.
use polysock.Base.{
  inl, inr, Option-cases, ℕ, ◌≤◌, ◌≡◌, refl, Option, none, some, List, [], ◌∷◌, ◌++◌, append-nil,
  length,
}
use mathlib.Core.Path.{subst}
use mathlib.Core.Option.{bind-eq-some_iff, some-injective}
use polysock.Sock.{ComplexSock}
use polysock.Sock.Threads.{
  Point, loading, Moved, Turn, first, second, clear, Binding, spawned, after_first, after_second,
  live_turn, turn, run,
}
use polysock.Sock.Threads.Counts.{Each}
use polysock.Sock.Threads.Messages.{
  Messages, now_received, sent, Carries, length-Carries, over-Carries, Each-any, account, Accounts,
  thread_turn-Kept, Hands, thread_turn-Hands,
}
use polysock.Sock.Threads.Safety.{Each-some, Each-map, Each-unless_over, Each-cleared}

abbrev if_taken : {A B : Type 0} → Option A → (A → List B) → List B
if_taken none f = []
if_taken (some a) f = f a

module _ (from to : ComplexSock) where
  -- Where a thread is in a binding, and the messages of a turn as far as it is that of the thread.
  abbrev point_of : Turn → Binding from to → Point
  point_of first b = b.point1
  point_of second b = b.point2
  point_of clear b = loading

  abbrev turn_received : ℕ → Turn → Turn → Binding from to → Messages
  turn_received fuel first first b = now_received from fuel b.point1 b.left
  turn_received fuel second second b = now_received to fuel b.point2 b.right
  turn_received fuel who whose b = []

  abbrev turn_sent : Turn → Turn → Binding from to → Messages
  turn_sent first first b = sent b.point1
  turn_sent second second b = sent b.point2
  turn_sent who whose b = []

  -- The messages that a thread reads in the course of a schedule, and those it hands on.
  unfoldable pub received_by : ℕ → Turn → List Turn → Binding from to → Messages
  received_by fuel who [] b = []
  received_by fuel who (whose ∷ turns) b =
      if_taken (turn from to fuel whose b)
        (λ b'. turn_received fuel who whose b ++ received_by fuel who turns b')

  unfoldable pub sent_by : ℕ → Turn → List Turn → Binding from to → Messages
  sent_by fuel who [] b = []
  sent_by fuel who (whose ∷ turns) b =
      if_taken (turn from to fuel whose b)
        (λ b'. turn_sent who whose b ++ sent_by fuel who turns b')

  abbrev Keeps : ℕ → Turn → Turn → Binding from to → Messages → Binding from to → Type 0
  Keeps fuel who whose b msgs b' =
      Accounts (msgs ++ turn_received fuel who whose b) (turn_sent who whose b) b'.over
        (point_of who b')

  -- What a turn of the thread, and of another one, leaves of the account.
  turn-Kept :
      (fuel : ℕ) (who whose : Turn) (b : Binding from to) (msgs : Messages)
      → Carries b.over (point_of who b) msgs
      → Each (Keeps fuel who whose b msgs) (turn from to fuel whose b)
  unfolding turn live_turn
  turn-Kept fuel first first b msgs c =
      Each-unless_over (Keeps fuel first first b msgs) b.over _ (λ live.
        Each-map _ (Keeps fuel first first b msgs) (after_first from to b) _
          (thread_turn-Kept from to fuel b.running b.point1 b.left b.right msgs (rw live at c))
          (λ m kept. kept))
  turn-Kept fuel first second b msgs c =
      Each-unless_over (Keeps fuel first second b msgs) b.over _ (λ live.
        Each-map _ (Keeps fuel first second b msgs) (after_second from to b) _ (Each-any _)
          (λ m any. (msgs, over-Carries m.over b.point1 msgs (rw live at c), append-nil msgs)))
  turn-Kept fuel first clear b msgs c =
      Each-unless_over (Keeps fuel first clear b msgs) b.over _ (λ live.
        Each-cleared (Keeps fuel first clear b msgs) b.running _ (msgs, c, append-nil msgs))
  turn-Kept fuel second first b msgs c =
      Each-unless_over (Keeps fuel second first b msgs) b.over _ (λ live.
        Each-map _ (Keeps fuel second first b msgs) (after_first from to b) _ (Each-any _)
          (λ m any. (msgs, over-Carries m.over b.point2 msgs (rw live at c), append-nil msgs)))
  turn-Kept fuel second second b msgs c =
      Each-unless_over (Keeps fuel second second b msgs) b.over _ (λ live.
        Each-map _ (Keeps fuel second second b msgs) (after_second from to b) _
          (thread_turn-Kept to from fuel b.running b.point2 b.right b.left msgs (rw live at c))
          (λ m kept. kept))
  turn-Kept fuel second clear b msgs c =
      Each-unless_over (Keeps fuel second clear b msgs) b.over _ (λ live.
        Each-cleared (Keeps fuel second clear b msgs) b.running _ (msgs, c, append-nil msgs))
  turn-Kept fuel clear first b msgs c =
      Each-unless_over (Keeps fuel clear first b msgs) b.over _ (λ live.
        Each-map _ (Keeps fuel clear first b msgs) (after_first from to b) _ (Each-any _)
          (λ m any. (msgs, over-Carries m.over loading msgs (rw live at c), append-nil msgs)))
  turn-Kept fuel clear second b msgs c =
      Each-unless_over (Keeps fuel clear second b msgs) b.over _ (λ live.
        Each-map _ (Keeps fuel clear second b msgs) (after_second from to b) _ (Each-any _)
          (λ m any. (msgs, over-Carries m.over loading msgs (rw live at c), append-nil msgs)))
  turn-Kept fuel clear clear b msgs c =
      Each-unless_over (Keeps fuel clear clear b msgs) b.over _ (λ live.
        Each-cleared (Keeps fuel clear clear b msgs) b.running _ (msgs, c, append-nil msgs))

  run-Kept :
      (fuel : ℕ) (who : Turn) (turns : List Turn) (b b' : Binding from to) (msgs : Messages)
      → Carries b.over (point_of who b) msgs
      → run from to fuel turns b ≡ some b'
      → Accounts
          (msgs ++ received_by fuel who turns b)
          (sent_by fuel who turns b)
          b'.over
          (point_of who b')
  unfolding run received_by sent_by
  run-Kept fuel who [] b b' msgs c e = (
    msgs,
    subst (λ b. Carries b.over (point_of who b) msgs) (some-injective b b' e) c,
    append-nil msgs,
  )
  run-Kept fuel who (whose ∷ turns) b b' msgs c e =
      let (next, taken, rest) =
        (bind-eq-some_iff (turn from to fuel whose b) (run from to fuel turns)).0 e in
      let (msgs', c', kept) =
        Each-some (Keeps fuel who whose b msgs) (turn-Kept fuel who whose b msgs c) taken in
      let (msgs'', c'', later) = run-Kept fuel who turns next b' msgs' c' rest in
      (
        msgs'',
        c'',
        rw taken (
            account msgs (turn_received fuel who whose b) (received_by fuel who turns next) msgs'
              (turn_sent who whose b) (sent_by fuel who turns next) msgs'' kept later),
      )

  -- A turn of a thread that hands on a message is the call of `generic_write` with that message.
  abbrev Handed : Turn → Turn → Binding from to → Binding from to → Type 0
  Handed first first b b' =
      (m : Moved from.State to.State) × (b' ≡ after_first from to b m)
      × Hands from to b.point1 b.right m
  Handed second second b b' =
      (m : Moved to.State from.State) × (b' ≡ after_second from to b m)
      × Hands to from b.point2 b.left m
  Handed who whose b b' = Unit {0}

  abbrev AndThen : {A : Type 0} → Option A → (A → Type 0) → Type 0
  AndThen none P = Unit {0}
  AndThen (some a) P = P a

  -- In a schedule every message that a thread hands on goes to `generic_write`.
  unfoldable pub HandsOn : ℕ → Turn → List Turn → Binding from to → Type 0
  HandsOn fuel who [] b = Unit {0}
  HandsOn fuel who (whose ∷ turns) b =
      AndThen (turn from to fuel whose b) (λ b'. Handed who whose b b' × HandsOn fuel who turns b')

  turn-Handed :
      (fuel : ℕ) (who whose : Turn) (b : Binding from to)
      → Each (Handed who whose b) (turn from to fuel whose b)
  unfolding turn live_turn
  turn-Handed fuel first first b = Each-unless_over (Handed first first b) b.over _ (λ live.
      Each-map _ (Handed first first b) (after_first from to b) _
        (thread_turn-Hands from to fuel b.running b.point1 b.left b.right)
        (λ m hands. (m, refl, hands)))
  turn-Handed fuel second second b = Each-unless_over (Handed second second b) b.over _ (λ live.
      Each-map _ (Handed second second b) (after_second from to b) _
        (thread_turn-Hands to from fuel b.running b.point2 b.right b.left)
        (λ m hands. (m, refl, hands)))
  turn-Handed fuel first second b = Each-any _
  turn-Handed fuel first clear b = Each-any _
  turn-Handed fuel second first b = Each-any _
  turn-Handed fuel second clear b = Each-any _
  turn-Handed fuel clear first b = Each-any _
  turn-Handed fuel clear second b = Each-any _
  turn-Handed fuel clear clear b = Each-any _

  run-HandsOn :
      (fuel : ℕ) (who : Turn) (turns : List Turn) (b : Binding from to) → HandsOn fuel who turns b
  unfolding HandsOn
  run-HandsOn fuel who [] b = tt
  run-HandsOn fuel who (whose ∷ turns) b = elim (Option-cases (turn from to fuel whose b)) [
    | inl blocked ↦ rw blocked tt
    | inr (b', taken) ↦ rw taken (
      Each-some (Handed who whose b) (turn-Handed fuel who whose b) taken,
      run-HandsOn fuel who turns b',
    )
  ]

  -- Whatever the order of the turns, the messages that a thread of a binding has read are those it
  -- has handed on, in the same order and each once, and then at most one more. To hand on a message
  -- is the call of `generic_write` of the other socket with the whole message, and nothing else is
  -- done to that socket, or seen, in the turn of the call.
  pub run-forwards :
      (fuel : ℕ) (who : Turn) (turns : List Turn) (pair : from.State × to.State)
      (b : Binding from to)
      → run from to fuel turns (spawned from to pair) ≡ some b
      → ((held_back : Messages) × (received_by fuel who turns (spawned from to pair)
            ≡ sent_by fuel who turns (spawned from to pair) ++ held_back)
          × (length held_back ≤ 1))
        × HandsOn fuel who turns (spawned from to pair)
  run-forwards fuel who turns pair b e =
      let (msgs, c, kept) = run-Kept fuel who turns (spawned from to pair) b [] (at_start who) e in
      (
        (msgs, kept, length-Carries b.over (point_of who b) msgs c),
        run-HandsOn fuel who turns (spawned from to pair),
      )
    where
      at_start : (who : Turn) → Carries none (point_of who (spawned from to pair)) []
      at_start first = refl
      at_start second = refl
      at_start clear = refl
