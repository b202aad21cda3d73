-- ===== src/Sock/Threads/Played.antt =====
-- src/sock/mod.rs: schedules of the two threads of a binding, over sockets whose operations differ
-- only in what they show.
use polysock.Base.{
  ℕ, ◌≡◌, refl, ap, sym, ◌∙◌, Bool, true, false, Option, none, some, List, [], ◌∷◌, Outcome, M,
}
use mathlib.Core.Option.{map, get_or}
use polysock.Sock.{ComplexSock}
use polysock.Sock.Threads.{
  Point, Shared, Moved, thread_turn, Turn, first, second, clear, Binding, cleared, unless_over,
  after_first, after_second, live_turn, turn, play, spawned, thread_end,
}
use polysock.Sock.Threads.Alike.{IsAlike, quiet, f', t', thread_turn-quiet}

-- A binding without what it has shown, which does not depend on the operations of its sockets.
record Core (A B : Type 0) : Type 0 where
  left : Shared A
  right : Shared B
  running : Bool
  point1 : Point
  point2 : Point
  over : Option (Outcome (Unit {0}))

abbrev core_first : {A B : Type 0} → Core A B → Moved A B → Core A B
core_first c m = record c { left = m.source; right = m.target; point1 = m.point; over = m.over }

abbrev core_second : {A B : Type 0} → Core A B → Moved B A → Core A B
core_second c m = record c { right = m.source; left = m.target; point2 = m.point; over = m.over }

map-unless_over :
    {A B : Type 0} (g : A → B) (o : Option (Outcome (Unit {0}))) (x : Option A)
    → map g (unless_over o x) ≡ unless_over o (map g x)
map-unless_over g none x = refl
map-unless_over g (some y) x = refl

map-cleared : {A B : Type 0} (g : A → B) (b : Bool) (a : A) → map g (cleared b a) ≡ cleared b (g a)
map-cleared g true a = refl
map-cleared g false a = refl

map-get_or :
    {A B : Type 0} (g : A → B) (o : Option A) (a : A) → g (get_or o a) ≡ get_or (map g o) (g a)
map-get_or g none a = refl
map-get_or g (some x) a = refl

module _ (K L : ComplexSock) where
  abbrev core : Binding K L → Core K.State L.State
  core b = record {
    left = b.left;
    right = b.right;
    running = b.running;
    point1 = b.point1;
    point2 = b.point2;
    over = b.over;
  }

  -- A turn, as far as the core of the binding goes.
  abbrev core_live : ℕ → Turn → Core K.State L.State → Option (Core K.State L.State)
  core_live fuel first c =
      map (core_first c) (map quiet (thread_turn K L fuel c.running c.point1 c.left c.right))
  core_live fuel second c =
      map (core_second c) (map quiet (thread_turn L K fuel c.running c.point2 c.right c.left))
  core_live fuel clear c = cleared c.running (record c { running = false })

  first-core :
      (b : Binding K L) (o : Option (Moved K.State L.State))
      → map core (map (after_first K L b) o) ≡ map (core_first (core b)) (map quiet o)
  first-core b none = refl
  first-core b (some m) = refl

  second-core :
      (b : Binding K L) (o : Option (Moved L.State K.State))
      → map core (map (after_second K L b) o) ≡ map (core_second (core b)) (map quiet o)
  second-core b none = refl
  second-core b (some m) = refl

  live_turn-core :
      (fuel : ℕ) (whose : Turn) (b : Binding K L)
      → map core (live_turn K L fuel whose b) ≡ core_live fuel whose (core b)
  unfolding live_turn
  live_turn-core fuel first b =
      first-core b (thread_turn K L fuel b.running b.point1 b.left b.right)
  live_turn-core fuel second b =
      second-core b (thread_turn L K fuel b.running b.point2 b.right b.left)
  live_turn-core fuel clear b = map-cleared core b.running (record b { running = false })

  turn-core :
      (fuel : ℕ) (whose : Turn) (b : Binding K L)
      → map core (turn K L fuel whose b) ≡ unless_over b.over (core_live fuel whose (core b))
  unfolding turn
  turn-core fuel whose b =
      map-unless_over core b.over (live_turn K L fuel whose b)
      ∙ ap (unless_over b.over) (live_turn-core fuel whose b)

module _ (f : ComplexSock) (of cf : M f.State (Unit {0})) (rf : List ℕ → ℕ → M f.State (ℕ × List ℕ))
    (wf : List ℕ → ℕ → M f.State (Unit {0})) (alike_f : IsAlike f of cf rf wf) (t : ComplexSock)
    (ot ct : M t.State (Unit {0})) (rt : List ℕ → ℕ → M t.State (ℕ × List ℕ))
    (wt : List ℕ → ℕ → M t.State (Unit {0})) (alike_t : IsAlike t ot ct rt wt) where
  abbrev F : ComplexSock
  F = f' f of cf rf wf alike_f t ot ct rt wt alike_t

  abbrev T : ComplexSock
  T = t' f of cf rf wf alike_f t ot ct rt wt alike_t

  core_live-alike :
      (fuel : ℕ) (whose : Turn) (c : Core f.State t.State)
      → core_live F T fuel whose c ≡ core_live f t fuel whose c
  core_live-alike fuel first c = ap (map (core_first c)) (
      thread_turn-quiet f of cf rf wf alike_f t ot ct rt wt alike_t fuel c.running c.point1 c.left
        c.right)
  core_live-alike fuel second c = ap (map (core_second c)) (
      thread_turn-quiet t ot ct rt wt alike_t f of cf rf wf alike_f fuel c.running c.point2 c.right
        c.left)
  core_live-alike fuel clear c = refl

  play-alike :
      (fuel : ℕ) (turns : List Turn) (b' : Binding F T) (b : Binding f t)
      → core F T b' ≡ core f t b
      → core F T (play F T fuel turns b') ≡ core f t (play f t fuel turns b)
  unfolding play
  play-alike fuel [] b' b e = e
  play-alike fuel (whose ∷ turns) b' b e =
      play-alike fuel turns (get_or (turn F T fuel whose b') b') (get_or (turn f t fuel whose b) b)
        (map-get_or (core F T) (turn F T fuel whose b') b'
          ∙ ap (λ o. get_or o (core F T b')) same
          ∙ ap (get_or (map (core f t) (turn f t fuel whose b))) e
          ∙ sym (map-get_or (core f t) (turn f t fuel whose b) b))
    where
      same : map (core F T) (turn F T fuel whose b') ≡ map (core f t) (turn f t fuel whose b)
      same =
          turn-core F T fuel whose b'
          ∙ ap (λ c. unless_over c.over (core_live F T fuel whose c)) e
          ∙ ap (unless_over b.over) (core_live-alike fuel whose (core f t b))
          ∙ sym (turn-core f t fuel whose b)

  -- Under the same schedule the threads come to the same ends.
  pub ends-alike :
      (fuel : ℕ) (turns : List Turn) (pair : f.State × t.State)
      → let b' = play F T fuel turns (spawned F T pair) in
        let b = play f t fuel turns (spawned f t pair) in
        (thread_end b'.over b'.point1 ≡ thread_end b.over b.point1)
        × (thread_end b'.over b'.point2 ≡ thread_end b.over b.point2)
  ends-alike fuel turns pair =
      let e = play-alike fuel turns (spawned F T pair) (spawned f t pair) refl in
      (ap (λ c. thread_end c.over c.point1) e, ap (λ c. thread_end c.over c.point2) e)
