-- ===== src/TestGen/Pump.antt =====
-- The thread of src/sock/mod.rs that copies from a generator of src/sockets/testgen.rs to another
-- socket: what reaches the other socket, and where the limit of iterations ends the process.
use polysock.Base.{ℕ, zero, suc, ◌+◌, ◌/◌, ◌%◌, ◌^◌, ◌≤◌, ◌<◌, ◌≡◌, refl, ap, ◌∙◌}
use polysock.Base.{Option, none, some, Bool, true, false, List, [], ◌∷◌, ◌++◌, append-nil, arith}
use polysock.Base.{Event, exit, returns, prepend, sleep_micros, replicate}
use native.Mathlib.Nat.{mod-eq_of_lt, add-zero}
use polysock.Sock.{ComplexSock}
use polysock.Sock.Wrapper.{u8, read_all}
use polysock.Sock.Manager.{transfer, binding_thread}
use polysock.Sock.Manager.Copies.{Accepts, none_left, accept, transfer_lem, thread_step}
use polysock.TestGen.{TestGenTypes}
use polysock.TestGen.Gen.{SimpleTestGen, test_gen}
use polysock.TestGen.Pattern.{iteration}
use polysock.TestGen.Valid.{IsValid, Allows, bumped, restarted}
use polysock.TestGen.Delivery.{read_all-iteration, read_all-exit}

-- The limit allows `n` more iterations.
abbrev pub AllowsMore : Option ℕ → ℕ → ℕ → Type 0
AllowsMore none curr_iter n = Unit {0}
AllowsMore (some max_iter) curr_iter n = (curr_iter + n ≤ max_iter) × (max_iter < 2 ^ 64)

Allows-one : (m : Option ℕ) (c n : ℕ) → AllowsMore m c (suc n) → Allows m c
Allows-one none c n h = tt
Allows-one (some m) c n h = omega (arith, h.0, h.1)

-- The counter after `n` more iterations.
abbrev pub counted_to : Option ℕ → ℕ → ℕ → ℕ
counted_to m c zero = c
counted_to m c (suc n) = counted_to m (bumped m c) n

AllowsMore-bumped : (m : Option ℕ) (c n : ℕ) → AllowsMore m c (suc n) → AllowsMore m (bumped m c) n
AllowsMore-bumped none c n h = tt
AllowsMore-bumped (some m) c n h = (omega (arith, h.0, h.1), h.1)

-- The bytes of `n` iterations from iteration `k` on.
abbrev pub iterations : TestGenTypes → List ℕ → ℕ → ℕ → List (List ℕ)
iterations cfg content k zero = []
iterations cfg content k (suc n) = iteration cfg content k ∷ iterations cfg content (k + 1) n

module _ (to : ComplexSock) where
  -- What the thread has done after `n` rounds.
  record Rounds (content : List ℕ) (k n fuel : ℕ) (g : SimpleTestGen) (t end : to.State)
      : Type 0 where
    g' : SimpleTestGen
    log : List Event
    runs :
        (loads : List Bool)
        → binding_thread test_gen to fuel (replicate n true ++ loads) (g, t)
          ≡ prepend log (binding_thread test_gen to fuel loads (g', end))
    valid : IsValid content (k + n) g'
    start : g'.p.pos ≡ 0
    size : g'.p.pattern_size ≡ g.p.pattern_size
    limit : g'.p.max_iter ≡ g.p.max_iter
    counted : g'.p.curr_iter ≡ counted_to g.p.max_iter g.p.curr_iter n

  rounds :
      (n k fuel : ℕ) (content : List ℕ) (g : SimpleTestGen) {t end : to.State}
      → IsValid content k g
      → g.p.pos ≡ 0
      → AllowsMore g.p.max_iter g.p.curr_iter n
      → g.p.pattern_size < 2 ^ 64
      → g.p.pattern_size / 1024 + 1 ≤ fuel
      → Accepts to end t (iterations g.pat_cfg content k n)
      → Rounds content k n fuel g t end
  rounds zero k fuel content g {t} v start more small enough none_left = record {
    g' = g;
    log = [];
    runs = λ loads. refl;
    valid = rw (add-zero k) v;
    start = start;
    size = refl;
    limit = refl;
    counted = refl;
  }
  rounds (suc n) k fuel content g {end} v start more small enough
        (accept {t} {t'} {l} writes rest) =
      let (q, reads, valid) =
        read_all-iteration content k fuel g v start (Allows-one g.p.max_iter g.p.curr_iter n more)
          (omega (arith, v.sized, enough)) in
      let first = (sleep_micros g.config.cycle ∷ []) ++ (l ++ (sleep_micros 1 ∷ [])) in
      let round = transfer_lem test_gen to fuel g (omega (arith, v.sized, small)) reads writes in
      let r =
        rounds n (k + 1) fuel content (restarted g q) valid refl
          (AllowsMore-bumped g.p.max_iter g.p.curr_iter n more) small enough rest in
      let e : k + 1 + n ≡ k + suc n = omega arith in
      record {
        g' = r.g';
        log = first ++ r.log;
        runs = λ loads.
            thread_step test_gen to fuel (replicate n true ++ loads) (g, t) (restarted g q, t')
              first r.log (binding_thread test_gen to fuel loads (r.g', end)) round (r.runs loads);
        valid = rw e at r.valid;
        start = r.start;
        size = r.size;
        limit = r.limit;
        counted = r.counted;
      }

-- The thread copies the iterations to a socket that accepts them, one message each and in their
-- order: from a valid generator at the start of iteration `k`, whose pattern fits into memory, as
-- long as the flag is set and the limit allows it, and with fuel for each chunk of an iteration,
-- `n` rounds write exactly the bytes of the `n` iterations from `k` on. When the flag is cleared
-- then the thread ends without an error, and the generator is valid in iteration `k + n`.
pub binding_thread-iterations :
    (to : ComplexSock) (n k fuel : ℕ) (content : List ℕ) (g : SimpleTestGen) (t end : to.State)
    → IsValid content k g
    → g.p.pos ≡ 0
    → AllowsMore g.p.max_iter g.p.curr_iter n
    → g.p.pattern_size < 2 ^ 64
    → g.p.pattern_size / 1024 + 1 ≤ fuel
    → Accepts to end t (iterations g.pat_cfg content k n)
    → (g' : SimpleTestGen) × (log : List Event) × (binding_thread test_gen to fuel
          (replicate n true ++ (false ∷ []))
          (g, t)
        ≡ returns tt (g', end) log)
      × IsValid content (k + n) g'
unfolding binding_thread
binding_thread-iterations to n k fuel content g t end v start more small enough accepts =
    let r = rounds to n k fuel content g v start more small enough accepts in
    (r.g', r.log, r.runs (false ∷ []) ∙ ap (returns tt (r.g', end)) (append-nil r.log), r.valid)

AllowsMore-some :
    (m : Option ℕ) (limit c n : ℕ)
    → m ≡ some limit
    → c + n ≤ limit
    → limit < 2 ^ 64
    → AllowsMore m c n
AllowsMore-some m limit c n e le small = rw e (le, small)

counted_to-some :
    (n limit c : ℕ) → c + n ≤ limit → limit < 2 ^ 64 → counted_to (some limit) c n ≡ c + n
counted_to-some zero limit c le small = omega arith
counted_to-some (suc n) limit c le small =
    let e : (c + 1) % 2 ^ 64 ≡ c + 1 = mod-eq_of_lt (omega arith) in
    rw e (counted_to-some n limit (c + 1) (omega arith) small ∙ omega arith)

transfer-exit :
    (to : ComplexSock) (fuel : ℕ) (g : SimpleTestGen) (t : to.State)
    → (read_all test_gen u8 fuel g).out ≡ exit 0
    → ((transfer test_gen to fuel (g, t)).out ≡ exit 0)
      × ((transfer test_gen to fuel (g, t)).state.1 ≡ t)
unfolding transfer
transfer-exit to fuel g t e = (rw e, rw e)

thread-exit :
    (to : ComplexSock) (fuel : ℕ) (g : SimpleTestGen) (t : to.State) (loads : List Bool)
    → (read_all test_gen u8 fuel g).out ≡ exit 0
    → let r = binding_thread test_gen to fuel (true ∷ loads) (g, t) in
      (r.out ≡ exit 0) × (r.state.1 ≡ t)
unfolding binding_thread
thread-exit to fuel g t loads e = let x = transfer-exit to fuel g t e in (rw x.0, rw x.0 x.1)

-- The thread ends the process with status 0 when the limit of iterations is reached, whatever the
-- flag says afterwards: from a valid generator at the start of an iteration, with `n` iterations
-- left, a pattern that fits into memory, and fuel for each chunk of an iteration. By then the other
-- socket, if it accepts them, has been given exactly the `n` iterations, and nothing of the one
-- that is cut off.
pub binding_thread-limit :
    (to : ComplexSock) (n k fuel limit : ℕ) (content : List ℕ) (g : SimpleTestGen)
    (t end : to.State) (loads : List Bool)
    → IsValid content k g
    → g.p.pos ≡ 0
    → g.p.max_iter ≡ some limit
    → g.p.curr_iter + n ≡ limit
    → limit + 1 < 2 ^ 64
    → g.p.pattern_size < 2 ^ 64
    → g.p.pattern_size / 1024 + 1 ≤ fuel
    → Accepts to end t (iterations g.pat_cfg content k n)
    → let r = binding_thread test_gen to fuel (replicate n true ++ (true ∷ loads)) (g, t) in
      (r.out ≡ exit 0) × (r.state.1 ≡ end)
unfolding binding_thread
binding_thread-limit to n k fuel limit content g t end loads v start e reached small fits enough
      accepts =
    let r =
      rounds to n k fuel content g v start
        (AllowsMore-some g.p.max_iter limit g.p.curr_iter n e (omega arith) (omega arith)) fits
        enough accepts in
    let at_limit : r.g'.p.curr_iter ≡ limit =
      r.counted
      ∙ ap (λ m. counted_to m g.p.curr_iter n) e
      ∙ counted_to-some n limit g.p.curr_iter (omega arith) (omega arith)
      ∙ reached in
    let x = thread-exit to fuel r.g' end loads (
      read_all-exit content (k + n) fuel limit r.g' r.valid (omega (arith, r.size, enough))
        (r.limit ∙ e) (omega (arith, at_limit))) in
    let runs = r.runs (true ∷ loads) in (ap (λ z. z.out) runs ∙ x.0, ap (λ z. z.state.1) runs ∙ x.1)
