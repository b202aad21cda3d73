-- ===== src/TestGen/Delivery.antt =====
-- `read_all` of src/sock/mod.rs over the generator of src/sockets/testgen.rs.
use polysock.Base.{ℕ, zero, suc, ◌+◌, ◌-◌, ◌*◌, ◌/◌, ◌^◌, ◌≤◌, ◌<◌, ◌≡◌, refl, sym, ap, ap₂, ◌∙◌}
use polysock.Base.{Option, List, [], ◌∷◌, ◌++◌, arith, pos→ne_zero, Event, sleep_micros}
use polysock.Base.{
  length, take, drop, write_at, length-take, length-drop, append-nil, take-append-drop, drop-drop,
}
use polysock.Base.{returns}
use native.Mathlib.Decide.{dec_lt}
use polysock.Sock.Wrapper.{u8, generic_read, read_all_loop, read_all}
use polysock.Sock.Wrapper.Delivers.{Delivers, last, more, read_all_loop-Delivers, generic_read-u8}
use polysock.Sock.Wrapper.Transfer.{generic_read-exit}
use polysock.Base.{some, exit, le→ltb}
use polysock.TestGen.{Private}
use polysock.TestGen.Gen.{SimpleTestGen, test_gen, read}
use polysock.TestGen.Pattern.{iteration}
use polysock.TestGen.Read.{read_inside_any, read_last_any}
use polysock.TestGen.Limit.{read_limit}
use polysock.TestGen.Valid.{IsValid, remaining, starts, Allows, bumped, restarted, moved}

-- What a generator delivers to a reader by chunks of `c`: the rest of its iteration.
record Rest (content : List ℕ) (k c m : ℕ) (g : SimpleTestGen) : Type 0 where
  pub q : Option Private
  pub rounds : ℕ
  pub few : rounds ≤ suc m
  pub delivers : Delivers test_gen c (restarted g q) g (remaining content k g) rounds (starts g)
  pub valid : IsValid content (k + 1) (restarted g q)

-- What is left after a full chunk.
length-moved :
    (content : List ℕ) (k c : ℕ) (g : SimpleTestGen) (q : Option Private)
    → length (remaining content k (moved g (g.p.pos + c) q)) ≡ length (remaining content k g) - c
length-moved content k c g q = omega (
  arith,
  length-drop (g.p.pos + c) (iteration g.pat_cfg content k),
  length-drop g.p.pos (iteration g.pat_cfg content k),
)

-- A full chunk, with its length written as a length.
full_chunk :
    (c : ℕ) (bs : List ℕ) (g g' : SimpleTestGen) (l : List Event)
    → c ≤ length bs
    → ((buf : List ℕ)
        → c ≤ length buf
        → read buf c g ≡ returns (c, write_at buf 0 (take c bs)) g' l)
    → (buf : List ℕ) → length buf ≡ c
    → read buf c g ≡ returns (length (take c bs), write_at buf 0 (take c bs)) g' l
full_chunk c bs g g' l le reads buf e =
    reads buf (omega arith)
    ∙ ap (λ (t : ℕ). returns (t, write_at buf 0 (take c bs)) g' l) (omega (arith, length-take c bs))

module _ (content : List ℕ) (k c : ℕ) (pos : 0 < c) where
  Rest-last :
      {m : ℕ} {g : SimpleTestGen}
      → IsValid content k g
      → length (remaining content k g) < c
      → Allows g.p.max_iter g.p.curr_iter
      → Rest content k c m g
  Rest-last v lt allowed =
      let (q, reads, valid) = read_last_any v c lt allowed in
      record {
        q = q;
        rounds = 1;
        few = omega arith;
        delivers = last lt (λ buffer full. reads buffer (omega arith));
        valid = valid;
      }

  Rest-more :
      {m : ℕ} {g : SimpleTestGen} (q : Option Private)
      → c ≤ length (remaining content k g)
      → ((buf : List ℕ)
          → c ≤ length buf
          → read buf c g
            ≡ returns
                (c, write_at buf 0 (take c (remaining content k g)))
                (moved g (g.p.pos + c) q)
                (starts g))
      → Rest content k c m (moved g (g.p.pos + c) q)
      → Rest content k c (suc m) g
  Rest-more {m} {g} q le reads r = record {
    q = r.q;
    rounds = suc r.rounds;
    few = omega (arith, r.few);
    delivers =
        more (take c rest) (remaining content k next) (starts g) (starts next) full
          (full_chunk c rest g next (starts g) le reads) r.delivers whole quiet refl;
    valid = r.valid;
  }
    where
      next : SimpleTestGen
      next = moved g (g.p.pos + c) q

      rest : List ℕ
      rest = remaining content k g

      full : length (take c rest) ≡ c
      full = omega (arith, length-take c rest)

      whole : rest ≡ take c rest ++ remaining content k next
      whole =
          sym (take-append-drop c rest)
          ∙ ap (λ t. take c rest ++ t)
              (drop-drop g.p.pos c (g.p.pos + c) (iteration g.pat_cfg content k) refl)

      quiet : starts g ≡ starts g ++ starts next
      quiet = rw (pos→ne_zero (g.p.pos + c) (omega arith)) (sym (append-nil (starts g)))

  until_the_end :
      (m : ℕ) {g : SimpleTestGen}
      → IsValid content k g
      → length (remaining content k g) < suc m * c
      → Allows g.p.max_iter g.p.curr_iter
      → Rest content k c m g
  until_the_end zero v lt allowed = Rest-last v (omega arith) allowed
  until_the_end (suc m) {g} v lt allowed = elim (dec_lt (length (remaining content k g)) c) [
    | yes short ↦ Rest-last v short allowed
    | no long ↦
        let (q, reads, valid) = read_inside_any v c pos (omega arith) in
        Rest-more q (omega arith) reads
          (until_the_end m valid (grind (arith, length-moved content k c g q)) allowed)
  ]

-- One call of `read_all` on a valid generator at the start of iteration `k` returns exactly the
-- bytes of that iteration, after one sleep of the configured cycle, and leaves the generator valid
-- at the start of the next iteration, if the limit allows it. One round of fuel for each full chunk
-- and one more suffice.
pub read_all-iteration :
    (content : List ℕ) (k fuel : ℕ) (g : SimpleTestGen)
    → IsValid content k g
    → g.p.pos ≡ 0
    → Allows g.p.max_iter g.p.curr_iter
    → length (iteration g.pat_cfg content k) / 1024 + 1 ≤ fuel
    → (q : Option Private) × (read_all test_gen u8 fuel g
        ≡ returns
            (iteration g.pat_cfg content k)
            (restarted g q)
            (sleep_micros g.config.cycle ∷ []))
      × IsValid content (k + 1) (restarted g q)
unfolding read_all
read_all-iteration content k fuel g v start allowed enough =
    let r =
      until_the_end content k 1024 (omega arith) (length all / 1024) v
        (omega (arith, ap length whole)) allowed in
    (
      r.q,
      read_all_loop-Delivers test_gen 1024 (omega arith) (omega arith) fuel [] r.delivers
            (omega (arith, r.few))
          ∙ ap₂ (λ bs l. returns bs (restarted g r.q) l) whole sleeps,
      r.valid,
    )
  where
    all : List ℕ
    all = iteration g.pat_cfg content k

    whole : remaining content k g ≡ all
    whole = ap (λ t. drop t all) start

    sleeps : starts g ≡ sleep_micros g.config.cycle ∷ []
    sleeps = rw start

module _ (content : List ℕ) (k c limit : ℕ) (pos : 0 < c) (small : c < 2 ^ 64) where
  first_exit :
      {g : SimpleTestGen}
      → IsValid content k g
      → length (remaining content k g) < c
      → g.p.max_iter ≡ some limit
      → limit < bumped (some limit) g.p.curr_iter
      → (generic_read test_gen u8 c g).out ≡ exit 0
  first_exit v lt e over =
      generic_read-exit test_gen u8 c 0 (omega arith) (omega (arith, small)) λ buffer full.
        let one : 1 * c ≡ c = omega arith in
        rw one (ap (λ r. r.out) (read_limit v c limit lt e over buffer (omega (arith, full))).1)

  -- At the limit the loop of `read_all` ends the process.
  pub read_all_loop-exit :
      (m fuel : ℕ) (result : List ℕ) (g : SimpleTestGen)
      → IsValid content k g
      → length (remaining content k g) < suc m * c
      → m < fuel
      → g.p.max_iter ≡ some limit
      → limit < bumped (some limit) g.p.curr_iter
      → (read_all_loop test_gen u8 fuel c result g).out ≡ exit 0
  unfolding read_all_loop
  read_all_loop-exit m zero result g v lt enough e over = absurd (omega arith)
  read_all_loop-exit zero (suc fuel) result g v lt enough e over =
      rw (first_exit v (omega arith) e over)
  read_all_loop-exit (suc m) (suc fuel) result g v lt enough e over =
      elim (dec_lt (length (remaining content k g)) c) [
        | yes short ↦ rw (first_exit v short e over)
        | no long ↦
            let (q, reads, valid) = read_inside_any v c pos (omega arith) in
            let g' = moved g (g.p.pos + c) q in
            let chunk = take c (remaining content k g) in
            let full : length chunk ≡ c = omega (arith, length-take c (remaining content k g)) in
            rw
              (
                generic_read-u8 test_gen c pos small chunk (omega (arith, full))
                    (full_chunk c (remaining content k g) g g' (starts g) (omega arith) reads),
                le→ltb (length chunk) c (omega (arith, full)),
              )
              (read_all_loop-exit m fuel (result ++ chunk) g' valid
                (grind (arith, length-moved content k c g q)) (omega arith) e over)
      ]

-- Once the limit does not allow the end of another iteration, a call of `read_all` on a valid
-- generator, with fuel for each chunk of an iteration, ends the process with status 0 and returns
-- nothing.
pub read_all-exit :
    (content : List ℕ) (k fuel limit : ℕ) (g : SimpleTestGen)
    → IsValid content k g
    → g.p.pattern_size / 1024 + 1 ≤ fuel
    → g.p.max_iter ≡ some limit
    → limit < bumped (some limit) g.p.curr_iter
    → (read_all test_gen u8 fuel g).out ≡ exit 0
unfolding read_all
read_all-exit content k fuel limit g v enough e over =
    read_all_loop-exit content k 1024 limit (omega arith) (omega arith) (g.p.pattern_size / 1024)
      fuel [] g v (omega (arith, v.sized, length-drop g.p.pos (iteration g.pat_cfg content k)))
      (omega arith) e over
