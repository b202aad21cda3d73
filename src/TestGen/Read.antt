-- ===== src/TestGen/Read.antt =====
-- What a read of the generator of src/sockets/testgen.rs returns, inside an iteration, at its end
-- and at the limit of iterations.
use polysock.Base.{ℕ, ◌+◌, ◌-◌, ◌≤◌, ◌<◌, ◌≡◌, sym, ap, ◌∙◌, inl, inr}
use polysock.Base.{Option, List, [], append-nil, arith}
use polysock.Base.{◌==◌, Bool-cases, lt→ltb, le→ltb, pos→ne_zero}
use polysock.Base.{length, take, write_at, take-all, length-drop}
use polysock.Base.{returns, ok}
use polysock.TestGen.{Private, get_curr_size}
use polysock.TestGen.Strategy.{strategy_read, reset_priv}
use polysock.TestGen.Gen.{SimpleTestGen, set_private, wait_cycle, check_limit, reset, advance, read}
use polysock.TestGen.Pattern.{iteration, length-iteration}
use polysock.TestGen.Pattern.Fill.{strategy_read_any, reset_priv_lem}
use polysock.TestGen.Valid.{IsValid, remaining, starts, bumped, Allows, moved, restarted}

pub wait_cycle_lem : (g : SimpleTestGen) → wait_cycle g ≡ returns tt g (starts g)
unfolding wait_cycle
wait_cycle_lem g = elim (Bool-cases (g.p.pos == 0)) [ inl e ↦ rw e | inr e ↦ rw e ]

check_limit_lem :
    (g : SimpleTestGen)
    → Allows g.p.max_iter g.p.curr_iter
    → check_limit g
      ≡ returns tt (set_private g (record g.p { curr_iter = bumped g.p.max_iter g.p.curr_iter })) []
unfolding check_limit
check_limit_lem g h = ground arith

advance_inside :
    (g : SimpleTestGen) (sz : ℕ)
    → 0 < sz
    → advance sz sz g ≡ returns tt (set_private g (record g.p { pos = g.p.pos + sz })) []
unfolding advance
advance_inside g sz h = rw (le→ltb sz sz (omega arith), pos→ne_zero (g.p.pos + sz) (omega arith))

reset_lem :
    (g : SimpleTestGen) {q : Option Private}
    → reset_priv g.reader g.p.pattern_priv ≡ ok q
    → reset g ≡ returns tt (set_private g (record g.p { pattern_priv = q })) []
unfolding reset
reset_lem g e = rw e

advance_last :
    (g : SimpleTestGen) (sz real : ℕ) {q : Option Private}
    → real < sz
    → Allows g.p.max_iter g.p.curr_iter
    → reset_priv g.reader g.p.pattern_priv ≡ ok q
    → advance sz real g ≡ returns tt (restarted g q) []
unfolding advance
advance_last g sz real {q} h a e =
    rw (lt→ltb real sz h, check_limit_lem (set_private g (record g.p { pos = 0 })) a)
      (reset_lem
        (set_private g (record g.p { pos = 0; curr_iter = bumped g.p.max_iter g.p.curr_iter })) e)

-- The whole read, once the strategy's part and the end are known.
read_steps :
    (g : SimpleTestGen) (buf : List ℕ) (sz real : ℕ) (q : Option Private) {buf' : List ℕ}
    {g' : SimpleTestGen}
    → get_curr_size g.p.pattern_size sz g.p.pos ≡ real
    → strategy_read g.reader g.pat_cfg g.p.pattern_priv buf real g.p.pos ≡ ok (real, q, buf')
    → advance sz real (set_private g (record g.p { pattern_priv = q })) ≡ returns tt g' []
    → read buf sz g ≡ returns (real, buf') g' (starts g)
unfolding read
read_steps g buf sz real q {buf'} {g'} same e f =
    rw (wait_cycle_lem g, same, e, f) (ap (returns (real, buf') g') (append-nil (starts g)))

get_curr_size_all : (size sz pos : ℕ) → sz ≤ size - pos → get_curr_size size sz pos ≡ sz
unfolding get_curr_size
get_curr_size_all size sz pos h = rw (le→ltb (size - pos) sz h)

pub get_curr_size_rest :
    (size sz pos : ℕ) → size - pos < sz → get_curr_size size sz pos ≡ size - pos
unfolding get_curr_size
get_curr_size_rest size sz pos h = rw (lt→ltb (size - pos) sz h)

module _ {content : List ℕ} {k : ℕ} {g : SimpleTestGen} (v : IsValid content k g) where
  pub length-remaining : length (remaining content k g) ≡ g.p.pattern_size - g.p.pos
  length-remaining = omega (arith, v.sized, length-drop g.p.pos (iteration g.pat_cfg content k))

  abbrev rest : List ℕ
  rest = remaining content k g

  -- The next state does not depend on the buffer.
  pub read_inside_any :
      (sz : ℕ)
      → 0 < sz
      → sz ≤ length (remaining content k g)
      → (q : Option Private) × ((buf : List ℕ)
          → sz ≤ length buf
          → read buf sz g
            ≡ returns
                (sz, write_at buf 0 (take sz (remaining content k g)))
                (moved g (g.p.pos + sz) q)
                (starts g))
        × IsValid content k (moved g (g.p.pos + sz) q)
  read_inside_any sz pos le =
      let (q, reads, agrees) =
        strategy_read_any content sz v.agrees
          (omega (arith, v.sized, length-remaining, v.inside)) in
      (
        q,
        λ buf room.
            read_steps g buf sz sz q
              (get_curr_size_all g.p.pattern_size sz g.p.pos (omega (arith, length-remaining)))
              (reads buf room)
              (advance_inside (set_private g (record g.p { pattern_priv = q })) sz pos),
        record {
          agrees = agrees;
          sized = v.sized;
          inside = omega (arith, length-remaining, v.inside);
        },
      )

  pub read_last_any :
      (sz : ℕ)
      → length (remaining content k g) < sz
      → Allows g.p.max_iter g.p.curr_iter
      → (q : Option Private) × ((buf : List ℕ)
          → sz ≤ length buf
          → read buf sz g
            ≡ returns
                (length (remaining content k g), write_at buf 0 (remaining content k g))
                (restarted g q)
                (starts g))
        × IsValid content (k + 1) (restarted g q)
  read_last_any sz lt allowed =
      let (q, reads, agrees) =
        strategy_read_any content (length rest) v.agrees
          (omega (arith, v.sized, v.inside, length-remaining)) in
      let (q', resets, agrees') = reset_priv_lem content agrees in
      (
        q',
        λ buf room.
            read_steps g buf sz (length rest) q
              (get_curr_size_rest g.p.pattern_size sz g.p.pos (omega (arith, length-remaining))
                ∙ sym length-remaining)
              (reads buf (omega arith)
                ∙ ap (λ t. ok (length rest, q, write_at buf 0 t))
                    (take-all (length rest) rest (omega arith)))
              (advance_last (set_private g (record g.p { pattern_priv = q })) sz (length rest) lt
                allowed resets),
        record {
          agrees = agrees';
          sized = v.sized ∙ length-iteration g.pat_cfg content k (k + 1);
          inside = omega arith;
        },
      )

  -- A read of at least one byte, and at most what is left of the iteration and the buffer has room
  -- for, fills the buffer with the next `sz` bytes of the iteration, and moves the position by
  -- `sz`. The iteration goes on, and the invariant is kept.
  pub read_inside :
      (buf : List ℕ) (sz : ℕ)
      → 0 < sz
      → sz ≤ length buf
      → sz ≤ length (remaining content k g)
      → (q : Option Private) × (read buf sz g
          ≡ returns
              (sz, write_at buf 0 (take sz (remaining content k g)))
              (moved g (g.p.pos + sz) q)
              (starts g))
        × IsValid content k (moved g (g.p.pos + sz) q)
  read_inside buf sz pos room le =
      let (q, reads, valid) = read_inside_any sz pos le in (q, reads buf room, valid)

  -- A read of more than is left of the iteration, into a buffer that has room for it, returns all
  -- that is left, which may be nothing, where the limit allows the end of the iteration. The
  -- generator is then valid at the start of the next iteration.
  pub read_last :
      (buf : List ℕ) (sz : ℕ)
      → sz ≤ length buf
      → length (remaining content k g) < sz
      → Allows g.p.max_iter g.p.curr_iter
      → (q : Option Private) × (read buf sz g
          ≡ returns
              (length (remaining content k g), write_at buf 0 (remaining content k g))
              (restarted g q)
              (starts g))
        × IsValid content (k + 1) (restarted g q)
  read_last buf sz room lt allowed =
      let (q, reads, valid) = read_last_any sz lt allowed in (q, reads buf room, valid)
