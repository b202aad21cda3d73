-- ===== src/TestGen/Limit.antt =====
-- The read of src/sockets/testgen.rs that reaches the limit of iterations.
use polysock.Base.{ℕ, ◌≤◌, ◌<◌, ◌≡◌, sym, ◌∙◌}
use polysock.Base.{Option, some, List, [], ◌∷◌, ◌++◌, arith}
use polysock.Base.{lt→ltb}
use polysock.Base.{length}
use polysock.Base.{Ret, ok, exit, println}
use polysock.TestGen.{Private, get_curr_size}
use polysock.TestGen.Strategy.{strategy_read}
use polysock.TestGen.Gen.{SimpleTestGen, set_private, check_limit, advance, read}
use polysock.TestGen.Pattern.Fill.{strategy_read_any}
use polysock.TestGen.Valid.{IsValid, remaining, starts, bumped, limit_line}
use polysock.TestGen.Read.{wait_cycle_lem, get_curr_size_rest, length-remaining}
use polysock.Base.{lt→ltb}

-- The end of the process, with the line that says why.
abbrev limit_reached : {A : Type 0} → SimpleTestGen → ℕ → Ret SimpleTestGen A
limit_reached g max_iter = record {
  out = exit 0;
  state = g;
  log = println (limit_line max_iter) ∷ [];
}

check_limit_over :
    (g : SimpleTestGen) (m : ℕ)
    → g.p.max_iter ≡ some m
    → m < bumped (some m) g.p.curr_iter
    → check_limit g
      ≡ limit_reached (set_private g (record g.p { curr_iter = bumped (some m) g.p.curr_iter })) m
unfolding check_limit
check_limit_over g m e over = ground arith

advance_over :
    (g : SimpleTestGen) (sz real m : ℕ)
    → real < sz
    → g.p.max_iter ≡ some m
    → m < bumped (some m) g.p.curr_iter
    → advance sz real g
      ≡ limit_reached
          (set_private g (record g.p { pos = 0; curr_iter = bumped (some m) g.p.curr_iter }))
          m
unfolding advance
advance_over g sz real m h e over =
    rw (lt→ltb real sz h, check_limit_over (set_private g (record g.p { pos = 0 })) m e over)

read_over :
    (g : SimpleTestGen) (buf : List ℕ) (sz real m : ℕ) (q : Option Private) {buf' : List ℕ}
    {g' : SimpleTestGen}
    → get_curr_size g.p.pattern_size sz g.p.pos ≡ real
    → strategy_read g.reader g.pat_cfg g.p.pattern_priv buf real g.p.pos ≡ ok (real, q, buf')
    → advance sz real (set_private g (record g.p { pattern_priv = q })) ≡ limit_reached g' m
    → read buf sz g
      ≡ record { out = exit 0; state = g'; log = starts g ++ (println (limit_line m) ∷ []) }
unfolding read
read_over g buf sz real m q same e f = rw (wait_cycle_lem g, same, e, f)

module _ {content : List ℕ} {k : ℕ} {g : SimpleTestGen} (v : IsValid content k g) where
  abbrev rest : List ℕ
  rest = remaining content k g

  -- Once the limit does not allow the end of another iteration, a read of more than is left of the
  -- iteration, into a buffer that has room for it, prints the line about the limit and ends the
  -- process with status 0.
  pub read_limit :
      (sz max_iter : ℕ)
      → length (remaining content k g) < sz
      → g.p.max_iter ≡ some max_iter
      → max_iter < bumped (some max_iter) g.p.curr_iter
      → (buf : List ℕ) → sz ≤ length buf
      → (g' : SimpleTestGen) × (read buf sz g ≡ record {
        out = exit 0;
        state = g';
        log = starts g ++ (println (limit_line max_iter) ∷ []);
      })
  read_limit sz m lt e over buf room =
      let (q, reads, agrees) =
        strategy_read_any content (length rest) v.agrees
          (omega (arith, v.sized, v.inside, (length-remaining v))) in
      (
        _,
        read_over g buf sz (length rest) m q
            (get_curr_size_rest g.p.pattern_size sz g.p.pos (omega (arith, (length-remaining v)))
              ∙ sym (length-remaining v))
            (reads buf (omega arith))
            (advance_over (set_private g (record g.p { pattern_priv = q })) sz (length rest) m lt e
              over),
      )
