-- ===== src/TestGen/Valid.antt =====
-- The invariant of a generator of src/sockets/testgen.rs in iteration `k`.
use polysock.Base.{ℕ, ◌+◌, ◌%◌, ◌^◌, ◌≤◌, ◌≡◌, Option, none, some, List, [], ◌∷◌, drop, length}
use polysock.Base.{◌==◌, if◌then◌else◌, Event, sleep_micros, Text, lit, num}
use polysock.TestGen.{Private}
use polysock.TestGen.Gen.{SimpleTestGen, set_private}
use polysock.TestGen.Pattern.{iteration, Agrees}

-- `content` is the text of the configured file, if the pattern is a file.
pub record IsValid (content : List ℕ) (k : ℕ) (g : SimpleTestGen) : Type 0 where
  pub agrees : Agrees content g.reader g.pat_cfg g.p.pattern_priv g.p.pos k
  pub sized : g.p.pattern_size ≡ length (iteration g.pat_cfg content k)
  pub inside : g.p.pos ≤ g.p.pattern_size

-- What of iteration `k` is still to be read.
abbrev pub remaining : List ℕ → ℕ → SimpleTestGen → List ℕ
remaining content k g = drop g.p.pos (iteration g.pat_cfg content k)

-- What a read shows before it fills the buffer: the sleep at the start of an iteration.
abbrev pub starts : SimpleTestGen → List Event
starts g = if g.p.pos == 0 then sleep_micros g.config.cycle ∷ [] else []

-- The counter of iterations after one more; it is kept only where there is a limit.
abbrev pub bumped : Option ℕ → ℕ → ℕ
bumped none curr_iter = curr_iter
bumped (some max_iter) curr_iter = (curr_iter + 1) % 2 ^ 64

-- The limit allows the end of one more iteration.
abbrev pub Allows : Option ℕ → ℕ → Type 0
Allows none curr_iter = Unit
Allows (some max_iter) curr_iter = bumped (some max_iter) curr_iter ≤ max_iter

-- The generator inside an iteration, and at the start of the next one.
abbrev pub moved : SimpleTestGen → ℕ → Option Private → SimpleTestGen
moved g pos q = set_private g (record g.p { pos = pos; pattern_priv = q })

abbrev pub restarted : SimpleTestGen → Option Private → SimpleTestGen
restarted g q =
    set_private g
      (record g.p { pos = 0; curr_iter = bumped g.p.max_iter g.p.curr_iter; pattern_priv = q })

abbrev pub limit_line : ℕ → Text
limit_line max_iter =
    lit "Max iteration limit is reached (" ∷ num max_iter ∷ lit " iterations)" ∷ []
