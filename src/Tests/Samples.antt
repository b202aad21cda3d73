-- ===== src/Tests/Samples.antt =====
-- Sample data: a generator of two blocks with a limit of two iterations, as src/sockets/testgen.rs
-- makes it, and a socket that keeps what is written to it.
use polysock.Base.{Text, Bool, true, length, ℕ, refl, String, none, some, List, [], ◌∷◌, ◌++◌}
use polysock.Base.{arith, returns, pure, Outcome, ok}
use polysock.Sock.{ComplexSock, description, Parsed, parsed}
use polysock.Sock.Wrapper.Delivers.{Delivers, last, more}
use polysock.Base.{Ret, write_at}
use polysock.TestGen.{blocks, TestGenConfig}
use polysock.TestGen.Strategy.{block_strategy}
use polysock.TestGen.Gen.{SimpleTestGen}
use polysock.TestGen.Pattern.{blocks_fit}
use polysock.TestGen.Valid.{IsValid}

abbrev pub two_blocks : TestGenConfig
two_blocks = record { pat = blocks (7 ∷ 255 ∷ []) 3; cycle = 1000; iter_num = some 2 }

-- The generator at position `pos`, after `curr_iter` iterations.
abbrev pub sample : ℕ → ℕ → SimpleTestGen
sample pos curr_iter = record {
  stype = "test-gen";
  id = 0;
  config = two_blocks;
  pat_cfg = two_blocks.pat;
  p = record {
    pos = pos;
    pattern_size = 6;
    max_iter = some 2;
    curr_iter = curr_iter;
    pattern_priv = none;
  };
  reader = block_strategy;
}

pub sample-IsValid : IsValid [] 0 (sample 0 0)
sample-IsValid = record { agrees = blocks_fit (omega arith); sized = refl; inside = omega arith }

-- In the middle of the second block, at the limit.
pub late-IsValid : IsValid [] 2 (sample 4 2)
late-IsValid = record { agrees = blocks_fit (omega arith); sized = refl; inside = omega arith }

abbrev pub sink : ComplexSock
sink = record {
  State = List (List ℕ);
  open_sock = pure tt;
  close = pure tt;
  drop_sock = pure tt;
  read = λ buf sz. pure (0, buf);
  write = λ buf sz written. returns tt (written ++ (buf ∷ [])) [];
  set_block = λ is_blocking. pure tt;
  get_type_name = λ written. "sink";
  get_id = λ written. 0;
  get_description = λ written. description "sink" 0;
}

-- A file system of empty files, and a parser that knows one configuration.
abbrev pub empty_files : String → Outcome (List ℕ)
empty_files path = ok []

abbrev pub parse_as : TestGenConfig → String → Parsed TestGenConfig
parse_as cfg params = parsed cfg

-- A socket that hands out its two messages, the second of which is short.
abbrev pub two_reads : ComplexSock
two_reads = record sink { read = λ buffer n s. by_count buffer s }
  where
    by_count : List ℕ → List (List ℕ) → Ret (List (List ℕ)) (ℕ × List ℕ)
    by_count buffer [] = returns (0, buffer) [] []
    by_count buffer (bs ∷ rest) = returns (length bs, write_at buffer 0 bs) rest []

pub two_reads_Deliver :
    Delivers two_reads 3 [] ((1 ∷ 2 ∷ 3 ∷ []) ∷ (4 ∷ []) ∷ []) (1 ∷ 2 ∷ 3 ∷ 4 ∷ []) 2 []
two_reads_Deliver =
    more (1 ∷ 2 ∷ 3 ∷ []) (4 ∷ []) [] [] refl (λ buffer full. refl)
      (last (omega arith) (λ buffer full. refl)) refl refl refl

-- A standard output that works.
abbrev pub every_line : Text → Bool
every_line line = true
