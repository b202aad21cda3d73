-- ===== src/TestGen/Factory.antt =====
-- src/sockets/testgen.rs: `TestGenFactory`. The JSON parser and the file system are arguments.
use polysock.Base.{Text, lit, ℕ, String, Option, none, some}
use polysock.Base.{List, [], ◌∷◌, length, Outcome, ok, err, M, map_outcome}
use polysock.Base.{new, invalid_input, eprintln, lift, pure, ◌>>=◌}
use polysock.Sock.{SocketFactory, SocketParams, SockDocViewer, Parsed, parsed, rejected, fetch_add}
use polysock.Sock.Wrapper.{mul_usize}
use polysock.TestGen.{
  TestGenTypes, static, sequence, increment, blocks, text_string, hex_string, file, TestGenConfig,
  TestGenPrivate, byte, text,
}
use polysock.TestGen.Strategy.{
  Strategy, static_strategy, sequence_strategy, increment_strategy, block_strategy,
  text_string_strategy, hex_string_strategy, file_strategy,
}
use polysock.TestGen.Gen.{SimpleTestGen, test_gen}

-- `TestGenPrivate { max_iter, ..Default::default() }`
abbrev pub initial : Option ℕ → TestGenPrivate
initial max_iter = record {
  pos = 0;
  pattern_size = 0;
  max_iter = max_iter;
  curr_iter = 0;
  pattern_priv = none;
}

abbrev sized : TestGenPrivate → ℕ → TestGenPrivate
sized p size = record p { pattern_size = size }

-- `SimpleTestGen::new`, which takes the next identifier.
unfoldable pub new_test_gen : TestGenConfig → Strategy → TestGenPrivate → M ℕ SimpleTestGen
new_test_gen cfg reader p = do
  id ← fetch_add
  pure (record {
    stype = "test-gen";
    id = id;
    config = cfg;
    pat_cfg = cfg.pat;
    p = p;
    reader = reader;
  })

module _ (read_to_string : String → Outcome (List ℕ)) where
  -- The `match` on the pattern: the strategy and its private state.
  unfoldable pub select : TestGenTypes → TestGenPrivate → Outcome (Strategy × TestGenPrivate)
  unfolding mul_usize
  select (static value size) p = ok (static_strategy, sized p size)
  select (sequence size) p =
      ok (sequence_strategy, record p { pattern_size = size; pattern_priv = some (byte 0) })
  select (increment value size) p =
      ok (increment_strategy, record p { pattern_size = size; pattern_priv = some (byte value) })
  select (blocks bl bs) p = ok (block_strategy, sized p (mul_usize bs (length bl)))
  select (text_string t) p = ok (text_string_strategy, sized p (length t))
  select (hex_string t) p = ok (hex_string_strategy, sized p (length t))
  select (file path) p =
      map_outcome
        (λ t. (file_strategy, record p { pattern_size = length t; pattern_priv = some (text t) }))
        (read_to_string path)

  module _ (from_str : String → Parsed TestGenConfig) where
    unfoldable pub create_sock : SocketParams → M ℕ SimpleTestGen
    unfolding select new_test_gen
    create_sock params = elim (from_str params) [
      | rejected e ↦ λ next_id. record {
        out = err (new invalid_input "Invalid test-gen configuration");
        state = next_id;
        log = eprintln e ∷ [];
      }
      | parsed cfg ↦ do
        (reader, p) ← lift (select cfg.pat (initial cfg.iter_num))
        new_test_gen cfg reader p
    ]

    -- `TestGenFactory`, with the texts of its documentation.
    abbrev pub test_gen_factory : SockDocViewer → SocketFactory ℕ
    test_gen_factory doc = record {
      sock = test_gen;
      create_sock = create_sock;
      create_doc_viewer = doc;
    }

abbrev pub test_gen_doc : Text → SockDocViewer
test_gen_doc schema = record {
  get_full_scheme = schema;
  get_examples =
      lit "Incremantal traffic generation"
      ∷ lit ": "
      ∷ lit
          "{ \"pat\": { \"type\": \"inc\", \"data\": \"0xf0\", \"size\": 100 }, \"cycle\": 10000 }"
      ∷ lit "\n"
      ∷ lit "Hex string traffic generation (only 10 iterations)"
      ∷ lit ": "
      ∷ lit
          "{ \"pat\": { \"type\": \"hex_str\", \"data\": \"1122334455aaddff\" }, \"cycle\": 10000, \"iter_num\": 10 }"
      ∷ [];
}
