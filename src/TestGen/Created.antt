-- ===== src/TestGen/Created.antt =====
-- The generators that the factory of src/sockets/testgen.rs makes.
use polysock.Base.{ℕ, ◌+◌, ◌*◌, ◌%◌, ◌^◌, ◌<◌, ◌≡◌, refl, sym, ◌∙◌, String, Option}
use polysock.Base.{
  List, [], length, arith, Outcome, ok, err, panic, undefined, exit, no_fuel, returns,
}
use polysock.Base.{lift, ◌>>=◌}
use polysock.Base.{length-replicate}
use native.Mathlib.Nat.{mod-eq_of_lt}
use polysock.Sock.{Parsed, parsed, rejected}
use polysock.TestGen.{
  TestGenTypes, static, sequence, increment, blocks, text_string, hex_string, file, TestGenConfig,
  TestGenPrivate,
}
use polysock.TestGen.Strategy.{Strategy}
use polysock.TestGen.Gen.{SimpleTestGen}
use polysock.TestGen.Pattern.{
  iteration, Agrees, static_fits, sequence_fits, increment_fits, blocks_fit, text_string_fits,
  hex_string_fits, file_fits, length-count_up, length-expand,
}
use polysock.TestGen.Valid.{IsValid}
use polysock.TestGen.Factory.{initial, select, new_test_gen, create_sock}

-- The counter after an attempt to make a generator.
abbrev pub after_create : {A : Type 0} → ℕ → Outcome A → ℕ
after_create next_id (ok g) = (next_id + 1) % 2 ^ 32
after_create next_id o = next_id

built-state :
    (cfg : TestGenConfig) (next_id : ℕ) (chosen : Outcome (Strategy × TestGenPrivate))
    → let r = (lift chosen >>= λ (reader, p). new_test_gen cfg reader p) next_id in
      r.state ≡ after_create next_id r.out
unfolding new_test_gen
built-state cfg next_id (ok (reader, p)) = refl
built-state cfg next_id (err e) = refl
built-state cfg next_id panic = refl
built-state cfg next_id undefined = refl
built-state cfg next_id (exit code) = refl
built-state cfg next_id no_fuel = refl

module _ (read_to_string : String → Outcome (List ℕ)) where
  -- A configuration that the generator can serve: bytes are bytes, blocks are not empty and their
  -- total fits a `usize`, and the file can be read and holds `content`.
  abbrev pub Serves : TestGenTypes → List ℕ → Type 0
  Serves (static value size) content = Unit {0}
  Serves (sequence size) content = Unit {0}
  Serves (increment value size) content = value < 256
  Serves (blocks bl bs) content = (0 < bs) × (bs * length bl < 2 ^ 64)
  Serves (text_string t) content = Unit {0}
  Serves (hex_string t) content = Unit {0}
  Serves (file path) content = read_to_string path ≡ ok content

  -- The choice of the strategy, with what the generator is to be after it.
  record Chosen (pat : TestGenTypes) (content : List ℕ) (max_iter : Option ℕ) : Type 0 where
    reader : Strategy
    p : TestGenPrivate
    chosen : select read_to_string pat (initial max_iter) ≡ ok (reader, p)
    agrees : Agrees content reader pat p.pattern_priv 0 0
    size : p.pattern_size ≡ length (iteration pat content 0)
    start : p.pos ≡ 0
    fresh : p.curr_iter ≡ 0
    limit : p.max_iter ≡ max_iter

  choose :
      (pat : TestGenTypes) (content : List ℕ) (max_iter : Option ℕ)
      → Serves pat content
      → Chosen pat content max_iter
  unfolding select
  choose (static value size) content m h = record {
    reader = _;
    p = _;
    chosen = refl;
    agrees = static_fits;
    size = sym (length-replicate size value);
    start = refl;
    fresh = refl;
    limit = refl;
  }
  choose (sequence size) content m h = record {
    reader = _;
    p = _;
    chosen = refl;
    agrees = sequence_fits refl;
    size = sym (length-count_up 0 size);
    start = refl;
    fresh = refl;
    limit = refl;
  }
  choose (increment value size) content m h = record {
    reader = _;
    p = _;
    chosen = refl;
    agrees = increment_fits (omega arith);
    size = sym (length-replicate size ((value + 0) % 256));
    start = refl;
    fresh = refl;
    limit = refl;
  }
  choose (blocks bl bs) content m h = record {
    reader = _;
    p = _;
    chosen = refl;
    agrees = blocks_fit h.0;
    size = mod-eq_of_lt h.1 ∙ sym (length-expand bs bl);
    start = refl;
    fresh = refl;
    limit = refl;
  }
  choose (text_string t) content m h = record {
    reader = _;
    p = _;
    chosen = refl;
    agrees = text_string_fits;
    size = refl;
    start = refl;
    fresh = refl;
    limit = refl;
  }
  choose (hex_string t) content m h = record {
    reader = _;
    p = _;
    chosen = refl;
    agrees = hex_string_fits;
    size = refl;
    start = refl;
    fresh = refl;
    limit = refl;
  }
  choose (file path) content m h = record {
    reader = _;
    p = _;
    chosen = rw h;
    agrees = file_fits;
    size = refl;
    start = refl;
    fresh = refl;
    limit = refl;
  }

  module _ (from_str : String → Parsed TestGenConfig) where
    -- The generator that is made of the strategy and the private state.
    abbrev pub made : TestGenConfig → ℕ → Strategy → TestGenPrivate → SimpleTestGen
    made cfg id reader p = record {
      stype = "test-gen";
      id = id;
      config = cfg;
      pat_cfg = cfg.pat;
      p = p;
      reader = reader;
    }

    pub create_sock-select :
        (params : String) (next_id : ℕ) {cfg : TestGenConfig} {reader : Strategy}
        {p : TestGenPrivate}
        → from_str params ≡ parsed cfg
        → select read_to_string cfg.pat (initial cfg.iter_num) ≡ ok (reader, p)
        → create_sock read_to_string from_str params next_id
          ≡ returns (made cfg next_id reader p) ((next_id + 1) % 2 ^ 32) []
    unfolding create_sock
    create_sock-select params next_id e f = rw (e, create_sock, f)

    -- An identifier is taken exactly when a generator is made: a configuration that does not parse,
    -- or whose file cannot be read, leaves the counter alone.
    pub create_sock-state :
        (params : String) (next_id : ℕ)
        → (create_sock read_to_string from_str params next_id).state
          ≡ after_create next_id (create_sock read_to_string from_str params next_id).out
    unfolding create_sock
    create_sock-state params next_id = by_parse (from_str params) refl
      where
        by_parse :
            (x : Parsed TestGenConfig)
            → from_str params ≡ x
            → (create_sock read_to_string from_str params next_id).state
              ≡ after_create next_id (create_sock read_to_string from_str params next_id).out
        by_parse (rejected message) e = rw (e, create_sock)
        by_parse (parsed cfg) e =
            rw (e, create_sock)
              (built-state cfg next_id (select read_to_string cfg.pat (initial cfg.iter_num)))

    -- From a configuration that it can serve the factory makes a valid generator at the start of
    -- iteration 0, with that configuration, its limit and the next identifier.
    pub create_sock-IsValid :
        (params : String) (cfg : TestGenConfig) (content : List ℕ) (next_id : ℕ)
        → from_str params ≡ parsed cfg
        → Serves cfg.pat content
        → (g : SimpleTestGen) × (create_sock read_to_string from_str params next_id
            ≡ returns g ((next_id + 1) % 2 ^ 32) [])
          × IsValid content 0 g
          × (g.p.pos ≡ 0)
          × (g.p.curr_iter ≡ 0)
          × (g.p.max_iter ≡ cfg.iter_num)
          × (g.pat_cfg ≡ cfg.pat)
          × (g.config ≡ cfg)
          × (g.id ≡ next_id)
    unfolding create_sock
    create_sock-IsValid params cfg content next_id e h =
        let c = choose cfg.pat content cfg.iter_num h in
        (
          made cfg next_id c.reader c.p,
          create_sock-select params next_id e c.chosen,
          record { agrees = rw c.start c.agrees; sized = c.size; inside = omega (arith, c.start) },
          c.start,
          c.fresh,
          c.limit,
          refl,
          refl,
          refl,
        )
