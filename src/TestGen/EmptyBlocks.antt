-- ===== src/TestGen/EmptyBlocks.antt =====
-- A pattern of src/sockets/testgen.rs whose blocks have the size 0.
use polysock.Base.{ℕ, ◌+◌, ◌%◌, ◌^◌, ◌≡◌, refl, String, Option, none}
use polysock.Base.{List, [], length, Outcome, ok, panic, returns}
use polysock.Sock.{Parsed, parsed}
use polysock.Sock.Wrapper.{mul_usize}
use polysock.TestGen.{TestGenTypes, blocks, TestGenConfig, Private, get_curr_size}
use polysock.TestGen.Strategy.{block_strategy, strategy_read, blocks_read}
use polysock.TestGen.Gen.{SimpleTestGen, fill, read}
use polysock.TestGen.Factory.{initial, select, create_sock}
use polysock.TestGen.Created.{made, create_sock-select}

module _ (read_to_string : String → Outcome (List ℕ)) where
  zero_blocks :
      {pat : TestGenTypes} {bl : List ℕ} (max_iter : Option ℕ)
      → pat ≡ blocks bl 0
      → select read_to_string pat (initial max_iter)
        ≡ ok (block_strategy, record (initial max_iter) { pattern_size = mul_usize 0 (length bl) })
  unfolding select
  zero_blocks max_iter h = rw h refl

  strategy_read-zero :
      (pat : TestGenTypes) (bl : List ℕ) (q : Option Private) (buf : List ℕ) (n pos : ℕ)
      → pat ≡ blocks bl 0
      → strategy_read block_strategy pat q buf n pos ≡ panic
  unfolding strategy_read blocks_read
  strategy_read-zero pat bl q buf n pos h = rw h refl

  module _ (from_str : String → Parsed TestGenConfig) where
    -- A configuration of blocks with the size 0 is accepted by the factory, and the first read of
    -- the generator panics, whatever is asked for.
    pub read-panic_of_block_size :
        (params : String) (cfg : TestGenConfig) (bl : List ℕ) (next_id : ℕ) (buf : List ℕ) (sz : ℕ)
        → from_str params ≡ parsed cfg
        → cfg.pat ≡ blocks bl 0
        → (g : SimpleTestGen) × (create_sock read_to_string from_str params next_id
            ≡ returns g ((next_id + 1) % 2 ^ 32) [])
          × ((read buf sz g).out ≡ panic)
    unfolding read fill
    read-panic_of_block_size params cfg bl next_id buf sz e h =
        let p = record (initial cfg.iter_num) { pattern_size = mul_usize 0 (length bl) } in
        (
          made read_to_string from_str cfg next_id block_strategy p,
          create_sock-select read_to_string from_str params next_id e (zero_blocks cfg.iter_num h),
          rw
              (strategy_read-zero cfg.pat bl none buf (get_curr_size (mul_usize 0 (length bl)) sz 0)
                0 h)
              refl,
        )
