-- ===== src/Tests/Generator.antt =====
-- The generator of src/sockets/testgen.rs and the thread of src/sock/mod.rs on sample inputs.
use polysock.Base.{
  length, ◌≤◌, ℕ, ◌≡◌, refl, Option, none, some, true, false, List, [], ◌∷◌, ◌++◌, arith,
}
use polysock.Base.{replicate, Event, sleep_micros}
use polysock.Base.{ok, panic, exit, returns}
use polysock.Sock.Wrapper.{u8, read_all}
use polysock.Sock.Manager.{binding_thread}
use polysock.TestGen.{TestGenConfig, Private, blocks, get_curr_size, update_pos}
use polysock.TestGen.Strategy.{
  write_bytes, block_loop, blocks_read, strategy_read, block_strategy, reset_priv,
}
use polysock.TestGen.Gen.{SimpleTestGen, test_gen, read, wait_cycle, fill, store_priv, advance}
use polysock.TestGen.Pattern.{Agrees, blocks_fit}
use polysock.TestGen.Pattern.Fill.{strategy_read_lem, reset_priv_lem}
use polysock.TestGen.Valid.{IsValid, moved, restarted}
use polysock.TestGen.Read.{read_inside, read_last}
use polysock.TestGen.Delivery.{read_all-iteration}
use polysock.TestGen.Bounds.{read_bounds}
use polysock.TestGen.Factory.{create_sock}
use polysock.TestGen.EmptyBlocks.{read-panic_of_block_size}
use polysock.TestGen.Created.{create_sock-IsValid}
use polysock.TestGen.Pump.{binding_thread-iterations, binding_thread-limit}
use polysock.Sock.Manager.Copies.{accept, none_left}
use polysock.Tests.Samples.{two_blocks, sample, sample-IsValid, sink, empty_files, parse_as}

abbrev message : List ℕ
message = 7 ∷ 7 ∷ 7 ∷ 255 ∷ 255 ∷ 255 ∷ []

-- Four bytes from position 1 on: the rest of the first block and a part of the second.
blocks_across :
    blocks_read (blocks (7 ∷ 255 ∷ []) 3) none (0 ∷ 0 ∷ 0 ∷ 0 ∷ 0 ∷ []) 4 1
    ≡ ok (4, none, 7 ∷ 7 ∷ 255 ∷ 255 ∷ 0 ∷ [])
unfolding blocks_read block_loop write_bytes
blocks_across = refl

binding_thread-iterations_example :
    (g' : SimpleTestGen) × (log : List Event) × (binding_thread test_gen sink 1
        (replicate 2 true ++ (false ∷ []))
        (sample 0 0, [])
      ≡ returns tt (g', message ∷ message ∷ []) log)
    × IsValid [] 2 g'
binding_thread-iterations_example =
    binding_thread-iterations sink 2 0 1 [] (sample 0 0) [] (message ∷ message ∷ []) sample-IsValid
      refl (omega arith, omega arith) (omega arith) (omega arith)
      (accept refl (accept refl none_left))

binding_thread-limit_example :
    let r = binding_thread test_gen sink 1 (replicate 2 true ++ (true ∷ [])) (sample 0 0, []) in
    (r.out ≡ exit 0) × (r.state.1 ≡ message ∷ message ∷ [])
binding_thread-limit_example =
    binding_thread-limit sink 2 0 1 2 [] (sample 0 0) [] (message ∷ message ∷ []) [] sample-IsValid
      refl refl refl (omega arith) (omega arith) (omega arith) (accept refl (accept refl none_left))

read_all-iteration_example :
    (q : Option Private) × (read_all test_gen u8 1 (sample 0 0)
      ≡ returns message (restarted (sample 0 0) q) (sleep_micros 1000 ∷ []))
    × IsValid [] 1 (restarted (sample 0 0) q)
read_all-iteration_example =
    read_all-iteration [] 0 1 (sample 0 0) sample-IsValid refl (omega arith) (omega arith)

create_sock-IsValid_example :
    (g : SimpleTestGen) × (create_sock empty_files (parse_as two_blocks) "{}" 4 ≡ returns g 5 [])
    × IsValid [] 0 g
    × (g.p.pos ≡ 0)
    × (g.p.curr_iter ≡ 0)
    × (g.p.max_iter ≡ some 2)
    × (g.pat_cfg ≡ two_blocks.pat)
    × (g.config ≡ two_blocks)
    × (g.id ≡ 4)
create_sock-IsValid_example =
    create_sock-IsValid empty_files (parse_as two_blocks) "{}" two_blocks [] 4 refl
      (omega arith, omega arith)

abbrev empty_blocks : TestGenConfig
empty_blocks = record two_blocks { pat = blocks (7 ∷ []) 0 }

read-panic_of_block_size_example :
    (g : SimpleTestGen) × (create_sock empty_files (parse_as empty_blocks) "{}" 4 ≡ returns g 5 [])
    × ((read (0 ∷ 0 ∷ []) 2 g).out ≡ panic)
read-panic_of_block_size_example =
    read-panic_of_block_size empty_files (parse_as empty_blocks) "{}" empty_blocks (7 ∷ []) 4
      (0 ∷ 0 ∷ []) 2 refl refl

read_inside_example :
    (q : Option Private) × (read (replicate 5 0) 4 (sample 0 0)
      ≡ returns (4, 7 ∷ 7 ∷ 7 ∷ 255 ∷ 0 ∷ []) (moved (sample 0 0) 4 q) (sleep_micros 1000 ∷ []))
    × IsValid [] 0 (moved (sample 0 0) 4 q)
read_inside_example =
    read_inside sample-IsValid (replicate 5 0) 4 (omega arith) (omega arith) (omega arith)

read_last_example :
    (q : Option Private) × (read (replicate 8 0) 8 (sample 0 0)
      ≡ returns (6, message ++ (0 ∷ 0 ∷ [])) (restarted (sample 0 0) q) (sleep_micros 1000 ∷ []))
    × IsValid [] 1 (restarted (sample 0 0) q)
read_last_example =
    read_last sample-IsValid (replicate 8 0) 8 (omega arith) (omega arith) (omega arith)

strategy_read_lem_example :
    (q : Option Private) × (strategy_read block_strategy two_blocks.pat none (replicate 5 0) 4 1
      ≡ ok (4, q, 7 ∷ 7 ∷ 255 ∷ 255 ∷ 0 ∷ []))
    × Agrees [] block_strategy two_blocks.pat q 5 0
strategy_read_lem_example =
    strategy_read_lem [] (replicate 5 0) 4 (blocks_fit (omega arith)) (omega arith) (omega arith)

reset_priv_lem_example :
    (q : Option Private) × (reset_priv block_strategy none ≡ ok q)
    × Agrees [] block_strategy two_blocks.pat q 0 1
reset_priv_lem_example = reset_priv_lem [] {pos = 6} {k = 0} (blocks_fit (omega arith))

read_bounds_example : (4 ≤ 5) × (5 ≡ length {A = ℕ} (replicate 5 0))
unfolding read wait_cycle fill strategy_read blocks_read block_loop write_bytes get_curr_size
    store_priv advance update_pos
read_bounds_example =
    read_bounds (replicate 5 0) (7 ∷ 7 ∷ 7 ∷ 255 ∷ 0 ∷ []) 4 4 (sample 0 0) (omega arith) refl
