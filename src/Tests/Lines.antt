-- ===== src/Tests/Lines.antt =====
-- Command lines of src/args.rs, run in a sample environment.
use polysock.Base.{
  ℕ, ◌≡◌, refl, String, true, false, none, some, List, [], ◌∷◌, ◌++◌, replicate, arith,
}
use polysock.Base.{panic, exit, lit, returns, println, eprintln}
use polysock.Sock.{Parsed, rejected}
use polysock.Sock.Manager.Copies.{accept, none_left}
use polysock.TestGen.Bounds.{test_gen-KeepsBuffer}
use polysock.Terminal.Socket.{default, write_terminal}
use polysock.Args.{info, repl}
use polysock.Args.Factories.{Environment, Ids, factory_map, terminals, test_gens}
use polysock.Args.Scenario.{mode_params, get_oneliner_command, get_scenario, print_info, main}
use polysock.Args.Delivered.{Started, inside}
use polysock.Args.Run.{oneliner_line, no_traces, main-traced, main-generates}
use polysock.Sock.Threads.{Turn, first, second, clear}
use polysock.Args.{OnelinerArgs, bidir, from_factory, to_factory}
use polysock.Tests.Samples.{every_line, two_blocks, empty_files, parse_as}
use polysock.Tests.Sockets.{datagrams}
use polysock.Tests.Servers.{queues}
use polysock.Tests.Terminals.{typing, idle_terminal}
use polysock.Tests.Runs.{display}
use polysock.Tests.Flags.{sample_args}

abbrev reject : {A : Type 0} → String → Parsed A
reject params = rejected (lit "no configuration" ∷ [])

abbrev sample_env : Environment
sample_env = record {
  udp_os = datagrams;
  tcp_os = queues;
  console = typing [];
  console_state = [];
  rounds = λ server. 0;
  pending = false;
  stdout = every_line;
  read_to_string = empty_files;
  parse_udp = reject;
  parse_client = reject;
  parse_server = reject;
  parse_test_gen = parse_as two_blocks;
  udp_schema = lit "udp" ∷ [];
  client_schema = lit "client" ∷ [];
  server_schema = lit "server" ∷ [];
  test_gen_schema = lit "test-gen" ∷ [];
  display = display;
}

abbrev no_ids : Ids
no_ids = record { udp_id = 0; stdio_id = 0; client_id = 0; server_id = 0; test_gen_id = 0 }

stdio_found : factory_map sample_env "stdio" ≡ some (terminals sample_env)
unfolding factory_map
stdio_found = refl

test_gen_there : factory_map sample_env "test-gen" ≡ some (test_gens sample_env)
unfolding factory_map
test_gen_there = refl

-- An unknown device ends the program, and so does no subcommand.
unknown_device :
    main sample_env 1 [] [] (oneliner_line (record sample_args { to_dev = "udp6" })) no_ids
    ≡ record {
      out = exit 1;
      state = no_ids;
      log = eprintln (lit "Socket type " ∷ lit "udp6" ∷ lit " not found! Exiting..." ∷ []) ∷ [];
    }
unfolding main get_scenario get_oneliner_command factory_map
unknown_device = refl

no_command : (main sample_env 1 [] [] (record { command = none }) no_ids).out ≡ exit 1
unfolding main get_scenario
no_command = refl

repl_panics : (main sample_env 1 [] [] (record { command = some repl }) no_ids).out ≡ panic
unfolding main get_scenario
repl_panics = refl

stdio_info :
    main sample_env 1 [] []
      (record {
        command = some (info (record { ty = "stdio"; no_schema = true; no_examples = false }));
      })
      no_ids
    ≡ record {
      out = exit 0;
      state = no_ids;
      log =
          println (
            lit
              "This is information about socket parameters, which passed to --to-params & --from-params:"
            ∷ [])
          ∷ println (lit "Examples:" ∷ [])
          ∷ println (lit "Examples not provided" ∷ [])
          ∷ [];
    }
unfolding main get_scenario print_info factory_map
stdio_info = refl

-- Two generators that are bound in both directions.
abbrev both_args : OnelinerArgs
both_args = record sample_args { exchange_mode = bidir; to_dev = "test-gen"; to_params = some "{}" }

abbrev schedule : List Turn
schedule = first ∷ first ∷ second ∷ clear ∷ first ∷ []

main-traced_example :
    (main sample_env 1 [] schedule (oneliner_line both_args) no_ids).out
    ≡ (main sample_env 1 [] schedule (oneliner_line (no_traces both_args)) no_ids).out
main-traced_example =
    main-traced sample_env 1 [] schedule no_ids both_args (test_gens sample_env)
      (test_gens sample_env) test_gen_there test_gen_there (λ line. refl) test_gen-KeepsBuffer
      (λ both. test_gen-KeepsBuffer)

abbrev made : Ids
made = record no_ids { stdio_id = 1; test_gen_id = 1 }

created :
    (terminals sample_env).create_sock "" (record no_ids { test_gen_id = 1 })
    ≡ returns (idle_terminal []) made []
unfolding default
created = refl

abbrev message : List ℕ
message = 7 ∷ 7 ∷ 7 ∷ 255 ∷ 255 ∷ 255 ∷ []

printed : write_terminal (typing []) message 6 (idle_terminal []) ≡ returns tt (idle_terminal []) []
unfolding write_terminal
printed = refl

main-generates_example :
    let flags = replicate 2 true ++ (true ∷ []) in
    Started display
      (mode_params sample_args)
      1
      flags
      []
      no_ids
      (from_factory every_line sample_args (test_gens sample_env))
      (to_factory every_line sample_args (terminals sample_env))
      (inside every_line sample_args (terminals sample_env))
      (idle_terminal [])
    × ((main sample_env 1 flags [] (oneliner_line sample_args) no_ids).out ≡ exit 0)
main-generates_example =
    main-generates sample_env sample_args (terminals sample_env) two_blocks [] no_ids made 2 1 [] []
      (idle_terminal []) (idle_terminal []) (idle_terminal []) [] [] (λ line. refl) refl refl
      stdio_found refl (omega arith, omega arith) refl (omega arith) (omega arith) (omega arith)
      created refl (accept printed (accept printed none_left))
