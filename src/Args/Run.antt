-- ===== src/Args/Run.antt =====
-- src/main.rs and src/args.rs: runs of the program from its command line to its end.
use polysock.Base.{
  ℕ, ◌+◌, ◌/◌, ◌%◌, ◌^◌, ◌≤◌, ◌<◌, ◌≡◌, refl, sym, ap, ◌∙◌, Bool, true, false, some, List, ◌∷◌,
  ◌++◌, replicate, length,
}
use mathlib.Core.Bool.{false≢true}
use polysock.Base.{exit, Event, returns}
use polysock.Sock.{SocketFactory, parsed}
use polysock.Sock.Manager.Copies.{Accepts}
use polysock.Sock.Decorators.{Prints}
use polysock.Sock.Decorators.Simulation.{KeepsBuffer}
use polysock.Sock.Threads.{Turn}
use polysock.TestGen.{TestGenConfig}
use polysock.TestGen.Factory.{test_gen_doc}
use polysock.TestGen.Pattern.{iteration}
use polysock.TestGen.Created.{Serves}
use polysock.TestGen.Pump.{iterations}
use polysock.TestGen.Bounds.{test_gen-KeepsBuffer}
use polysock.Oneliner.Generate.{execute-generates}
use polysock.Oneliner.Ends.{ending}
use polysock.Args.{OnelinerArgs, unidir, oneliner, PolySockArgs, from_factory, to_factory}
use polysock.Args.Factories.{Environment, Ids, factory_map, test_gens}
use polysock.Args.Scenario.{
  mode_params, get_oneliner_command, get_scenario, is_bidir, run_command, main, unwrap_or_default,
}
use polysock.Args.Traced.{flags-ending}
use polysock.Args.Delivered.{Started, inside, flags-Leaves, Leaves-Started}

-- The command line of the one-liner mode.
abbrev pub oneliner_line : OnelinerArgs → PolySockArgs
oneliner_line args = record { command = some (oneliner args) }

abbrev pub no_traces : OnelinerArgs → OnelinerArgs
no_traces args = record args { trace_info = false; trace_raw = false; trace_canon = false }

module _ (env : Environment) (fuel : ℕ) (loads : List Bool) (turns : List Turn) (ids : Ids) where
  main-command :
      (args : OnelinerArgs) (f t : SocketFactory Ids)
      → factory_map env args.from_dev ≡ some f
      → factory_map env args.to_dev ≡ some t
      → main env fuel loads turns (oneliner_line args) ids
        ≡ run_command env fuel loads turns
            (from_factory env.stdout args f)
            (to_factory env.stdout args t)
            (mode_params args)
            ids
  unfolding main get_scenario get_oneliner_command
  main-command args f t e e' = rw (e, e') refl

  main-ending :
      (args : OnelinerArgs) (f t : SocketFactory Ids)
      → factory_map env args.from_dev ≡ some f
      → factory_map env args.to_dev ≡ some t
      → Prints env.stdout
      → KeepsBuffer f.sock
      → (is_bidir args.exchange_mode ≡ true → KeepsBuffer t.sock)
      → (main env fuel loads turns (oneliner_line args) ids).out
        ≡ ending env.display (mode_params args) fuel loads turns ids f t
  unfolding run_command
  main-ending args f t e e' prints keeps keeps' =
      ap (λ r. r.out) (main-command args f t e e')
      ∙ flags-ending env.display (mode_params args) fuel loads turns ids env.stdout prints args f t
          keeps keeps'

  -- While the standard output takes every line that is printed, the tracing flags of the one-liner
  -- mode do not change how the program ends: with the sockets
  -- bound in one direction or in both, under any schedule of the threads, with both devices known,
  -- and with reads of the sockets that are read which keep the length of a buffer that has room for
  -- them and return no more than that length, a run ends as it does without traces.
  pub main-traced :
      (args : OnelinerArgs) (f t : SocketFactory Ids)
      → factory_map env args.from_dev ≡ some f
      → factory_map env args.to_dev ≡ some t
      → Prints env.stdout
      → KeepsBuffer f.sock
      → (is_bidir args.exchange_mode ≡ true → KeepsBuffer t.sock)
      → (main env fuel loads turns (oneliner_line args) ids).out
        ≡ (main env fuel loads turns (oneliner_line (no_traces args)) ids).out
  main-traced args f t e e' prints keeps keeps' =
      main-ending args f t e e' prints keeps keeps'
      ∙ sym (main-ending (no_traces args) f t e e' prints keeps keeps')

test_gen_found : (env : Environment) → factory_map env "test-gen" ≡ some (test_gens env)
unfolding factory_map
test_gen_found env = refl

-- A run of the program in the one-liner mode, in one direction, from the test generator to a device
-- that is known, can be created and opened and accepts the messages: with a configuration that the
-- generator can serve, whose pattern fits into memory, a limit of iterations, the flag set until
-- then, a standard output that takes every line, and fuel for each chunk of an iteration, whatever
-- is traced, the program ends with status 0, and the thread that it starts has given the device, as
-- it is inside its decorators, exactly the configured iterations, one message each and in order.
pub main-generates :
    (env : Environment) (args : OnelinerArgs) (to : SocketFactory Ids) (cfg : TestGenConfig)
    (content : List ℕ) (ids ids' : Ids) (limit fuel : ℕ) (loads : List Bool) (turns : List Turn)
    (t t' end : to.sock.State) (l4 l5 : List Event)
    → Prints env.stdout
    → args.exchange_mode ≡ unidir
    → args.from_dev ≡ "test-gen"
    → factory_map env args.to_dev ≡ some to
    → env.parse_test_gen (unwrap_or_default args.from_params) ≡ parsed cfg
    → Serves env.read_to_string cfg.pat content
    → cfg.iter_num ≡ some limit
    → limit + 1 < 2 ^ 64
    → length (iteration cfg.pat content 0) < 2 ^ 64
    → length (iteration cfg.pat content 0) / 1024 + 1 ≤ fuel
    → to.create_sock
        (unwrap_or_default args.to_params)
        (record ids { test_gen_id = (ids.test_gen_id + 1) % 2 ^ 32 })
      ≡ returns t ids' l4
    → to.sock.open_sock t ≡ returns tt t' l5
    → Accepts to.sock end t' (iterations cfg.pat content 0 limit)
    → let flags = replicate limit true ++ (true ∷ loads) in
      Started env.display
        (mode_params args)
        fuel
        flags
        turns
        ids
        (from_factory env.stdout args (test_gens env))
        (to_factory env.stdout args to)
        (inside env.stdout args to)
        end
      × ((main env fuel flags turns (oneliner_line args) ids).out ≡ exit 0)
main-generates env args to cfg content ids ids' limit fuel loads turns t t' end l4 l5 prints one
      source found parses serves limited small fits enough creates opens accepts =
    let flags = replicate limit true ++ (true ∷ loads) in
    let (g, bound, gives, ends) =
      execute-generates (λ i. i.test_gen_id) (λ n i. record i { test_gen_id = n })
        env.read_to_string env.parse_test_gen (test_gen_doc env.test_gen_schema) to env.display
        (mode_params args) cfg content ids ids' limit fuel loads turns t t' end l4 l5
        (ap is_bidir one) parses serves limited small fits enough creates opens accepts in
    let leaves =
      flags-Leaves env.display (mode_params args) fuel flags ids env.stdout prints args
        (test_gens env) to (λ s. s) end test_gen-KeepsBuffer ((g, t'), bound, gives) in
    (
      Leaves-Started env.display (mode_params args) fuel flags turns ids
          (from_factory env.stdout args (test_gens env)) (to_factory env.stdout args to)
          (inside env.stdout args to) end (ap is_bidir one) leaves,
      main-ending env fuel flags turns ids args (test_gens env) to
            (ap (factory_map env) source ∙ test_gen_found env) found prints test_gen-KeepsBuffer
            (λ both. absurd (false≢true (sym (ap is_bidir one) ∙ both)))
          ∙ ends,
    )
