-- ===== src/Args/Scenario.antt =====
-- src/args.rs, `PolySockArgs`, and src/main.rs: from the command line to the command, and its run.
use polysock.Base.{ℕ, String, Bool, true, false, Option, none, some, List, [], ◌∷◌, if◌then◌else◌}
use polysock.Base.{panic, exit, M, println, eprintln, emit, lit, lift, pure, ◌>>◌}
use polysock.Sock.{SocketFactory, SocketParams}
use polysock.Sock.Threads.{Turn}
use polysock.Oneliner.{OnelinerModeParams, builder_default, new_mode, execute}
use polysock.Args.{
  ExchangeMode, unidir, bidir, OnelinerArgs, InfoArgs, oneliner, info, script, repl, PolySockArgs,
  from_factory, to_factory,
}
use polysock.Args.Factories.{Environment, Ids, factory_map}

-- `unwrap_or_default` of the parameters, and `matches!(.., ExchangeMode::Bidir)`.
abbrev pub unwrap_or_default : Option SocketParams → SocketParams
unwrap_or_default none = ""
unwrap_or_default (some params) = params

abbrev pub is_bidir : ExchangeMode → Bool
is_bidir unidir = false
is_bidir bidir = true

-- The parameters that the builder makes of the arguments; all of them are set.
abbrev pub mode_params : OnelinerArgs → OnelinerModeParams
mode_params args = record builder_default {
  f_params = unwrap_or_default args.from_params;
  to_params = unwrap_or_default args.to_params;
  bidir = is_bidir args.exchange_mode;
  blocking = args.blocking;
}

-- The rest of the program, given the factories and the parameters of a mode: it takes the command.
abbrev pub Rest : Type 1
Rest = (f_factory to_factory : SocketFactory Ids) → OnelinerModeParams → M Ids (Unit {0})

abbrev pub not_found : String → M Ids (Unit {0})
not_found dev =
    emit (eprintln (lit "Socket type " ∷ lit dev ∷ lit " not found! Exiting..." ∷ []))
    >> lift (exit 1)

module _ (env : Environment) where
  -- The lookup of a device, and what follows for its factory.
  abbrev pub with_factory :
      String
      → Option (SocketFactory Ids)
      → (SocketFactory Ids → M Ids (Unit {0}))
      → M Ids (Unit {0})
  with_factory dev none command = not_found dev
  with_factory dev (some factory) command = command factory

  -- `get_oneliner_command`, up to the command that it returns, which `command` runs.
  unfoldable pub get_oneliner_command : OnelinerArgs → Rest → M Ids (Unit {0})
  get_oneliner_command args command =
      with_factory args.from_dev (factory_map env args.from_dev) (λ f.
        with_factory args.to_dev (factory_map env args.to_dev) (λ t.
          command (from_factory env.stdout args f) (to_factory env.stdout args t)
            (mode_params args)))

  -- `print_info`; a type of socket that is not there is an `unwrap` of `None`.
  abbrev pub print_doc : InfoArgs → Option (SocketFactory Ids) → M Ids (Unit {0})
  print_doc args none = lift panic
  print_doc args (some factory) = do
    let viewer = factory.create_doc_viewer
    emit (
        println (
          lit
            "This is information about socket parameters, which passed to --to-params & --from-params:"
          ∷ []))
    (if args.no_schema then pure tt else (do
      emit (println (lit "JSON schema of parameter structure:" ∷ []))
      emit (println viewer.get_full_scheme)))
    (if args.no_examples
        then pure tt
        else (do emit (println (lit "Examples:" ∷ [])); emit (println viewer.get_examples)))

  unfoldable pub print_info : InfoArgs → M Ids (Unit {0})
  print_info args = print_doc args (factory_map env args.ty)

  -- `get_scenario`
  unfoldable pub get_scenario : PolySockArgs → Rest → M Ids (Unit {0})
  get_scenario args command = elim args.command [
    | none ↦
        emit
          (eprintln (lit "Default command line parameters or subcommands are not provided!" ∷ []))
        >> lift (exit 1)
    | some (oneliner oneliner_args) ↦ get_oneliner_command oneliner_args command
    | some (info info_args) ↦ print_info info_args >> lift (exit 0)
    | some repl ↦ lift panic
    | some script ↦ lift panic
  ]

  -- `OnelinerModeCommand::new(OnelinerMode::new(..)).execute()`, given what the loads of the flag
  -- return to a single thread, or the turns of two.
  unfoldable pub run_command : ℕ → List Bool → List Turn → Rest
  run_command fuel loads turns f t params ids =
      let r = execute f t env.display fuel loads turns (new_mode f t env.display params, ids) in
      record { out = r.out; state = r.state.1; log = r.log }

  -- `main`
  unfoldable pub main : ℕ → List Bool → List Turn → PolySockArgs → M Ids (Unit {0})
  main fuel loads turns args = get_scenario args (run_command fuel loads turns)
