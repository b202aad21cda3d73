-- ===== src/Oneliner.antt =====
-- src/modes/oneliner.rs: the mode that the command line runs.
pub mod Joins
pub mod Execute
pub mod Ends
pub mod Traced
pub mod Generate
use polysock.Base.{ℕ, Bool, true, false, String, Option, none, some, List, [], ◌∷◌, ◌++◌}
use polysock.Base.{
  Outcome, ok, err, panic, undefined, exit, no_fuel, M, Ret, from_kind, invalid_data, Error,
  eprintln, Text, lit, lift, pure, ◌>>=◌, ◌>>◌, returns,
}
use polysock.Sock.{SocketFactory, SocketParams}
use polysock.Sock.Manager.{
  new_manager, Pair, bind_unidirectional, bind_bidirectional, binding_thread, drop_sockets,
}
use polysock.Sock.Threads.{Turn, Binding, spawned, play, thread_end}

pub record OnelinerModeParams : Type 0 where
  pub f_params : SocketParams
  pub to_params : SocketParams
  pub bidir : Bool
  pub blocking : Bool

-- What the builder takes for a field that is not set.
abbrev pub builder_default : OnelinerModeParams
builder_default = record { f_params = ""; to_params = ""; bidir = false; blocking = true }

-- The message of an error, which the standard library writes.
module _ {W : Type 0} (f_factory to_factory : SocketFactory W) (display : Error → Text) where
  -- A `JoinHandle` is the run of its thread.
  abbrev pub Handle : Type 0
  Handle = Ret (Pair f_factory to_factory) (Unit {0})

  pub record OnelinerMode : Type 0 where
    pub params : OnelinerModeParams
    pub handle1 : Option Handle
    pub handle2 : Option Handle
    pub run_ctl : Option Bool

  abbrev pub new_mode : OnelinerModeParams → OnelinerMode
  new_mode params = record { params = params; handle1 = none; handle2 = none; run_ctl = none }

  -- The thread of the two sockets, given its fuel and what its loads of the flag return. Its end
  -- drops the sockets, which closes them.
  abbrev pub thread_of : ℕ → List Bool → Pair f_factory to_factory → Handle
  thread_of fuel loads pair =
      drop_sockets f_factory.sock to_factory.sock
        (binding_thread f_factory.sock to_factory.sock fuel loads pair)

  -- The two threads of a binding in both directions, after the turns that they are given. What they
  -- let the outside see stands with the first one.
  abbrev pub first_of : Binding f_factory.sock to_factory.sock → Handle
  first_of b = record {
    out = thread_end b.over b.point1;
    state = (b.left.inner, b.right.inner);
    log = b.log;
  }

  abbrev pub second_of : Binding f_factory.sock to_factory.sock → Handle
  second_of b = record {
    out = thread_end b.over b.point2;
    state = (b.left.inner, b.right.inner);
    log = [];
  }

  abbrev pub threads_of : ℕ → List Turn → Pair f_factory to_factory → Handle × Handle
  threads_of fuel turns pair =
      let b =
        play f_factory.sock to_factory.sock fuel turns
          (spawned f_factory.sock to_factory.sock pair) in
      (first_of b, second_of b)

  -- What `start` makes of the sockets of a binding: the mode with its threads, or the failure.
  abbrev pub started :
      {A : Type 0} → OnelinerMode → Ret W A → (A → OnelinerMode) → Ret (OnelinerMode × W) (Unit {0})
  started mode r run = elim r.out [
    | ok pair ↦ returns tt (run pair, r.state) r.log
    | err e ↦ record { out = err e; state = (mode, r.state); log = r.log }
    | panic ↦ record { out = panic; state = (mode, r.state); log = r.log }
    | undefined ↦ record { out = undefined; state = (mode, r.state); log = r.log }
    | exit code ↦ record { out = exit code; state = (mode, r.state); log = r.log }
    | no_fuel ↦ record { out = no_fuel; state = (mode, r.state); log = r.log }
  ]

  -- `start`, given what the loads of the flag return to a single thread, or the turns of two.
  unfoldable pub start : ℕ → List Bool → List Turn → M (OnelinerMode × W) (Unit {0})
  start fuel loads turns (mode, w) =
      let params = mode.params in
      elim params.bidir [
        | false ↦
            let r =
              bind_unidirectional (new_manager f_factory to_factory) params.f_params
                params.to_params params.blocking w in
            started mode r (λ pair. record mode {
              handle1 = some (thread_of fuel loads pair);
              run_ctl = some true;
            })
        | true ↦
            let r =
              bind_bidirectional (new_manager f_factory to_factory) params.f_params params.to_params
                w in
            started mode r (λ pair. record mode {
              handle1 = some (threads_of fuel turns pair).0;
              handle2 = some (threads_of fuel turns pair).1;
              run_ctl = some true;
            })
      ]

  -- `join` of a thread: a panic of the thread ends the process.
  unfoldable pub join : Handle → M (OnelinerMode × W) (Unit {0})
  join handle s = elim handle.out [
    | panic ↦ record {
      out = exit 1;
      state = s;
      log = handle.log ++ (eprintln (lit "Unexpected error while joining thread!" ∷ []) ∷ []);
    }
    | other ↦ record { out = handle.out; state = s; log = handle.log }
  ]

  -- The second half of `wait`, which has nothing to do where there is one thread.
  unfoldable pub wait_second : M (OnelinerMode × W) (Unit {0})
  wait_second (mode, w) = elim mode.handle2 [
    | none ↦ pure tt (mode, w)
    | some handle ↦ join handle (record mode { handle2 = none }, w)
  ]

  unfoldable pub wait : M (OnelinerMode × W) (Unit {0})
  wait (mode, w) = elim mode.handle1 [
    | none ↦ lift (err (from_kind invalid_data)) (mode, w)
    | some handle ↦ (join handle >> wait_second) (record mode { handle1 = none }, w)
  ]

  unfoldable pub stop : M (OnelinerMode × W) (Unit {0})
  stop (mode, w) = elim mode.run_ctl [
    | none ↦ lift (err (from_kind invalid_data)) (mode, w)
    | some flag ↦ pure tt (record mode { run_ctl = none }, w)
  ]

  -- A failure ends the process with status 1, behind a line that says why.
  unfoldable pub or_exit :
      String → Ret (OnelinerMode × W) (Unit {0}) → Ret (OnelinerMode × W) (Unit {0})
  or_exit message r = elim r.out [
    | err e ↦ record r { out = exit 1; log = r.log ++ (eprintln (lit message ∷ display e) ∷ []) }
    | other ↦ r
  ]

  -- `OnelinerModeCommand::execute`
  unfoldable pub execute : ℕ → List Bool → List Turn → M (OnelinerMode × W) (Unit {0})
  execute fuel loads turns =
      (λ s. or_exit "Error during start oneliner task: " (start fuel loads turns s))
      >>= λ started s. or_exit "Thread finished with error: " (wait s)
