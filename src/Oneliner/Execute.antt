-- ===== src/Oneliner/Execute.antt =====
-- src/modes/oneliner.rs: the run of the mode, from its factories to the end of the process.
use polysock.Base.{ℕ, ◌≡◌, refl, ◌∙◌, Bool, true, false, some, List, returns}
use polysock.Base.{ok, Error, Text, exit, Ret}
use polysock.Sock.{ComplexSock, SocketFactory}
use polysock.Sock.Manager.{new_manager, Pair, bind_unidirectional, bind_bidirectional, drop_sockets}
use polysock.Sock.Threads.{Turn, spawned, play, thread_end}
use polysock.Oneliner.{OnelinerModeParams, new_mode, started, thread_of, threads_of, start, execute}
use polysock.Oneliner.Joins.{Mode, status, both_ends, status-both, execute-started}

-- A thread that ends the process drops nothing.
pub drop_sockets-exit :
    (from to : ComplexSock) (r : Ret (from.State × to.State) (Unit {0})) {code : ℕ}
    → r.out ≡ exit code
    → ((drop_sockets from to r).out ≡ exit code) × ((drop_sockets from to r).state ≡ r.state)
drop_sockets-exit from to r e = rw e (refl, refl)

module _ {W : Type 0} (f_factory to_factory : SocketFactory W) (display : Error → Text) where
  started-returns :
      {A : Type 0} (mode : Mode f_factory to_factory display) (r : Ret W A)
      (run : A → Mode f_factory to_factory display) (pair : A)
      → r.out ≡ ok pair
      → started f_factory to_factory display mode r run ≡ returns tt (run pair, r.state) r.log
  started-returns mode r run pair e = rw (e, started)

  module _ (params : OnelinerModeParams) (fuel : ℕ) (loads : List Bool) (turns : List Turn)
      (w : W) where
    abbrev mode : Mode f_factory to_factory display
    mode = new_mode f_factory to_factory display params

    abbrev one_bound : Ret W (Pair f_factory to_factory)
    one_bound =
        bind_unidirectional (new_manager f_factory to_factory) params.f_params params.to_params
          params.blocking w

    abbrev both_bound : Ret W (Pair f_factory to_factory)
    both_bound =
        bind_bidirectional (new_manager f_factory to_factory) params.f_params params.to_params w

    pub start-one :
        (pair : Pair f_factory to_factory)
        → params.bidir ≡ false
        → one_bound.out ≡ ok pair
        → start f_factory to_factory display fuel loads turns (mode, w)
          ≡ returns tt
              (
                record mode {
                  handle1 = some (thread_of f_factory to_factory display fuel loads pair);
                  run_ctl = some true;
                },
                one_bound.state,
              )
              one_bound.log
    unfolding start
    start-one pair one e = simp one (started-returns mode one_bound _ pair e)

    start-both :
        (pair : Pair f_factory to_factory)
        → params.bidir ≡ true
        → both_bound.out ≡ ok pair
        → let threads = threads_of f_factory to_factory display fuel turns pair in
          start f_factory to_factory display fuel loads turns (mode, w)
          ≡ returns tt
              (
                record mode {
                  handle1 = some threads.0;
                  handle2 = some threads.1;
                  run_ctl = some true;
                },
                both_bound.state,
              )
              both_bound.log
    unfolding start
    start-both pair both e = simp both (started-returns mode both_bound _ pair e)

  -- Where two sockets can be bound in one direction, the process ends as their thread does: with
  -- status 1 if the thread fails or panics, and otherwise in the way of the thread.
  pub execute-status :
      (params : OnelinerModeParams) (fuel : ℕ) (loads : List Bool) (turns : List Turn) (w : W)
      (pair : Pair f_factory to_factory)
      → params.bidir ≡ false
      → (bind_unidirectional
          (new_manager f_factory to_factory)
          params.f_params
          params.to_params
          params.blocking
          w).out
        ≡ ok pair
      → (execute f_factory to_factory display fuel loads turns
          (new_mode f_factory to_factory display params, w)).out
        ≡ status (thread_of f_factory to_factory display fuel loads pair).out
  execute-status params fuel loads turns w pair one e =
      let handle = thread_of f_factory to_factory display fuel loads pair in
      execute-started f_factory to_factory display fuel loads turns
        (new_mode f_factory to_factory display params) _ w _ _ handle
        (start-one params fuel loads turns w pair one e) refl
      ∙ status-both handle.out

  -- Where two sockets can be bound in both directions, the process ends as their threads do under
  -- their schedule: in the way of a thread that ends it within the schedule; else with status 1 if the
  -- first thread has failed or panicked, and in the way of the second one after the first has ended
  -- without an error.
  pub execute-both :
      (params : OnelinerModeParams) (fuel : ℕ) (loads : List Bool) (turns : List Turn) (w : W)
      (pair : Pair f_factory to_factory)
      → params.bidir ≡ true
      → (bind_bidirectional
          (new_manager f_factory to_factory)
          params.f_params
          params.to_params
          w).out
        ≡ ok pair
      → let b =
          play f_factory.sock to_factory.sock fuel turns
            (spawned f_factory.sock to_factory.sock pair) in
        (execute f_factory to_factory display fuel loads turns
          (new_mode f_factory to_factory display params, w)).out
        ≡ status (both_ends (thread_end b.over b.point1) (thread_end b.over b.point2))
  execute-both params fuel loads turns w pair both e =
      execute-started f_factory to_factory display fuel loads turns
        (new_mode f_factory to_factory display params) _ w _ _ _
        (start-both params fuel loads turns w pair both e) refl
