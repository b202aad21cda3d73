-- ===== src/Oneliner/Ends.antt =====
-- src/modes/oneliner.rs: how the process ends, whatever becomes of the binding and its threads.
use polysock.Base.{ℕ, ◌≡◌, refl, sym, ap, ◌∙◌, Bool, true, false, List}
use polysock.Base.{Outcome, ok, err, panic, undefined, exit, no_fuel, Error, Text, Ret}
use polysock.Sock.{SocketFactory}
use polysock.Sock.Manager.{new_manager, Pair, bind_unidirectional, bind_bidirectional}
use polysock.Sock.Threads.{Turn, play, spawned, thread_end}
use polysock.Oneliner.{OnelinerModeParams, new_mode, thread_of, started, start, or_exit, execute}
use polysock.Oneliner.Joins.{status, both_ends}
use polysock.Oneliner.Execute.{execute-status, execute-both}

-- How the process ends, given what the binding returns and how its thread ends.
abbrev pub run_end : {A : Type 0} → Outcome A → (A → Outcome (Unit {0})) → Outcome (Unit {0})
run_end (ok pair) thread = status (thread pair)
run_end (err e) thread = exit 1
run_end panic thread = panic
run_end undefined thread = undefined
run_end (exit n) thread = exit n
run_end no_fuel thread = no_fuel

module _ {W : Type 0} (display : Error → Text) (params : OnelinerModeParams) (fuel : ℕ)
    (loads : List Bool) (turns : List Turn) (w : W) where
  -- The end of a run.
  abbrev pub ending : (f_factory to_factory : SocketFactory W) → Outcome (Unit {0})
  ending f_factory to_factory =
      (execute f_factory to_factory display fuel loads turns
        (new_mode f_factory to_factory display params, w)).out

  abbrev pub one_end : (f t : SocketFactory W) → Pair f t → Outcome (Unit {0})
  one_end f t pair = (thread_of f t display fuel loads pair).out

  abbrev pub two_ends : (f t : SocketFactory W) → Pair f t → Outcome (Unit {0})
  two_ends f t pair =
      let b = play f.sock t.sock fuel turns (spawned f.sock t.sock pair) in
      both_ends (thread_end b.over b.point1) (thread_end b.over b.point2)

  -- In one direction, whatever becomes of the binding and of the thread: a binding that fails ends the
  -- process with status 1, one that does not return ends it in its own way, and once the sockets are
  -- bound the process ends as the thread does, with status 1 if that fails or panics.
  pub execute-one_end :
      (f t : SocketFactory W)
      → params.bidir ≡ false
      → ending f t
        ≡ run_end
            (bind_unidirectional
              (new_manager f t)
              params.f_params
              params.to_params
              params.blocking
              w).out
            (one_end f t)
  unfolding execute start or_exit
  execute-one_end f t one = by_outcome bound.out refl
    where
      bound : Ret W (Pair f t)
      bound =
          bind_unidirectional (new_manager f t) params.f_params params.to_params params.blocking w

      by_outcome :
          (o : Outcome (Pair f t)) → bound.out ≡ o → ending f t ≡ run_end bound.out (one_end f t)
      by_outcome (ok pair) e =
          execute-status f t display params fuel loads turns w pair one e
          ∙ ap (λ o. run_end o (one_end f t)) (sym e)
      by_outcome (err x) e = simp (one, started, e, or_exit)
      by_outcome panic e = simp (one, started, e, or_exit)
      by_outcome undefined e = simp (one, started, e, or_exit)
      by_outcome (exit n) e = simp (one, started, e, or_exit)
      by_outcome no_fuel e = simp (one, started, e, or_exit)

  -- In both directions, whatever becomes of the binding and of the two threads under their schedule:
  -- a binding that fails ends the process with status 1, one that does not return ends it in its own
  -- way. Once the sockets are bound, a thread that ends the process within the schedule ends it in its
  -- way; else the process ends with status 1 if the first thread has failed or panicked, whatever the
  -- second one does, and in the way of the second one after the first has ended without an error.
  pub execute-two_ends :
      (f t : SocketFactory W)
      → params.bidir ≡ true
      → ending f t
        ≡ run_end
            (bind_bidirectional (new_manager f t) params.f_params params.to_params w).out
            (two_ends f t)
  unfolding execute start or_exit
  execute-two_ends f t both = by_outcome bound.out refl
    where
      bound : Ret W (Pair f t)
      bound = bind_bidirectional (new_manager f t) params.f_params params.to_params w

      by_outcome :
          (o : Outcome (Pair f t)) → bound.out ≡ o → ending f t ≡ run_end bound.out (two_ends f t)
      by_outcome (ok pair) e =
          execute-both f t display params fuel loads turns w pair both e
          ∙ ap (λ o. run_end o (two_ends f t)) (sym e)
      by_outcome (err x) e = simp (both, started, e, or_exit)
      by_outcome panic e = simp (both, started, e, or_exit)
      by_outcome undefined e = simp (both, started, e, or_exit)
      by_outcome (exit n) e = simp (both, started, e, or_exit)
      by_outcome no_fuel e = simp (both, started, e, or_exit)
