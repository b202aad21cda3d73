-- ===== src/Tests/Runs.antt =====
-- Runs of the mode of src/modes/oneliner.rs with sample factories.
use polysock.Base.{ℕ, ◌≡◌, refl, ap, ◌∙◌, true, false, List, [], ◌∷◌, Error, Text, lit, exit}
use polysock.Sock.Manager.{
  new_manager, bind_unidirectional, bind_bidirectional, binding_thread, drop_sockets,
}
use polysock.Sock.Manager.Binding.{bind_unidirectional-closes}
use polysock.Oneliner.{OnelinerModeParams, new_mode, execute}
use polysock.Sock.Threads.{Turn, first, second, clear, spawned, play, thread_end}
use polysock.Oneliner.Joins.{both_ends}
use polysock.Oneliner.Ends.{run_end, one_end, execute-one_end, execute-two_ends}
use polysock.Tests.Bindings.{loud, louds, broken}

abbrev params : OnelinerModeParams
params = record { f_params = "{}"; to_params = "{}"; bidir = false; blocking = true }

abbrev pub display : Error → Text
display e = lit "error" ∷ []

abbrev message : List ℕ
message = 7 ∷ 7 ∷ 7 ∷ 255 ∷ 255 ∷ 255 ∷ []

execute-one_end_example :
    (execute louds louds display 1 (false ∷ []) [] (new_mode louds louds display params, 0)).out
    ≡ run_end
        (bind_unidirectional (new_manager louds louds) "{}" "{}" true 0).out
        (λ pair. (drop_sockets loud loud (binding_thread loud loud 1 (false ∷ []) pair)).out)
execute-one_end_example = execute-one_end display params 1 (false ∷ []) [] 0 louds louds refl

-- The second socket cannot be created.
broken_run :
    (execute louds broken display 1 [] [] (new_mode louds broken display params, 0)).out ≡ exit 1
broken_run =
    execute-one_end display params 1 [] [] 0 louds broken refl
    ∙ ap (λ o. run_end o (one_end display params 1 [] [] 0 louds broken))
        (bind_unidirectional-closes louds broken "{}" "{}" true refl refl refl refl).0

-- A run in both directions.
abbrev both : OnelinerModeParams
both = record { f_params = "{}"; to_params = "{}"; bidir = true; blocking = true }

abbrev turns : List Turn
turns = first ∷ clear ∷ second ∷ second ∷ first ∷ second ∷ second ∷ first ∷ second ∷ []

execute-two_ends_example :
    (execute louds louds display 1 [] turns (new_mode louds louds display both, 0)).out
    ≡ run_end (bind_bidirectional (new_manager louds louds) "{}" "{}" 0).out (λ pair.
      let b = play loud loud 1 turns (spawned loud loud pair) in
      both_ends (thread_end b.over b.point1) (thread_end b.over b.point2))
execute-two_ends_example = execute-two_ends display both 1 [] turns 0 louds louds refl
