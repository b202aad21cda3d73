-- ===== src/Oneliner/Joins.antt =====
-- src/modes/oneliner.rs: how the process ends with the threads that it joins.
use polysock.Base.{
  ℕ, Option, none, some, Option-cases, inl, inr, returns, ◌≡◌, refl, ap, ◌∙◌, Bool, List,
}
use polysock.Base.{
  String, Event, Ret, chain, bind_outcome, Outcome, ok, err, panic, undefined, exit, no_fuel, Error,
  Text,
}
use polysock.Sock.{SocketFactory}
use polysock.Sock.Threads.{Turn}
use polysock.Oneliner.{OnelinerMode, Handle, start, wait, join, or_exit, execute, wait_second}

-- What the process makes of the end of the thread.
abbrev pub status : Outcome (Unit {0}) → Outcome (Unit {0})
status (ok done) = ok tt
status (err e) = exit 1
status panic = exit 1
status undefined = undefined
status (exit code) = exit code
status no_fuel = no_fuel

-- What the join makes of it, and then the command.
abbrev pub joined : Outcome (Unit {0}) → Outcome (Unit {0})
joined panic = exit 1
joined (ok done) = ok done
joined (err e) = err e
joined undefined = undefined
joined (exit code) = exit code
joined no_fuel = no_fuel

abbrev pub reported : Outcome (Unit {0}) → Outcome (Unit {0})
reported (err e) = exit 1
reported (ok done) = ok done
reported panic = panic
reported undefined = undefined
reported (exit code) = exit code
reported no_fuel = no_fuel

reported-joined : (o : Outcome (Unit {0})) → reported (joined o) ≡ status o
reported-joined (ok tt) = refl
reported-joined (err e) = refl
reported-joined panic = refl
reported-joined undefined = refl
reported-joined (exit code) = refl
reported-joined no_fuel = refl

-- The end of two threads that are joined one after the other.
abbrev pub both_ends : Outcome (Unit {0}) → Outcome (Unit {0}) → Outcome (Unit {0})
both_ends (ok done) o = o
both_ends (err e) o = err e
both_ends panic o = panic
both_ends undefined o = undefined
both_ends (exit code) o = exit code
both_ends no_fuel o = no_fuel

reported-both :
    (o o' : Outcome (Unit {0}))
    → reported (bind_outcome (joined o) (λ done. joined o')) ≡ status (both_ends o o')
reported-both (ok done) o' = reported-joined o'
reported-both (err e) o' = refl
reported-both panic o' = refl
reported-both undefined o' = refl
reported-both (exit code) o' = refl
reported-both no_fuel o' = refl

pub status-both : (o : Outcome (Unit {0})) → status (both_ends o (ok tt)) ≡ status o
status-both (ok done) = refl
status-both (err e) = refl
status-both panic = refl
status-both undefined = refl
status-both (exit code) = refl
status-both no_fuel = refl

chain-out :
    {S A B : Type 0} (o : Outcome A) (s : S) (l : List Event) (f : A → S → Ret S B) (o' : Outcome B)
    → ((a : A) → (f a s).out ≡ o')
    → (chain o s l f).out ≡ bind_outcome o (λ a. o')
chain-out (ok a) s l f o' h = h a
chain-out (err e) s l f o' h = refl
chain-out panic s l f o' h = refl
chain-out undefined s l f o' h = refl
chain-out (exit code) s l f o' h = refl
chain-out no_fuel s l f o' h = refl

module _ {W : Type 0} (f_factory to_factory : SocketFactory W) (display : Error → Text) where
  abbrev pub Mode : Type 0
  Mode = OnelinerMode f_factory to_factory display

  or_exit-out :
      (message : String) (r : Ret (Mode × W) (Unit {0}))
      → (or_exit f_factory to_factory display message r).out ≡ reported r.out
  unfolding or_exit
  or_exit-out message r = go r.out refl
    where
      go :
          (o : Outcome (Unit {0}))
          → r.out ≡ o
          → (or_exit f_factory to_factory display message r).out ≡ reported o
      go (ok done) e = rw (e, or_exit) e
      go (err x) e = rw (e, or_exit)
      go panic e = rw (e, or_exit) e
      go undefined e = rw (e, or_exit) e
      go (exit code) e = rw (e, or_exit) e
      go no_fuel e = rw (e, or_exit) e

  join-out :
      (handle : Handle f_factory to_factory display) (s : Mode × W)
      → (join f_factory to_factory display handle s).out ≡ joined handle.out
  unfolding join
  join-out handle s = go handle.out refl
    where
      go :
          (o : Outcome (Unit {0}))
          → handle.out ≡ o
          → (join f_factory to_factory display handle s).out ≡ joined o
      go (ok done) e = rw (e, join) e
      go (err x) e = rw (e, join) e
      go panic e = rw (e, join)
      go undefined e = rw (e, join) e
      go (exit code) e = rw (e, join) e
      go no_fuel e = rw (e, join) e

  join-state :
      (handle : Handle f_factory to_factory display) (s : Mode × W)
      → (join f_factory to_factory display handle s).state ≡ s
  unfolding join
  join-state handle s = go handle.out refl
    where
      go :
          (o : Outcome (Unit {0}))
          → handle.out ≡ o
          → (join f_factory to_factory display handle s).state ≡ s
      go (ok done) e = rw (e, join)
      go (err x) e = rw (e, join)
      go panic e = rw (e, join)
      go undefined e = rw (e, join)
      go (exit code) e = rw (e, join)
      go no_fuel e = rw (e, join)

  -- The end of a second thread, if there is one.
  abbrev pub second_end : Option (Handle f_factory to_factory display) → Outcome (Unit {0})
  second_end none = ok tt
  second_end (some handle) = handle.out

  wait_second-out :
      (mode : Mode) (w : W)
      → (wait_second f_factory to_factory display (mode, w)).out ≡ joined (second_end mode.handle2)
  unfolding wait_second
  wait_second-out mode w = elim (Option-cases mode.handle2) [
    | inl e ↦ rw e
    | inr (handle, e) ↦ rw e (join-out handle _)
  ]

  wait-out :
      (mode : Mode) (w : W) (handle : Handle f_factory to_factory display)
      → mode.handle1 ≡ some handle
      → (wait f_factory to_factory display (mode, w)).out
        ≡ bind_outcome (joined handle.out) (λ done. joined (second_end mode.handle2))
  unfolding wait
  wait-out mode w handle e =
      let s : Mode × W = (record mode { handle1 = none }, w) in
      let r = join f_factory to_factory display handle s in
      rw (e, wait)
        (chain-out r.out r.state r.log (λ done. wait_second f_factory to_factory display)
            (joined (second_end mode.handle2))
            (λ done. rw (join-state handle s) (wait_second-out (record mode { handle1 = none }) w))
          ∙ ap (λ o. bind_outcome o (λ done. joined (second_end mode.handle2))) (join-out handle s))

  -- The end of the process, once the threads have been started.
  pub execute-started :
      (fuel : ℕ) (loads : List Bool) (turns : List Turn) (mode mode' : Mode) (w w' : W)
      (l : List Event) (handle : Handle f_factory to_factory display)
      → start f_factory to_factory display fuel loads turns (mode, w) ≡ returns tt (mode', w') l
      → mode'.handle1 ≡ some handle
      → (execute f_factory to_factory display fuel loads turns (mode, w)).out
        ≡ status (both_ends handle.out (second_end mode'.handle2))
  unfolding execute or_exit
  execute-started fuel loads turns mode mode' w w' l handle e h = rw e (
      or_exit-out "Thread finished with error: " (wait f_factory to_factory display (mode', w'))
      ∙ ap reported (wait-out mode' w' handle h)
      ∙ reported-both handle.out (second_end mode'.handle2))
