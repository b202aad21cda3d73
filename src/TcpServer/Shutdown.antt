-- ===== src/TcpServer/Shutdown.antt =====
-- src/sockets/tcp_server.rs and the thread of src/sock/mod.rs: a server that a thread writes to.
use polysock.Base.{
  ℕ, ◌≡◌, refl, ap, sym, ◌∙◌, Bool, false, none, inl, inr, Bool-cases, List, [], ◌∷◌, length, ltb,
}
use polysock.Base.{
  Outcome, ok, err, panic, undefined, exit, no_fuel, Event, M, Ret, after_drop, unwound, unwind,
}
use mathlib.Core.Path.{subst}
use polysock.Net.{TcpOs}
use polysock.Sock.{ComplexSock}
use polysock.Sock.Wrapper.{drop_wrapper}
use polysock.Sock.Manager.{on_from, on_to, binding_thread, drop_sockets}
use polysock.Sock.Manager.Keeps.{binding_thread-Keeps}
use polysock.TcpServer.{Client, TcpServer, write_server, accepting, tcp_server}
use polysock.TcpServer.Accept.{IsStarted, run_thread-Extends, close-empties}

-- A function has returned, with or without an error.
abbrev pub IsReturned : Outcome (Unit {0}) → Type 0
IsReturned (ok done) = Unit {0}
IsReturned (err e) = Unit {0}
IsReturned panic = ⊥
IsReturned undefined = ⊥
IsReturned (exit code) = ⊥
IsReturned no_fuel = ⊥

after_panic : (o : Outcome (Unit {0})) → ¬ IsReturned (after_drop panic o)
after_panic (ok done) h = h
after_panic (err e) h = h
after_panic panic h = h
after_panic undefined h = h
after_panic (exit code) h = h
after_panic no_fuel h = h

-- Where a function has returned, the drop has run.
unwound-returned :
    {S : Type 0} (d : M S (Unit {0})) (o : Outcome (Unit {0})) (s : S) (l : List Event)
    → IsReturned (unwound d o s l).out
    → (unwound d o s l).state ≡ (d s).state
unwound-returned d (ok done) s l h = refl
unwound-returned d (err e) s l h = refl
unwound-returned d panic s l h = absurd (after_panic (d s).out h)
unwound-returned d undefined s l h = absurd h
unwound-returned d (exit code) s l h = absurd h
unwound-returned d no_fuel s l h = absurd h

unwind-returned :
    {S : Type 0} (d : M S (Unit {0})) (r : Ret S (Unit {0}))
    → IsReturned (unwind d r).out
    → (unwind d r).state ≡ (d r.state).state
unwind-returned d r h = unwound-returned d r.out r.state r.log h

on_from-unwound :
    {S T : Type 0} (d : M S (Unit {0})) (o : Outcome (Unit {0})) (s : S) (t : T) (l : List Event)
    → (unwound (on_from d) o (s, t) l).state.1 ≡ t
on_from-unwound d (ok done) s t l = refl
on_from-unwound d (err e) s t l = refl
on_from-unwound d panic s t l = refl
on_from-unwound d undefined s t l = refl
on_from-unwound d (exit code) s t l = refl
on_from-unwound d no_fuel s t l = refl

on_from-target :
    {S T : Type 0} (d : M S (Unit {0})) (r : Ret (S × T) (Unit {0}))
    → (unwind (on_from d) r).state.1 ≡ r.state.1
on_from-target d r = on_from-unwound d r.out r.state.0 r.state.1 r.log

module _ (os : TcpOs) where
  write_server-handle :
      (buf : List ℕ) (n : ℕ) (server : TcpServer os)
      → (write_server os buf n server).state.handle ≡ server.handle
  unfolding write_server
  write_server-handle buf n server = by_clients server.clients refl
    where
      by_clients :
          (cs : List (Client os))
          → server.clients ≡ cs
          → (write_server os buf n server).state.handle ≡ server.handle
      by_clients [] e = rw (e, write_server) refl
      by_clients (cli ∷ rest) e = elim (Bool-cases (ltb (length buf) n)) [
        | inl short ↦ rw (e, write_server, short) refl
        | inr enough ↦ rw (e, write_server, enough) refl
      ]

  -- A write, and what the accepting thread does before it, leave the thread started.
  writes-IsStarted :
      (rounds : TcpServer os → ℕ) (buf : List ℕ) (n : ℕ) (server : TcpServer os)
      → IsStarted os server
      → IsStarted os (accepting os rounds (write_server os buf n) server).state
  writes-IsStarted rounds buf n server start =
      let (server', log, steps, extends) = run_thread-Extends os (rounds server) server in
      let (thread, e) = extends.started start in
      rw steps (thread, write_server-handle buf n server' ∙ e)

  abbrev closed : TcpServer os → TcpServer os
  closed server = record server { is_running = false; handle = none; clients = [] }

  -- A thread that copies to a server whose own thread has been started, and that returns, with or
  -- without an error, and drops its sockets, leaves a server that is closed: no client is left, nor
  -- the thread that accepts them, and the flag of that thread is cleared.
  pub binding_thread-shuts_down :
      (from : ComplexSock) (rounds : TcpServer os → ℕ) (pending : Bool) (fuel : ℕ)
      (loads : List Bool) (s : from.State) (server : TcpServer os)
      → IsStarted os server
      → let to = tcp_server os rounds pending in
        let r = drop_sockets from to (binding_thread from to fuel loads (s, server)) in
        IsReturned r.out
        → let end = r.state.1 in (end.clients ≡ []) × (end.handle ≡ none) × (end.is_running ≡ false)
  binding_thread-shuts_down from rounds pending fuel loads s server start returned =
      let to = tcp_server os rounds pending in
      let b = binding_thread from to fuel loads (s, server) in
      let b' = unwind (on_from (drop_wrapper from)) b in
      let r' = unwind (on_to (drop_wrapper to)) b' in
      let kept =
        binding_thread-Keeps from to (IsStarted os) (writes-IsStarted rounds) fuel loads (s, server)
          start in
      let kept' = subst (IsStarted os) (sym (on_from-target (drop_wrapper from) b)) kept in
      let (server', before, added, closes, few) =
        close-empties os rounds pending b'.state.1 kept' in
      let dropped : (drop_wrapper to b'.state.1).state ≡ closed server' =
        rw (drop_wrapper, closes) refl in
      let drops : r'.state.1 ≡ closed server' =
        ap (λ p. p.1) (unwind-returned (on_to (drop_wrapper to)) b' returned) ∙ dropped in
      (ap (λ c. c.clients) drops, ap (λ c. c.handle) drops, ap (λ c. c.is_running) drops)
