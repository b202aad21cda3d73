-- ===== src/Args/Traced.antt =====
-- src/args.rs: the tracing flags and the end of a run.
use polysock.Base.{ℕ, ◌≡◌, refl, ◌∙◌, Bool, true, false, List, Outcome, Error, Text, if◌then◌else◌}
use polysock.Sock.{SocketFactory}
use polysock.Sock.Decorators.{
  Prints, stdout_of, Decorator, trace_info, trace_raw, trace_canonical, decorator_factory,
}
use polysock.Sock.Decorators.Simulation.{KeepsBuffer}
use polysock.Sock.Decorators.Transparent.{decorator-KeepsBuffer}
use polysock.Sock.Threads.{Turn}
use polysock.Oneliner.{OnelinerModeParams}
use polysock.Oneliner.Ends.{ending}
use polysock.Oneliner.Traced.{ending-from_decorated, ending-to_decorated}
use polysock.Args.{OnelinerArgs, set_decorators, from_factory, to_factory}

module _ {W : Type 0} (display : Error → Text) (params : OnelinerModeParams) (fuel : ℕ)
    (loads : List Bool) (turns : List Turn) (w : W) (stdout : Text → Bool)
    (prints : Prints stdout) where
  abbrev end_of : (f t : SocketFactory W) → Outcome (Unit {0})
  end_of = ending display params fuel loads turns w

  -- One flag more or less.
  flag-from :
      (b : Bool) (d : Decorator) (f t : SocketFactory W)
      → Prints (stdout_of d)
      → KeepsBuffer f.sock
      → let f' = if b then decorator_factory d f else f in
        (end_of f' t ≡ end_of f t) × KeepsBuffer f'.sock
  flag-from true d f t shows keeps = (
    ending-from_decorated display params fuel loads turns w d shows f t keeps,
    decorator-KeepsBuffer d shows f.sock keeps,
  )
  flag-from false d f t shows keeps = (refl, keeps)

  -- What a second socket has to satisfy, which is only read in a run in both directions.
  abbrev KeepsIfRead : SocketFactory W → Type 0
  KeepsIfRead t = params.bidir ≡ true → KeepsBuffer t.sock

  flag-to :
      (b : Bool) (d : Decorator) (f t : SocketFactory W)
      → Prints (stdout_of d)
      → KeepsIfRead t
      → let t' = if b then decorator_factory d t else t in
        (end_of f t' ≡ end_of f t) × KeepsIfRead t'
  flag-to true d f t shows keeps = (
    ending-to_decorated display params fuel loads turns w d shows f t keeps,
    λ both. decorator-KeepsBuffer d shows t.sock (keeps both),
  )
  flag-to false d f t shows keeps = (refl, keeps)

  set_decorators-from :
      (args : OnelinerArgs) (f t : SocketFactory W)
      → KeepsBuffer f.sock
      → end_of (set_decorators stdout args f) t ≡ end_of f t
  set_decorators-from args f t keeps =
      let f1 = if args.trace_info then decorator_factory (trace_info stdout) f else f in
      let f2 = if args.trace_raw then decorator_factory (trace_raw stdout) f1 else f1 in
      let (e1, k1) = flag-from args.trace_info (trace_info stdout) f t prints keeps in
      let (e2, k2) = flag-from args.trace_raw (trace_raw stdout) f1 t prints k1 in
      let (e3, k3) = flag-from args.trace_canon (trace_canonical stdout) f2 t prints k2 in
      e3 ∙ e2 ∙ e1

  set_decorators-to :
      (args : OnelinerArgs) (f t : SocketFactory W)
      → KeepsIfRead t
      → end_of f (set_decorators stdout args t) ≡ end_of f t
  set_decorators-to args f t keeps =
      let t1 = if args.trace_info then decorator_factory (trace_info stdout) t else t in
      let t2 = if args.trace_raw then decorator_factory (trace_raw stdout) t1 else t1 in
      let (e1, k1) = flag-to args.trace_info (trace_info stdout) f t prints keeps in
      let (e2, k2) = flag-to args.trace_raw (trace_raw stdout) f t1 prints k1 in
      let (e3, k3) = flag-to args.trace_canon (trace_canonical stdout) f t2 prints k2 in
      e3 ∙ e2 ∙ e1

  off-from :
      (off : Bool) (args : OnelinerArgs) (f t : SocketFactory W)
      → KeepsBuffer f.sock
      → end_of (if off then f else set_decorators stdout args f) t ≡ end_of f t
  off-from true args f t keeps = refl
  off-from false args f t keeps = set_decorators-from args f t keeps

  off-to :
      (off : Bool) (args : OnelinerArgs) (f t : SocketFactory W)
      → KeepsIfRead t
      → end_of f (if off then t else set_decorators stdout args t) ≡ end_of f t
  off-to true args f t keeps = refl
  off-to false args f t keeps = set_decorators-to args f t keeps

  -- The factories that the flags choose end a run as the plain ones do.
  pub flags-ending :
      (args : OnelinerArgs) (f t : SocketFactory W)
      → KeepsBuffer f.sock
      → (params.bidir ≡ true → KeepsBuffer t.sock)
      → end_of (from_factory stdout args f) (to_factory stdout args t) ≡ end_of f t
  flags-ending args f t keeps keeps' =
      off-from args.trace_from_off args f (to_factory stdout args t) keeps
      ∙ off-to args.trace_to_off args f t keeps'
