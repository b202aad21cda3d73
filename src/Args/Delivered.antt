-- ===== src/Args/Delivered.antt =====
-- src/args.rs: the tracing flags and the sockets that a run in one direction leaves.
use polysock.Base.{ℕ, ◌≡◌, ap, Bool, true, false, some, List, Error, Text, if◌then◌else◌}
use polysock.Sock.{SocketFactory}
use polysock.Sock.Decorators.{
  Prints, stdout_of, Decorator, trace_info, trace_raw, trace_canonical, decorator_factory,
}
use polysock.Sock.Decorators.Simulation.{KeepsBuffer}
use polysock.Sock.Decorators.Transparent.{decorator-KeepsBuffer}
use polysock.Sock.Threads.{Turn}
use polysock.Oneliner.{OnelinerModeParams, Handle, new_mode, start}
use polysock.Oneliner.Execute.{start-one}
use polysock.Oneliner.Traced.{Leaves, Leaves-from_decorated, Leaves-to_decorated}
use polysock.Args.{OnelinerArgs, set_decorators, from_factory, to_factory}

module _ {W : Type 0} where
  -- The socket inside one that is decorated or not.
  abbrev inside_flag :
      (b : Bool) (d : Decorator) (t : SocketFactory W)
      → (if b then decorator_factory d t else t).sock.State
      → t.sock.State
  inside_flag true d t s = s
  inside_flag false d t s = s

  abbrev inside_decorators :
      (stdout : Text → Bool) (args : OnelinerArgs) (t : SocketFactory W)
      → (set_decorators stdout args t).sock.State
      → t.sock.State
  inside_decorators stdout args t s =
      let t1 = if args.trace_info then decorator_factory (trace_info stdout) t else t in
      let t2 = if args.trace_raw then decorator_factory (trace_raw stdout) t1 else t1 in
      inside_flag args.trace_info (trace_info stdout) t (
        inside_flag args.trace_raw (trace_raw stdout) t1
          (inside_flag args.trace_canon (trace_canonical stdout) t2 s))

  abbrev inside_off :
      (off : Bool) (stdout : Text → Bool) (args : OnelinerArgs) (t : SocketFactory W)
      → (if off then t else set_decorators stdout args t).sock.State
      → t.sock.State
  inside_off true stdout args t s = s
  inside_off false stdout args t s = inside_decorators stdout args t s

  -- The socket of a device inside what the flags make of it.
  abbrev pub inside :
      (stdout : Text → Bool) (args : OnelinerArgs) (t : SocketFactory W)
      → (to_factory stdout args t).sock.State
      → t.sock.State
  inside stdout args t s = inside_off args.trace_to_off stdout args t s

module _ {W S : Type 0} (display : Error → Text) (params : OnelinerModeParams) (fuel : ℕ)
    (loads : List Bool) (w : W) (stdout : Text → Bool) (prints : Prints stdout) where
  abbrev Ends : (f t : SocketFactory W) → (t.sock.State → S) → S → Type 0
  Ends = Leaves display params fuel loads w

  flag-from :
      (b : Bool) (d : Decorator) (f t : SocketFactory W) (i : t.sock.State → S) (end : S)
      → Prints (stdout_of d)
      → KeepsBuffer f.sock
      → Ends f t i end
      → let f' = if b then decorator_factory d f else f in Ends f' t i end × KeepsBuffer f'.sock
  flag-from true d f t i end shows keeps leaves = (
    Leaves-from_decorated display params fuel loads w d shows f t i end keeps leaves,
    decorator-KeepsBuffer d shows f.sock keeps,
  )
  flag-from false d f t i end shows keeps leaves = (leaves, keeps)

  flag-to :
      (b : Bool) (d : Decorator) (f t : SocketFactory W) (i : t.sock.State → S) (end : S)
      → Prints (stdout_of d)
      → Ends f t i end
      → Ends f (if b then decorator_factory d t else t) (λ s. i (inside_flag b d t s)) end
  flag-to true d f t i end shows leaves =
      Leaves-to_decorated display params fuel loads w d shows f t i end leaves
  flag-to false d f t i end shows leaves = leaves

  from-Leaves :
      (off : Bool) (args : OnelinerArgs) (f t : SocketFactory W) (i : t.sock.State → S) (end : S)
      → KeepsBuffer f.sock
      → Ends f t i end
      → Ends (if off then f else set_decorators stdout args f) t i end
  from-Leaves true args f t i end keeps leaves = leaves
  from-Leaves false args f t i end keeps leaves =
      let f1 = if args.trace_info then decorator_factory (trace_info stdout) f else f in
      let f2 = if args.trace_raw then decorator_factory (trace_raw stdout) f1 else f1 in
      let (l1, k1) = flag-from args.trace_info (trace_info stdout) f t i end prints keeps leaves in
      let (l2, k2) = flag-from args.trace_raw (trace_raw stdout) f1 t i end prints k1 l1 in
      (flag-from args.trace_canon (trace_canonical stdout) f2 t i end prints k2 l2).0

  to-Leaves :
      (off : Bool) (args : OnelinerArgs) (f t : SocketFactory W) (i : t.sock.State → S) (end : S)
      → Ends f t i end
      → Ends f
          (if off then t else set_decorators stdout args t)
          (λ s. i (inside_off off stdout args t s))
          end
  to-Leaves true args f t i end leaves = leaves
  to-Leaves false args f t i end leaves =
      let t1 = if args.trace_info then decorator_factory (trace_info stdout) t else t in
      let t2 = if args.trace_raw then decorator_factory (trace_raw stdout) t1 else t1 in
      let i1 : t1.sock.State → S = λ s. i (inside_flag args.trace_info (trace_info stdout) t s) in
      let i2 : t2.sock.State → S = λ s. i1 (inside_flag args.trace_raw (trace_raw stdout) t1 s) in
      let l1 = flag-to args.trace_info (trace_info stdout) f t i end prints leaves in
      let l2 = flag-to args.trace_raw (trace_raw stdout) f t1 i1 end prints l1 in
      flag-to args.trace_canon (trace_canonical stdout) f t2 i2 end prints l2

  -- The flags change nothing of what a run in one direction leaves of the sockets.
  pub flags-Leaves :
      (args : OnelinerArgs) (f t : SocketFactory W) (i : t.sock.State → S) (end : S)
      → KeepsBuffer f.sock
      → Ends f t i end
      → Ends
          (from_factory stdout args f)
          (to_factory stdout args t)
          (λ s. i (inside stdout args t s))
          end
  flags-Leaves args f t i end keeps leaves =
      from-Leaves args.trace_from_off args f (to_factory stdout args t)
        (λ s. i (inside stdout args t s)) end keeps
        (to-Leaves args.trace_to_off args f t i end leaves)

module _ {W S : Type 0} (display : Error → Text) (params : OnelinerModeParams) (fuel : ℕ)
    (loads : List Bool) (turns : List Turn) (w : W) where
  -- The thread that `start` leaves has left the second socket, as it is inside, at an end.
  abbrev pub Started : (f t : SocketFactory W) → (t.sock.State → S) → S → Type 0
  Started f t i end =
      (thread : Handle f t display) × ((start f t display fuel loads turns
          (new_mode f t display params, w)).state.0.handle1
        ≡ some thread)
      × (i thread.state.1 ≡ end)

  pub Leaves-Started :
      (f t : SocketFactory W) (i : t.sock.State → S) (end : S)
      → params.bidir ≡ false
      → Leaves display params fuel loads w f t i end
      → Started f t i end
  Leaves-Started f t i end one (pair, bound, leaves) = (
    _,
    ap (λ r. r.state.0.handle1) (start-one f t display params fuel loads turns w pair one bound),
    leaves,
  )
