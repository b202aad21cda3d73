-- ===== src/Args/Order.antt =====
-- src/args.rs: the order of the lines that a fully traced socket prints.
use polysock.Base.{
  Bool, ℕ, ◌≤◌, ◌<◌, ◌≡◌, refl, ap, ◌∙◌, true, List, [], ◌∷◌, ◌++◌, append_assoc, length, take,
  lt→ltb, le→ltb,
}
use polysock.Base.{Text, Event, println, lit, debug, hex_dump, returns, ok}
use polysock.Sock.{ComplexSock, SocketFactory}
use polysock.Sock.Decorators.{
  Decorator, Prints, stdout_of, trace_info, trace_raw, trace_canonical, decorator, decorator_write,
  written, shown, slice,
}
use polysock.Args.{OnelinerArgs, set_decorators}

-- The line that a decorator prints of a write.
abbrev written_line : Decorator → Text → List ℕ → ℕ → Text
written_line (trace_info stdout) descr bytes sz = lit "Data is transered to: " ∷ descr
written_line (trace_raw stdout) descr bytes sz =
    lit "Data is written: " ∷ debug (take sz bytes) ∷ []
written_line (trace_canonical stdout) descr bytes sz =
    lit "Written data (canonical format):\n" ∷ hex_dump (take sz bytes) ∷ []

written_lem :
    (d : Decorator) (descr : Text) (bytes : List ℕ) (sz : ℕ)
    → sz ≤ length bytes
    → written d descr bytes sz ≡ ok (written_line d descr bytes sz)
unfolding written slice
written_lem (trace_info stdout) descr bytes sz h = refl
written_lem (trace_raw stdout) descr bytes sz h = rw (le→ltb (length bytes) sz h)
written_lem (trace_canonical stdout) descr bytes sz h = rw (le→ltb (length bytes) sz h)

decorator_write-returns :
    (d : Decorator) (K : ComplexSock) (bytes : List ℕ) (sz : ℕ) {s s' : K.State} {l : List Event}
    → Prints (stdout_of d)
    → 0 < sz
    → sz ≤ length bytes
    → K.write bytes sz s ≡ returns tt s' l
    → (decorator d K).write bytes sz s
      ≡ returns tt s' (l ++ (println (written_line d (K.get_description s') bytes sz) ∷ []))
unfolding decorator_write shown
decorator_write-returns d K bytes sz {s'} prints pos fits e =
    rw
      (
        e,
        decorator_write,
        lt→ltb 0 sz pos,
        e,
        written_lem d (K.get_description s') bytes sz fits,
        shown,
        prints (written_line d (K.get_description s') bytes sz),
      )
      refl

-- The arguments with all three traces.
abbrev pub all_traces : OnelinerArgs → OnelinerArgs
all_traces args = record args { trace_info = true; trace_raw = true; trace_canon = true }

-- With all three traces and a standard output that takes every line, a write that succeeds prints the socket's description first, then the bytes
-- in raw format, and then in canonical format, behind what the socket itself prints.
pub set_decorators-order :
    {W : Type 0} (stdout : Text → Bool) (args : OnelinerArgs) (f : SocketFactory W) (bytes : List ℕ)
    (sz : ℕ) {s s' : f.sock.State} {l : List Event}
    → Prints stdout
    → 0 < sz
    → sz ≤ length bytes
    → f.sock.write bytes sz s ≡ returns tt s' l
    → (set_decorators stdout (all_traces args) f).sock.write bytes sz s
      ≡ returns tt s' (
          l
          ++ (println (lit "Data is transered to: " ∷ f.sock.get_description s')
              ∷ println (lit "Data is written: " ∷ debug (take sz bytes) ∷ [])
              ∷ println (lit "Written data (canonical format):\n" ∷ hex_dump (take sz bytes) ∷ [])
              ∷ []))
set_decorators-order stdout args f bytes sz {s'} {l} prints pos fits e =
    let descr = f.sock.get_description s' in
    let info = println (written_line (trace_info stdout) descr bytes sz) ∷ [] in
    let raw = println (written_line (trace_raw stdout) descr bytes sz) ∷ [] in
    let canonical = println (written_line (trace_canonical stdout) descr bytes sz) ∷ [] in
    let with_info = decorator (trace_info stdout) f.sock in
    let with_raw = decorator (trace_raw stdout) with_info in
    decorator_write-returns (trace_canonical stdout) with_raw bytes sz prints pos fits (
      decorator_write-returns (trace_raw stdout) with_info bytes sz prints pos fits
        (decorator_write-returns (trace_info stdout) f.sock bytes sz prints pos fits e))
    ∙ ap (returns tt s')
        (append_assoc (l ++ info) raw canonical ∙ append_assoc l info (raw ++ canonical))
