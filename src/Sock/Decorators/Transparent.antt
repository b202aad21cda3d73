-- ===== src/Sock/Decorators/Transparent.antt =====
-- src/sock/decorators.rs: a decorated socket next to the socket inside.
use polysock.Base.{
  ℕ, ◌≤◌, ◌≡◌, refl, sym, ◌∙◌, Bool, true, false, if◌then◌else◌, List, [], ◌∷◌, arith, ltb, le→ltb,
  length, take,
}
use polysock.Base.{
  Outcome, ok, err, panic, undefined, exit, no_fuel, Ret, Text, lit, debug, hex_dump,
}
use polysock.Sock.{ComplexSock}
use polysock.Sock.Manager.{binding_thread}
use polysock.Sock.Decorators.{
  Decorator, Prints, stdout_of, trace_info, trace_raw, trace_canonical, decorator, decorator_read,
  decorator_write, decorator_open, decorator_close, received, written, shown, slice,
}
use polysock.Sock.Decorators.Simulation.{
  Same, KeepsBuffer, binding_thread-from_Same, binding_thread-to_Same,
}

slice_lem : (bytes : List ℕ) (sz : ℕ) → sz ≤ length bytes → slice bytes sz ≡ ok (take sz bytes)
unfolding slice
slice_lem bytes sz h = rw (le→ltb (length bytes) sz h)

received-ok :
    (d : Decorator) (descr : Text) (bytes : List ℕ) (sz : ℕ)
    → sz ≤ length bytes
    → (line : Text) × (received d descr bytes sz ≡ ok line)
unfolding received
received-ok (trace_info stdout) descr bytes sz h = (_, refl)
received-ok (trace_raw stdout) descr bytes sz h =
    (lit "Data is received: " ∷ debug (take sz bytes) ∷ [], rw (slice_lem bytes sz h) refl)
received-ok (trace_canonical stdout) descr bytes sz h = (
  lit "Received data (canonical format):\n " ∷ hex_dump (take sz bytes) ∷ [],
  rw (slice_lem bytes sz h) refl,
)

written-ok :
    (d : Decorator) (descr : Text) (bytes : List ℕ) (sz : ℕ)
    → sz ≤ length bytes
    → (line : Text) × (written d descr bytes sz ≡ ok line)
unfolding written
written-ok (trace_info stdout) descr bytes sz h = (_, refl)
written-ok (trace_raw stdout) descr bytes sz h =
    (lit "Data is written: " ∷ debug (take sz bytes) ∷ [], rw (slice_lem bytes sz h) refl)
written-ok (trace_canonical stdout) descr bytes sz h = (
  lit "Written data (canonical format):\n" ∷ hex_dump (take sz bytes) ∷ [],
  rw (slice_lem bytes sz h) refl,
)

shown-Same :
    {S A : Type 0} (stdout : Text → Bool) (o : Outcome Text) (r : Ret S A) {line : Text}
    → Prints stdout
    → o ≡ ok line
    → Same (shown stdout o r) r
unfolding shown
shown-Same stdout o r {line} prints e = rw (e, shown, prints line) (refl, refl)

-- A line that may be printed.
shown_if-Same :
    {S A : Type 0} (b : Bool) (stdout : Text → Bool) (o : Outcome Text) (r : Ret S A) {line : Text}
    → Prints stdout
    → o ≡ ok line
    → Same (if b then shown stdout o r else r) r
shown_if-Same true stdout o r prints e = shown-Same stdout o r prints e
shown_if-Same false stdout o r prints e = (refl, refl)

module _ (d : Decorator) (prints : Prints (stdout_of d)) (K : ComplexSock) where
  pub decorator_read-Same :
      (keeps : KeepsBuffer K) (buf : List ℕ) (sz : ℕ) (s : K.State)
      → sz ≤ length buf
      → Same (decorator_read d K buf sz s) (K.read buf sz s)
  unfolding decorator_read
  decorator_read-Same keeps buf sz s h = by_outcome r.out refl
    where
      r : Ret K.State (ℕ × List ℕ)
      r = K.read buf sz s

      by_outcome : (o : Outcome (ℕ × List ℕ)) → r.out ≡ o → Same (decorator_read d K buf sz s) r
      by_outcome (ok (n, buf')) e =
          let (le, same) = keeps buf buf' sz n s h e in
          let (line, told) = received-ok d (K.get_description r.state) buf' n (omega arith) in
          let (p, q) =
            shown_if-Same (ltb 0 n) (stdout_of d) (received d (K.get_description r.state) buf' n) r
              prints told in
          rw (e, decorator_read) (p ∙ e, q)
      by_outcome (err x) e = rw (e, decorator_read) (e, refl)
      by_outcome panic e = rw (e, decorator_read) (e, refl)
      by_outcome undefined e = rw (e, decorator_read) (e, refl)
      by_outcome (exit code) e = rw (e, decorator_read) (e, refl)
      by_outcome no_fuel e = rw (e, decorator_read) (e, refl)

  pub decorator_write-Same :
      (buf : List ℕ) (sz : ℕ) (s : K.State)
      → sz ≤ length buf
      → Same (decorator_write d K buf sz s) (K.write buf sz s)
  unfolding decorator_write
  decorator_write-Same buf sz s h = by_outcome r.out refl
    where
      r : Ret K.State (Unit {0})
      r = K.write buf sz s

      told :
          Same
            (if ltb 0 sz
              then shown (stdout_of d) (written d (K.get_description r.state) buf sz) r
              else r)
            r
      told =
          shown_if-Same (ltb 0 sz) (stdout_of d) (written d (K.get_description r.state) buf sz) r
            prints (written-ok d (K.get_description r.state) buf sz h).1

      by_outcome : (o : Outcome (Unit {0})) → r.out ≡ o → Same (decorator_write d K buf sz s) r
      by_outcome (ok done) e = rw (e, decorator_write) (told.0 ∙ e, told.1)
      by_outcome (err x) e = rw (e, decorator_write) (told.0 ∙ e, told.1)
      by_outcome panic e = rw (e, decorator_write) (e, refl)
      by_outcome undefined e = rw (e, decorator_write) (e, refl)
      by_outcome (exit code) e = rw (e, decorator_write) (e, refl)
      by_outcome no_fuel e = rw (e, decorator_write) (e, refl)

  -- A decorated socket keeps buffers as the socket inside does, so it can be decorated again.
  pub decorator-KeepsBuffer : KeepsBuffer K → KeepsBuffer (decorator d K)
  decorator-KeepsBuffer keeps buf buf' sz n s h e =
      keeps buf buf' sz n s h (sym (decorator_read-Same keeps buf sz s h).0 ∙ e)

-- Tracing changes nothing of a transfer while the standard output takes every line: with both
-- sockets decorated the thread ends in the same way, on the same states of the sockets, as without,
-- if reads of the source keep the length of a buffer that has room for them and return no more than
-- that length.
pub binding_thread-decorator :
    (d e : Decorator) (from to : ComplexSock) (fuel : ℕ) (loads : List Bool)
    (p : from.State × to.State)
    → Prints (stdout_of d)
    → Prints (stdout_of e)
    → KeepsBuffer from
    → Same
        (binding_thread (decorator d from) (decorator e to) fuel loads p)
        (binding_thread from to fuel loads p)
binding_thread-decorator d e from to fuel loads p prints prints' keeps =
    let (a, b) =
      binding_thread-from_Same from (decorator e to) (decorator_open d from)
        (decorator_close d from) (decorator_read d from) (decorator_write d from) keeps
        (decorator_read-Same d prints from keeps) fuel loads p in
    let (a', b') =
      binding_thread-to_Same from to (decorator_open e to) (decorator_close e to)
        (decorator_read e to) (decorator_write e to) (decorator_write-Same e prints' to) fuel loads
        p in
    (a ∙ a', b ∙ b')
