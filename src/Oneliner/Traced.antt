-- ===== src/Oneliner/Traced.antt =====
-- src/modes/oneliner.rs with decorated factories of src/sock/decorators.rs.
use polysock.Base.{ℕ, ◌≡◌, refl, sym, ap, ◌∙◌, Bool, true, false, inl, inr, Bool-cases, ap₂, List}
use polysock.Base.{Outcome, ok, err, panic, undefined, exit, no_fuel, Error, Text}
use polysock.Sock.{SocketFactory}
use polysock.Sock.Decorators.{
  Prints, stdout_of, Decorator, decorator_factory, decorator_read, decorator_write, decorator_open,
  decorator_close,
}
use polysock.Sock.Decorators.Simulation.{
  KeepsBuffer, binding_thread-from_Same, binding_thread-to_Same,
}
use polysock.Sock.Decorators.Transparent.{decorator_read-Same, decorator_write-Same}
use polysock.Sock.Decorators.Bound.{
  drop_sockets-from_Same, drop_sockets-to_Same, bind_unidirectional-from_Same,
  bind_unidirectional-to_Same,
}
use polysock.Sock.Decorators.BothWays.{
  decorator-IsAlike, bind_bidirectional-from_Same, bind_bidirectional-to_Same,
}
use polysock.Sock.Threads.{Turn}
use polysock.Sock.Threads.Alike.{IsAlike-refl}
use polysock.Sock.Threads.Played.{ends-alike}
use polysock.Oneliner.{OnelinerModeParams, thread_of}
use polysock.Sock.Manager.{new_manager, Pair, bind_unidirectional}
use polysock.Oneliner.Ends.{run_end, ending, execute-one_end, execute-two_ends}
use polysock.Oneliner.Joins.{status, both_ends}

run_end-cong :
    {A : Type 0} (o o' : Outcome A) (thread thread' : A → Outcome (Unit {0}))
    → o ≡ o'
    → ((pair : A) → thread pair ≡ thread' pair)
    → run_end o thread ≡ run_end o' thread'
run_end-cong o (ok pair) thread thread' e same = rw e (ap status (same pair))
run_end-cong o (err x) thread thread' e same = rw e refl
run_end-cong o panic thread thread' e same = rw e refl
run_end-cong o undefined thread thread' e same = rw e refl
run_end-cong o (exit n) thread thread' e same = rw e refl
run_end-cong o no_fuel thread thread' e same = rw e refl

module _ {W : Type 0} (display : Error → Text) (params : OnelinerModeParams) (fuel : ℕ)
    (loads : List Bool) (turns : List Turn) (w : W) where
  abbrev end_of : (f t : SocketFactory W) → Outcome (Unit {0})
  end_of = ending display params fuel loads turns w

  module _ (d : Decorator) (prints : Prints (stdout_of d)) (f t : SocketFactory W) where
    one-from :
        params.bidir ≡ false → KeepsBuffer f.sock → end_of (decorator_factory d f) t ≡ end_of f t
    one-from one keeps =
        execute-one_end display params fuel loads turns w (decorator_factory d f) t one
        ∙ run_end-cong _ _ _ _
            (bind_unidirectional-from_Same d prints f t params.f_params params.to_params
              params.blocking w).0
            (λ pair.
              (drop_sockets-from_Same d prints f t _ _ (
                binding_thread-from_Same f.sock t.sock (decorator_open d f.sock)
                  (decorator_close d f.sock) (decorator_read d f.sock) (decorator_write d f.sock)
                  keeps (decorator_read-Same d prints f.sock keeps) fuel loads pair)).0)
        ∙ sym (execute-one_end display params fuel loads turns w f t one)

    one-to : params.bidir ≡ false → end_of f (decorator_factory d t) ≡ end_of f t
    one-to one =
        execute-one_end display params fuel loads turns w f (decorator_factory d t) one
        ∙ run_end-cong _ _ _ _
            (bind_unidirectional-to_Same d prints f t params.f_params params.to_params
              params.blocking w).0
            (λ pair.
              (drop_sockets-to_Same d prints f t _ _ (
                binding_thread-to_Same f.sock t.sock (decorator_open d t.sock)
                  (decorator_close d t.sock) (decorator_read d t.sock) (decorator_write d t.sock)
                  (decorator_write-Same d prints t.sock) fuel loads pair)).0)
        ∙ sym (execute-one_end display params fuel loads turns w f t one)

    two-from :
        params.bidir ≡ true → KeepsBuffer f.sock → end_of (decorator_factory d f) t ≡ end_of f t
    two-from both keeps =
        execute-two_ends display params fuel loads turns w (decorator_factory d f) t both
        ∙ run_end-cong _ _ _ _
            (bind_bidirectional-from_Same d prints f t params.f_params params.to_params w).0
            (λ pair.
              let (e, e') =
                ends-alike f.sock (decorator_open d f.sock) (decorator_close d f.sock)
                  (decorator_read d f.sock) (decorator_write d f.sock)
                  (decorator-IsAlike d f.sock prints keeps) t.sock t.sock.open_sock t.sock.close
                  t.sock.read t.sock.write (IsAlike-refl t.sock) fuel turns pair in
              ap₂ both_ends e e')
        ∙ sym (execute-two_ends display params fuel loads turns w f t both)

    two-to :
        params.bidir ≡ true → KeepsBuffer t.sock → end_of f (decorator_factory d t) ≡ end_of f t
    two-to both keeps =
        execute-two_ends display params fuel loads turns w f (decorator_factory d t) both
        ∙ run_end-cong _ _ _ _
            (bind_bidirectional-to_Same d prints f t params.f_params params.to_params w).0
            (λ pair.
              let (e, e') =
                ends-alike f.sock f.sock.open_sock f.sock.close f.sock.read f.sock.write
                  (IsAlike-refl f.sock) t.sock (decorator_open d t.sock) (decorator_close d t.sock)
                  (decorator_read d t.sock) (decorator_write d t.sock)
                  (decorator-IsAlike d t.sock prints keeps) fuel turns pair in
              ap₂ both_ends e e')
        ∙ sym (execute-two_ends display params fuel loads turns w f t both)

    -- Tracing of either socket does not change how the run ends, if reads of the traced sockets keep
    -- their buffers; what is only written to does not have to.
    pub ending-from_decorated : KeepsBuffer f.sock → end_of (decorator_factory d f) t ≡ end_of f t
    ending-from_decorated keeps = elim (Bool-cases params.bidir) [
      | inl both ↦ two-from both keeps
      | inr one ↦ one-from one keeps
    ]

    pub ending-to_decorated :
        (params.bidir ≡ true → KeepsBuffer t.sock) → end_of f (decorator_factory d t) ≡ end_of f t
    ending-to_decorated keeps = elim (Bool-cases params.bidir) [
      | inl both ↦ two-to both (keeps both)
      | inr one ↦ one-to one
    ]

module _ {W S : Type 0} (display : Error → Text) (params : OnelinerModeParams) (fuel : ℕ)
    (loads : List Bool) (w : W) where
  -- Two sockets can be bound in one direction, and their thread leaves the second one, as it is
  -- inside, at an end.
  abbrev pub Leaves : (f t : SocketFactory W) → (t.sock.State → S) → S → Type 0
  Leaves f t inside end =
      (pair : Pair f t) × ((bind_unidirectional (new_manager f t) params.f_params params.to_params
          params.blocking w).out
        ≡ ok pair)
      × (inside (thread_of f t display fuel loads pair).state.1 ≡ end)

  module _ (d : Decorator) (prints : Prints (stdout_of d)) (f t : SocketFactory W)
      (inside : t.sock.State → S) (end : S) where
    pub Leaves-from_decorated :
        KeepsBuffer f.sock → Leaves f t inside end → Leaves (decorator_factory d f) t inside end
    Leaves-from_decorated keeps (pair, bound, leaves) = (
      pair,
      (bind_unidirectional-from_Same d prints f t params.f_params params.to_params params.blocking
            w).0
          ∙ bound,
      ap (λ p. inside p.1)
            (drop_sockets-from_Same d prints f t _ _ (
              binding_thread-from_Same f.sock t.sock (decorator_open d f.sock)
                (decorator_close d f.sock) (decorator_read d f.sock) (decorator_write d f.sock)
                keeps (decorator_read-Same d prints f.sock keeps) fuel loads pair)).1
          ∙ leaves,
    )

    pub Leaves-to_decorated : Leaves f t inside end → Leaves f (decorator_factory d t) inside end
    Leaves-to_decorated (pair, bound, leaves) = (
      pair,
      (bind_unidirectional-to_Same d prints f t params.f_params params.to_params params.blocking
            w).0
          ∙ bound,
      ap (λ p. inside p.1)
            (drop_sockets-to_Same d prints f t _ _ (
              binding_thread-to_Same f.sock t.sock (decorator_open d t.sock)
                (decorator_close d t.sock) (decorator_read d t.sock) (decorator_write d t.sock)
                (decorator_write-Same d prints t.sock) fuel loads pair)).1
          ∙ leaves,
    )
