-- ===== src/Tests/Bindings.antt =====
-- The creation of a binding in src/sock/mod.rs with sample factories.
use polysock.Base.{
  ℕ, ◌+◌, ◌≡◌, refl, List, [], ◌∷◌, ◌++◌, Event, println, lit, emit, err, from_kind, broken_pipe,
  returns, lift, true,
}
use polysock.Sock.{ComplexSock, SocketFactory, doc_default}
use polysock.Sock.Manager.{new_manager, bind_unidirectional}
use polysock.Sock.Manager.Binding.{bind_unidirectional-closes}
use polysock.Tests.Samples.{sink}

-- A socket that says when it is closed, from a factory that counts, and a factory that fails.
abbrev pub loud : ComplexSock
loud = record sink { close = emit (println (lit "closed" ∷ [])) }

abbrev pub louds : SocketFactory ℕ
louds = record {
  sock = loud;
  create_sock = λ params n. returns [] (n + 1) [];
  create_doc_viewer = doc_default;
}

abbrev pub broken : SocketFactory ℕ
broken = record {
  sock = sink;
  create_sock = λ params. lift (err (from_kind broken_pipe));
  create_doc_viewer = doc_default;
}

bind_unidirectional-closes_example :
    let r = bind_unidirectional (new_manager louds broken) "{}" "{}" true 0 in
    (r.out ≡ err (from_kind broken_pipe))
    × (r.state ≡ 1)
    × (before : List Event) × (r.log ≡ before ++ (println (lit "closed" ∷ []) ∷ []))
bind_unidirectional-closes_example =
    bind_unidirectional-closes louds broken "{}" "{}" true refl refl refl refl
