-- ===== src/Sock/Manager/Binding.antt =====
-- src/sock/mod.rs, `SocketManager`: the creation of the sockets of a binding.
use polysock.Base.{◌≡◌, refl, sym, Bool, false, List, [], ◌++◌, append_assoc}
use polysock.Base.{
  after_drop, chain, Outcome, panic, undefined, exit, no_fuel, Event, Error, ok, err, M, returns,
}
use polysock.Sock.{ComplexSock, SocketFactory, SocketParams, create_sock_blockctl}
use polysock.Sock.Wrapper.{open_wrapper, drop_wrapper}
use polysock.Sock.Manager.{
  new_manager, holding, opened_blockctl, opened_sock, bind_unidirectional, bind_bidirectional,
}

create_sock_blockctl-returns :
    {W : Type 0} (factory : SocketFactory W) (params : SocketParams) (blocking : Bool) {w w1 : W}
    {s s1 : factory.sock.State} {l1 l2 : List Event}
    → factory.create_sock params w ≡ returns s w1 l1
    → factory.sock.set_block blocking s ≡ returns tt s1 l2
    → create_sock_blockctl factory params blocking w ≡ returns s1 w1 (l1 ++ (l2 ++ []))
unfolding create_sock_blockctl
create_sock_blockctl-returns factory params blocking created mode = rw (created, mode)

open_wrapper-returns :
    (K : ComplexSock) (s : K.State) {s' : K.State} {l : List Event}
    → K.open_sock s ≡ returns tt s' l
    → open_wrapper K s ≡ returns tt s' l
unfolding open_wrapper
open_wrapper-returns K s opens = rw opens

opened_blockctl-returns :
    {W : Type 0} (factory : SocketFactory W) (params : SocketParams) (blocking : Bool) {w w1 : W}
    {s s1 s2 : factory.sock.State} {l1 l2 l3 : List Event}
    → factory.create_sock params w ≡ returns s w1 l1
    → factory.sock.set_block blocking s ≡ returns tt s1 l2
    → factory.sock.open_sock s1 ≡ returns tt s2 l3
    → opened_blockctl factory params blocking w ≡ returns s2 w1 ((l1 ++ (l2 ++ [])) ++ (l3 ++ []))
unfolding opened_blockctl
opened_blockctl-returns factory params blocking {s1} created mode opens = rw (
  create_sock_blockctl-returns factory params blocking created mode,
  open_wrapper-returns factory.sock s1 opens,
)

opened_sock-returns :
    {W : Type 0} (factory : SocketFactory W) (params : SocketParams) {w w1 : W}
    {s s1 : factory.sock.State} {l1 l2 : List Event}
    → factory.create_sock params w ≡ returns s w1 l1
    → factory.sock.open_sock s ≡ returns tt s1 l2
    → opened_sock factory params w ≡ returns s1 w1 (l1 ++ (l2 ++ []))
unfolding opened_sock
opened_sock-returns factory params {s} created opens =
    rw (created, open_wrapper-returns factory.sock s opens)

opened_sock-err :
    {W : Type 0} (factory : SocketFactory W) (params : SocketParams) {w w1 : W} {e : Error}
    {l : List Event}
    → factory.create_sock params w ≡ record { out = err e; state = w1; log = l }
    → opened_sock factory params w ≡ record { out = err e; state = w1; log = l }
unfolding opened_sock
opened_sock-err factory params failed = rw failed

holding-returns :
    {W A S : Type 0} (d : M S (Unit {0})) (input : S) (m : M W A) (w : W) {a : A} {w' : W}
    {l : List Event}
    → m w ≡ returns a w' l
    → holding d input m w ≡ returns a w' l
holding-returns d input m w e = rw e

holding-err :
    {W A S : Type 0} (d : M S (Unit {0})) (input : S) (m : M W A) (w : W) {e : Error} {w' : W}
    {l : List Event}
    → m w ≡ record { out = err e; state = w'; log = l }
    → holding d input m w
      ≡ record { out = after_drop (err e) (d input).out; state = w'; log = l ++ (d input).log }
holding-err d input m w f = rw f

-- What follows a step that has failed, or whose clean-up has.
chain-after_drop :
    {S A B : Type 0} (x : Error) (o : Outcome (Unit {0})) (s : S) (l : List Event) (f : A → M S B)
    → chain (after_drop (err x) o) s l f ≡ record { out = after_drop (err x) o; state = s; log = l }
chain-after_drop x (ok done) s l f = refl
chain-after_drop x (err y) s l f = refl
chain-after_drop x panic s l f = refl
chain-after_drop x undefined s l f = refl
chain-after_drop x (exit n) s l f = refl
chain-after_drop x no_fuel s l f = refl

module _ {W : Type 0} (in_factory out_factory : SocketFactory W)
    (in_params out_params : SocketParams) (blocking : Bool) {w w1 w2 : W}
    {s s1 s2 : in_factory.sock.State} {l1 l2 l3 : List Event}
    (created : in_factory.create_sock in_params w ≡ returns s w1 l1)
    (mode : in_factory.sock.set_block blocking s ≡ returns tt s1 l2)
    (opens : in_factory.sock.open_sock s1 ≡ returns tt s2 l3) where
  -- A binding whose two sockets can be created and opened holds both, the first one in the mode
  -- that is asked for.
  pub bind_unidirectional-ok :
      {t t' : out_factory.sock.State} {l4 l5 : List Event}
      → out_factory.create_sock out_params w1 ≡ returns t w2 l4
      → out_factory.sock.open_sock t ≡ returns tt t' l5
      → let r =
          bind_unidirectional
            (new_manager in_factory out_factory)
            in_params
            out_params
            blocking
            w in
        (r.out ≡ ok (s2, t')) × (r.state ≡ w2)
  unfolding bind_unidirectional
  bind_unidirectional-ok e f =
      rw
        (
          opened_blockctl-returns in_factory in_params blocking created mode opens,
          holding-returns (drop_wrapper in_factory.sock) s2 (opened_sock out_factory out_params) w1
              (opened_sock-returns out_factory out_params e f),
        )
        (refl, refl)

  -- If the second socket cannot be created, the binding fails with that error, unless the drop of the
  -- first socket panics or ends the process; and the last thing is that the first socket, which has
  -- been opened, is dropped, and so closed.
  pub bind_unidirectional-closes :
      {e : Error} {l4 : List Event}
      → out_factory.create_sock out_params w1 ≡ record { out = err e; state = w2; log = l4 }
      → let r =
          bind_unidirectional
            (new_manager in_factory out_factory)
            in_params
            out_params
            blocking
            w in
        let dropped = drop_wrapper in_factory.sock s2 in
        (r.out ≡ after_drop (err e) dropped.out)
        × (r.state ≡ w2)
        × (before : List Event) × (r.log ≡ before ++ dropped.log)
  unfolding bind_unidirectional
  bind_unidirectional-closes {e} {l4} f =
      let before = (l1 ++ (l2 ++ [])) ++ (l3 ++ []) in
      rw
        (
          opened_blockctl-returns in_factory in_params blocking created mode opens,
          holding-err (drop_wrapper in_factory.sock) s2 (opened_sock out_factory out_params) w1
              (opened_sock-err out_factory out_params f),
          chain-after_drop e (drop_wrapper in_factory.sock s2).out w2
              (l4 ++ (drop_wrapper in_factory.sock s2).log),
        )
        (
          refl,
          refl,
          before ++ l4,
          sym (append_assoc before l4 (drop_wrapper in_factory.sock s2).log),
        )

module _ {W : Type 0} (in_factory out_factory : SocketFactory W)
    (from_params to_params : SocketParams) {w w1 w2 : W} {s s1 s2 : in_factory.sock.State}
    {l1 l2 l3 : List Event} (created : in_factory.create_sock from_params w ≡ returns s w1 l1)
    (mode : in_factory.sock.set_block false s ≡ returns tt s1 l2)
    (opens : in_factory.sock.open_sock s1 ≡ returns tt s2 l3) where
  -- A binding in both directions whose two sockets can be created and opened holds both, each of
  -- them in non-blocking mode.
  pub bind_bidirectional-ok :
      {t t1 t2 : out_factory.sock.State} {l4 l5 l6 : List Event}
      → out_factory.create_sock to_params w1 ≡ returns t w2 l4
      → out_factory.sock.set_block false t ≡ returns tt t1 l5
      → out_factory.sock.open_sock t1 ≡ returns tt t2 l6
      → let r = bind_bidirectional (new_manager in_factory out_factory) from_params to_params w in
        (r.out ≡ ok (s2, t2)) × (r.state ≡ w2)
  unfolding bind_bidirectional
  bind_bidirectional-ok e m f =
      rw
        (
          opened_blockctl-returns in_factory from_params false created mode opens,
          holding-returns (drop_wrapper in_factory.sock) s2
              (opened_blockctl out_factory to_params false) w1
              (opened_blockctl-returns out_factory to_params false e m f),
        )
        (refl, refl)
