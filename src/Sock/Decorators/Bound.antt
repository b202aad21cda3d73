-- ===== src/Sock/Decorators/Bound.antt =====
-- src/sock/mod.rs, `bind_unidirectional`, with decorated factories of src/sock/decorators.rs.
use polysock.Base.{refl, Bool}
use polysock.Base.{M}
use polysock.Sock.{ComplexSock, SocketFactory, SocketParams, create_sock_blockctl}
use polysock.Sock.Wrapper.{open_wrapper, drop_wrapper}
use polysock.Sock.Manager.{
  on_from, on_to, drop_sockets, new_manager, opened, opened_blockctl, opened_sock, holding,
  bind_unidirectional,
}
use polysock.Base.{ap, Ret, lit, ◌∷◌, Text, ◌>>◌}
use polysock.Sock.{on_owned}
use polysock.Sock.Decorators.{
  Prints, stdout_of, printing, Decorator, trace_info, trace_raw, trace_canonical, decorator,
  decorator_factory, decorator_open, decorator_close,
}
use polysock.Sock.Decorators.Simulation.{Same-unwind, Same-unwind_failed, Same, Same-bind}

printing-Same :
    {S : Type 0} (stdout : Text → Bool) (line : Text) (m : M S (Unit {0})) (s : S)
    → Prints stdout
    → Same ((printing stdout line >> m) s) (m s)
printing-Same stdout line m s prints = rw (prints line, printing) (refl, refl)

decorator_open-Same :
    (d : Decorator) (K : ComplexSock) (s : K.State)
    → Prints (stdout_of d)
    → Same (decorator_open d K s) (K.open_sock s)
unfolding decorator_open
decorator_open-Same (trace_info stdout) K s prints =
    printing-Same stdout (lit "Socket is opened: " ∷ K.get_description s) K.open_sock s prints
decorator_open-Same (trace_raw stdout) K s prints = (refl, refl)
decorator_open-Same (trace_canonical stdout) K s prints = (refl, refl)

pub decorator_close-Same :
    (d : Decorator) (K : ComplexSock) (s : K.State)
    → Prints (stdout_of d)
    → Same (decorator_close d K s) (K.close s)
unfolding decorator_close
decorator_close-Same (trace_info stdout) K s prints =
    printing-Same stdout (lit "Socket is closed: " ∷ K.get_description s) K.close s prints
decorator_close-Same (trace_raw stdout) K s prints = (refl, refl)
decorator_close-Same (trace_canonical stdout) K s prints = (refl, refl)

-- The drop of the wrapper around a decorated socket.
pub drop_wrapper-Same :
    (d : Decorator) (K : ComplexSock) (s : K.State)
    → Prints (stdout_of d)
    → Same (drop_wrapper (decorator d K) s) (drop_wrapper K s)
drop_wrapper-Same d K s prints =
    Same-unwind K.drop_sock K.drop_sock (decorator_close d K s) (K.close s) (λ s. (refl, refl))
      (decorator_close-Same d K s prints)

on_owned-Same :
    {W S A : Type 0} (m m' : M S A) (s : S) (w : W)
    → Same (m s) (m' s)
    → Same (on_owned m s w) (on_owned m' s w)
on_owned-Same m m' s w (e, e') = rw (e, e') (refl, refl)

module _ {W : Type 0} (d : Decorator) (prints : Prints (stdout_of d)) where
  opened-Same :
      (K : ComplexSock) (s : K.State) (w : W) → Same (opened (decorator d K) s w) (opened K s w)
  unfolding open_wrapper
  opened-Same K s w =
      Same-bind (on_owned (open_wrapper (decorator d K)) s) (on_owned (open_wrapper K) s) _ _ w
        (on_owned-Same (open_wrapper (decorator d K)) (open_wrapper K) s w (
          Same-unwind_failed (drop_wrapper (decorator d K)) (drop_wrapper K) (decorator_open d K s)
            (K.open_sock s) (λ s. drop_wrapper-Same d K s prints)
            (decorator_open-Same d K s prints)))
        (λ done w e. (refl, refl))

  module _ (f : SocketFactory W) where
    pub opened_blockctl-Same :
        (params : SocketParams) (blocking : Bool) (w : W)
        → Same
            (opened_blockctl (decorator_factory d f) params blocking w)
            (opened_blockctl f params blocking w)
    unfolding opened_blockctl create_sock_blockctl
    opened_blockctl-Same params blocking w =
        Same-bind (create_sock_blockctl (decorator_factory d f) params blocking)
          (create_sock_blockctl f params blocking) _ _ w (refl, refl)
          (λ s w e. opened-Same f.sock s w)

    opened_sock-Same :
        (params : SocketParams) (w : W)
        → Same (opened_sock (decorator_factory d f) params w) (opened_sock f params w)
    unfolding opened_sock
    opened_sock-Same params w =
        Same-bind (f.create_sock params) (f.create_sock params) _ _ w (refl, refl)
          (λ s w e. opened-Same f.sock s w)

pub holding-Same :
    {W A S : Type 0} (drop drop' : M S (Unit {0})) (input : S) (m m' : M W A) (w : W)
    → Same (drop input) (drop' input)
    → Same (m w) (m' w)
    → Same (holding drop input m w) (holding drop' input m' w)
holding-Same drop drop' input m m' w (e, e') same =
    Same-unwind_failed (λ w. record { out = (drop input).out; state = w; log = (drop input).log })
      (λ w. record { out = (drop' input).out; state = w; log = (drop' input).log }) (m w) (m' w)
      (λ w. (e, refl)) same

module _ {W : Type 0} (d : Decorator) (prints : Prints (stdout_of d)) (f t : SocketFactory W) where
  -- A binding holds the same sockets with a decorated factory.
  pub bind_unidirectional-from_Same :
      (in_params out_params : SocketParams) (blocking : Bool) (w : W)
      → Same
          (bind_unidirectional
            (new_manager (decorator_factory d f) t)
            in_params
            out_params
            blocking
            w)
          (bind_unidirectional (new_manager f t) in_params out_params blocking w)
  unfolding bind_unidirectional
  bind_unidirectional-from_Same in_params out_params blocking w =
      Same-bind (opened_blockctl (decorator_factory d f) in_params blocking)
        (opened_blockctl f in_params blocking) _ _ w
        (opened_blockctl-Same d prints f in_params blocking w)
        (λ input w e.
          Same-bind (holding (drop_wrapper (decorator d f.sock)) input (opened_sock t out_params))
            (holding (drop_wrapper f.sock) input (opened_sock t out_params)) _ _ w
            (holding-Same (drop_wrapper (decorator d f.sock)) (drop_wrapper f.sock) input
              (opened_sock t out_params) (opened_sock t out_params) w
              (drop_wrapper-Same d f.sock input prints) (refl, refl))
            (λ output w e. (refl, refl)))

  pub bind_unidirectional-to_Same :
      (in_params out_params : SocketParams) (blocking : Bool) (w : W)
      → Same
          (bind_unidirectional
            (new_manager f (decorator_factory d t))
            in_params
            out_params
            blocking
            w)
          (bind_unidirectional (new_manager f t) in_params out_params blocking w)
  unfolding bind_unidirectional
  bind_unidirectional-to_Same in_params out_params blocking w =
      Same-bind (opened_blockctl f in_params blocking) (opened_blockctl f in_params blocking) _ _ w
        (refl, refl)
        (λ input w e.
          Same-bind
            (holding (drop_wrapper f.sock) input (opened_sock (decorator_factory d t) out_params))
            (holding (drop_wrapper f.sock) input (opened_sock t out_params)) _ _ w
            (holding-Same (drop_wrapper f.sock) (drop_wrapper f.sock) input
              (opened_sock (decorator_factory d t) out_params) (opened_sock t out_params) w
              (refl, refl) (opened_sock-Same d prints t out_params w))
            (λ output w e. (refl, refl)))

  -- The drop of the two sockets of a thread, one of them decorated.
  pub drop_sockets-from_Same :
      (r r' : Ret (f.sock.State × t.sock.State) (Unit {0}))
      → Same r r'
      → Same (drop_sockets (decorator d f.sock) t.sock r) (drop_sockets f.sock t.sock r')
  drop_sockets-from_Same r r' same =
      Same-unwind (on_to (drop_wrapper t.sock)) (on_to (drop_wrapper t.sock)) _ _
        (λ p. (refl, refl))
        (Same-unwind (on_from (drop_wrapper (decorator d f.sock))) (on_from (drop_wrapper f.sock)) r
          r'
          (λ (s, z). let (e, e') = drop_wrapper-Same d f.sock s prints in (e, ap (λ x. (x, z)) e'))
          same)

  pub drop_sockets-to_Same :
      (r r' : Ret (f.sock.State × t.sock.State) (Unit {0}))
      → Same r r'
      → Same (drop_sockets f.sock (decorator d t.sock) r) (drop_sockets f.sock t.sock r')
  drop_sockets-to_Same r r' same =
      Same-unwind (on_to (drop_wrapper (decorator d t.sock))) (on_to (drop_wrapper t.sock)) _ _
        (λ (s, z). let (e, e') = drop_wrapper-Same d t.sock z prints in (e, ap (λ x. (s, x)) e'))
        (Same-unwind (on_from (drop_wrapper f.sock)) (on_from (drop_wrapper f.sock)) r r'
          (λ p. (refl, refl)) same)
