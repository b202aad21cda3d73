-- ===== src/Sock/Decorators/BothWays.antt =====
-- src/sock/mod.rs, `bind_bidirectional` and its threads, with decorated sockets of
-- src/sock/decorators.rs.
use polysock.Base.{refl, false, [], length}
use polysock.Sock.{ComplexSock, SocketFactory, SocketParams}
use polysock.Sock.Wrapper.{drop_wrapper, u8, mul_usize, encode, read_all, generic_write}
use polysock.Sock.Manager.{new_manager, opened_blockctl, holding, bind_bidirectional}
use polysock.Sock.Decorators.{
  Prints, stdout_of, Decorator, decorator, decorator_factory, decorator_open, decorator_close,
  decorator_read, decorator_write,
}
use polysock.Sock.Decorators.Simulation.{
  Same, Same-bind, KeepsBuffer, read_all_loop-Same, write_memory-Same,
}
use polysock.Sock.Decorators.Transparent.{decorator_read-Same, decorator_write-Same}
use polysock.Sock.Decorators.Bound.{
  decorator_close-Same, drop_wrapper-Same, opened_blockctl-Same, holding-Same,
}
use polysock.Sock.Threads.Alike.{IsAlike}

pub decorator-IsAlike :
    (d : Decorator) (K : ComplexSock)
    → Prints (stdout_of d)
    → KeepsBuffer K
    → IsAlike K
        (decorator_open d K)
        (decorator_close d K)
        (decorator_read d K)
        (decorator_write d K)
unfolding read_all generic_write
decorator-IsAlike d K prints keeps = record {
  reads = λ fuel s.
      read_all_loop-Same K (decorator_open d K) (decorator_close d K) (decorator_read d K)
        (decorator_write d K) keeps (decorator_read-Same d prints K keeps) u8 fuel 1024 [] s;
  writes = λ buf s.
      write_memory-Same K (decorator_open d K) (decorator_close d K) (decorator_read d K)
        (decorator_write d K) (decorator_write-Same d prints K) (mul_usize 1 (length buf))
        (encode u8 buf) s;
  closes = λ s. decorator_close-Same d K s prints;
}

module _ {W : Type 0} (d : Decorator) (prints : Prints (stdout_of d)) (f t : SocketFactory W) where
  -- A binding in both directions holds the same sockets with a decorated factory.
  pub bind_bidirectional-from_Same :
      (from_params to_params : SocketParams) (w : W)
      → Same
          (bind_bidirectional (new_manager (decorator_factory d f) t) from_params to_params w)
          (bind_bidirectional (new_manager f t) from_params to_params w)
  unfolding bind_bidirectional
  bind_bidirectional-from_Same from_params to_params w =
      Same-bind (opened_blockctl (decorator_factory d f) from_params false)
        (opened_blockctl f from_params false) _ _ w
        (opened_blockctl-Same d prints f from_params false w)
        (λ from w e.
          let opening = opened_blockctl t to_params false in
          Same-bind (holding (drop_wrapper (decorator d f.sock)) from opening)
            (holding (drop_wrapper f.sock) from opening) _ _ w
            (holding-Same (drop_wrapper (decorator d f.sock)) (drop_wrapper f.sock) from opening
              opening w (drop_wrapper-Same d f.sock from prints) (refl, refl))
            (λ to w e. (refl, refl)))

  pub bind_bidirectional-to_Same :
      (from_params to_params : SocketParams) (w : W)
      → Same
          (bind_bidirectional (new_manager f (decorator_factory d t)) from_params to_params w)
          (bind_bidirectional (new_manager f t) from_params to_params w)
  unfolding bind_bidirectional
  bind_bidirectional-to_Same from_params to_params w =
      Same-bind (opened_blockctl f from_params false) (opened_blockctl f from_params false) _ _ w
        (refl, refl)
        (λ from w e.
          let opening' = opened_blockctl (decorator_factory d t) to_params false in
          let opening = opened_blockctl t to_params false in
          Same-bind (holding (drop_wrapper f.sock) from opening')
            (holding (drop_wrapper f.sock) from opening) _ _ w
            (holding-Same (drop_wrapper f.sock) (drop_wrapper f.sock) from opening' opening w
              (refl, refl) (opened_blockctl-Same d prints t to_params false w))
            (λ to w e. (refl, refl)))
