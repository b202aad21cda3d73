-- ===== src/Sock/Manager.antt =====
-- src/sock/mod.rs, `SocketManager`: the creation of the two sockets and the thread that copies from
-- one to the other.
pub mod Copies
pub mod Binding
pub mod Keeps
use polysock.Base.{ℕ, Bool, true, false, List, [], ◌∷◌, ◌++◌, length}
use polysock.Base.{
  M, Ret, err, panic, undefined, exit, no_fuel, lift, unwind, unwind_failed, pure, emit,
  sleep_micros,
}
use polysock.Base.{◌>>=◌, ◌>>◌}
use polysock.Sock.{ComplexSock, SocketFactory, SocketParams, create_sock_blockctl, on_owned}
use polysock.Sock.Wrapper.{u8, open_wrapper, drop_wrapper, read_all, generic_write}

-- An operation on one of two sockets.
abbrev pub on_from : {S T A : Type 0} → M S A → M (S × T) A
on_from m (s, t) = let r = m s in record { out = r.out; state = (r.state, t); log = r.log }

abbrev pub on_to : {S T A : Type 0} → M T A → M (S × T) A
on_to m (s, t) = let r = m t in record { out = r.out; state = (s, r.state); log = r.log }

module _ (from to : ComplexSock) where
  -- One round of the thread's loop. The sockets are behind locks, which are free between the calls.
  unfoldable pub transfer : ℕ → M (from.State × to.State) (Unit {0})
  transfer fuel = do
    buf ← on_from (read_all from u8 fuel)
    on_to (generic_write to u8 buf (length buf))
    emit (sleep_micros 1)

  -- The loop of `create_binding_thread`, given what the loads of the flag `r` return in turn.
  unfoldable pub binding_thread : ℕ → List Bool → M (from.State × to.State) (Unit {0})
  binding_thread fuel [] = lift no_fuel
  binding_thread fuel (false ∷ loads) = pure tt
  binding_thread fuel (true ∷ loads) = transfer fuel >> binding_thread fuel loads

  -- The drop of the sockets where the thread returns or unwinds: nobody else has a share of them.
  abbrev pub drop_sockets :
      Ret (from.State × to.State) (Unit {0}) → Ret (from.State × to.State) (Unit {0})
  drop_sockets r = unwind (on_to (drop_wrapper to)) (unwind (on_from (drop_wrapper from)) r)

module _ {W : Type 0} where
  -- `SocketWrapper::new(..).open()?`
  abbrev pub opened : (K : ComplexSock) → K.State → M W K.State
  opened K s = do done ← on_owned (open_wrapper K) s; pure done.1

  -- A socket of a factory, opened: with its mode set, and without.
  unfoldable pub opened_blockctl :
      (factory : SocketFactory W) → SocketParams → Bool → M W factory.sock.State
  opened_blockctl factory params blocking = do
    soc ← create_sock_blockctl factory params blocking
    opened factory.sock soc

  unfoldable pub opened_sock : (factory : SocketFactory W) → SocketParams → M W factory.sock.State
  opened_sock factory params = do soc ← factory.create_sock params; opened factory.sock soc

  -- While a wrapper is alive a failure drops it, which `d` does.
  abbrev pub holding : {S A : Type 0} → M S (Unit {0}) → S → M W A → M W A
  holding d input m w =
      unwind_failed (λ w. let c = d input in record { out = c.out; state = w; log = c.log }) (m w)

-- The pair of factories that a manager refers to.
pub record SocketManager (W : Type 0) : Type 1 where
  pub in_factory : SocketFactory W
  pub out_factory : SocketFactory W

module _ {W : Type 0} where
  abbrev pub new_manager : SocketFactory W → SocketFactory W → SocketManager W
  new_manager in_factory out_factory = record { in_factory = in_factory; out_factory = out_factory }

  abbrev set_in_factory : SocketFactory W → SocketManager W → SocketManager W
  set_in_factory in_factory manager = record manager { in_factory = in_factory }

  abbrev set_out_factory : SocketFactory W → SocketManager W → SocketManager W
  set_out_factory out_factory manager = record manager { out_factory = out_factory }

  abbrev pub Pair : SocketFactory W → SocketFactory W → Type 0
  Pair in_factory out_factory = in_factory.sock.State × out_factory.sock.State

module _ {W : Type 0} (manager : SocketManager W) where
  open manager use {in_factory, out_factory}

  -- The sockets that `create_binding_thread` is then given, with the flag set.
  unfoldable pub bind_unidirectional :
      SocketParams → SocketParams → Bool → M W (Pair in_factory out_factory)
  bind_unidirectional in_params out_params blocking = do
    input ← opened_blockctl in_factory in_params blocking
    output ← holding (drop_wrapper in_factory.sock) input (opened_sock out_factory out_params)
    pure (input, output)

  unfoldable pub bind_bidirectional :
      SocketParams → SocketParams → M W (Pair in_factory out_factory)
  bind_bidirectional from_params to_params = do
    from ← opened_blockctl in_factory from_params false
    to ← holding (drop_wrapper in_factory.sock) from (opened_blockctl out_factory to_params false)
    pure (from, to)
