-- ===== src/Sock/Manager/Copies.antt =====
-- src/sock/mod.rs: the messages that the thread copies from one socket to another.
use polysock.Base.{
  ℕ, ◌^◌, ◌<◌, ◌≡◌, refl, sym, ap, ap₂, ◌∙◌, Bool, true, false, List, [], ◌∷◌, ◌++◌, append-nil,
  arith,
}
use polysock.Base.{Ret, Event, returns, prepend, prepend-prepend, sleep_micros, length, replicate}
use polysock.Sock.{ComplexSock}
use polysock.Sock.Wrapper.{u8, read_all, generic_write}
use polysock.Sock.Wrapper.Bytes.{u8-IsPod, encode-u8}
use polysock.Sock.Wrapper.Transfer.{generic_write_lem}
use polysock.Sock.Manager.{transfer, binding_thread}

-- Written one by one, the messages are accepted by a socket and bring it to state `end`.
pub data Accepts (to : ComplexSock) (end : to.State) : to.State → List (List ℕ) → Type 0 where
  none_left : Accepts to end end []
  accept :
      {t t' : to.State} {bytes : List ℕ} {rest : List (List ℕ)} {l : List Event}
      → to.write bytes (length bytes) t ≡ returns tt t' l
      → Accepts to end t' rest
      → Accepts to end t (bytes ∷ rest)

-- Calls of `read_all` one after the other return the messages, which fit into memory.
pub data Yields (from : ComplexSock) (fuel : ℕ) (end : from.State)
    : from.State → List (List ℕ) → Type 0 where
  nothing : Yields from fuel end end []
  yield :
      {s s' : from.State} {bytes : List ℕ} {rest : List (List ℕ)} {l : List Event}
      → length bytes < 2 ^ 64
      → read_all from u8 fuel s ≡ returns bytes s' l
      → Yields from fuel end s' rest
      → Yields from fuel end s (bytes ∷ rest)

write_u8 :
    (to : ComplexSock) (bs : List ℕ)
    → length bs < 2 ^ 64
    → generic_write to u8 bs (length bs) ≡ to.write bs (length bs)
write_u8 to bs small =
    generic_write_lem to u8 u8-IsPod bs (omega (arith, small))
    ∙ ap₂ to.write (encode-u8 bs) (omega arith)

module _ (from to : ComplexSock) where
  -- One round of the thread.
  pub transfer_lem :
      (fuel : ℕ) (s : from.State) {s' : from.State} {bs : List ℕ} {l l' : List Event}
      {t t' : to.State}
      → length bs < 2 ^ 64
      → read_all from u8 fuel s ≡ returns bs s' l
      → to.write bs (length bs) t ≡ returns tt t' l'
      → transfer from to fuel (s, t) ≡ returns tt (s', t') (l ++ (l' ++ (sleep_micros 1 ∷ [])))
  unfolding transfer
  transfer_lem fuel s {bs} small reads writes = rw (reads, write_u8 to bs small, writes) refl

  pub thread_step :
      (fuel : ℕ) (loads : List Bool) (p p' : from.State × to.State) (l l' : List Event)
      (r : Ret (from.State × to.State) (Unit {0}))
      → transfer from to fuel p ≡ returns tt p' l
      → binding_thread from to fuel loads p' ≡ prepend l' r
      → binding_thread from to fuel (true ∷ loads) p ≡ prepend (l ++ l') r
  unfolding binding_thread
  thread_step fuel loads p p' l l' r e f = rw (e, f) (prepend-prepend l l' r)

  -- While the flag is set, each round copies one message: where the one socket yields some messages
  -- and the other accepts them, the thread hands exactly these messages on, in their order, and when
  -- the flag is cleared then it ends without an error.
  pub binding_thread-copies :
      (fuel : ℕ) (msgs : List (List ℕ)) {s end : from.State} {t end' : to.State}
      → Yields from fuel end s msgs
      → Accepts to end' t msgs
      → (log : List Event) × (binding_thread from to fuel
            (replicate (length msgs) true ++ (false ∷ []))
            (s, t)
          ≡ returns tt (end, end') log)
  unfolding binding_thread
  binding_thread-copies fuel [] nothing none_left = ([], refl)
  binding_thread-copies fuel (bytes ∷ rest) {s} {end} {t} {end'} (yield {s'} {l} small reads ys)
        (accept {t'} {l = l'} writes acs) =
      let (log, runs) = binding_thread-copies fuel rest ys acs in
      let first = l ++ (l' ++ (sleep_micros 1 ∷ [])) in
      (
        first ++ log,
        thread_step fuel (replicate (length rest) true ++ (false ∷ [])) (s, t) (s', t') first log
              (returns tt (end, end') []) (transfer_lem fuel s small reads writes)
              (runs ∙ ap (returns tt (end, end')) (sym (append-nil log)))
            ∙ ap (returns tt (end, end')) (append-nil (first ++ log)),
      )
