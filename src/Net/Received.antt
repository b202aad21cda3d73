-- ===== src/Net/Received.antt =====
-- What comes over a socket of the operating system, read by read, and the messages that `read_all`
-- of src/sock/mod.rs makes of it for src/sockets/tcp_client.rs and udp.rs.
use polysock.Base.{ℕ, suc, ◌^◌, ◌≤◌, ◌<◌, ◌≡◌, refl, true, List, [], ◌∷◌, ◌++◌, arith}
use polysock.Base.{length, write_at, Error, returns}
use polysock.Sock.{ComplexSock}
use polysock.Sock.Wrapper.{u8, read_all}
use polysock.Sock.Wrapper.Delivers.{Delivers, last, more, read_all_loop-Delivers}
use polysock.Sock.Manager.Copies.{Yields, nothing, yield}
use polysock.Net.{Result, success, failure, is_would_block}

module _ {S : Type 0} (recv : ℕ → S → Result (List ℕ) × S) where
  -- Reads of 1024 bytes come back full until one is short or would block: `bytes` is what they
  -- return, and `n` their number.
  pub data Received (end : S) : S → List ℕ → ℕ → Type 0 where
    short :
        {s : S} {bytes : List ℕ}
        → recv 1024 s ≡ (success bytes, end)
        → length bytes < 1024
        → Received end s bytes 1
    dry :
        {s : S} {e : Error}
        → recv 1024 s ≡ (failure e, end)
        → is_would_block e ≡ true
        → Received end s [] 1
    filled :
        {s s' : S} {chunk rest bytes : List ℕ} {n m : ℕ}
        → recv 1024 s ≡ (success chunk, s')
        → length chunk ≡ 1024
        → Received end s' rest n
        → bytes ≡ chunk ++ rest
        → m ≡ suc n
        → Received end s bytes m

  -- Messages that come one after the other, each in at most `fuel` reads.
  pub data Messages (fuel : ℕ) (end : S) : S → List (List ℕ) → Type 0 where
    silent : Messages fuel end end []
    message :
        {s s' : S} {bytes : List ℕ} {rest : List (List ℕ)} {n : ℕ}
        → Received s' s bytes n
        → n ≤ fuel
        → length bytes < 2 ^ 64
        → Messages fuel end s' rest
        → Messages fuel end s (bytes ∷ rest)

  -- A socket of the program, in the state `at s`, reads from the socket `s` of the operating system.
  pub record IsReceiver (K : ComplexSock) (at : S → K.State) : Type 0 where
    pub answers :
        {s s' : S} {bytes : List ℕ} (buffer : List ℕ)
        → length buffer ≡ 1024
        → recv 1024 s ≡ (success bytes, s')
        → K.read buffer 1024 (at s) ≡ returns (length bytes, write_at buffer 0 bytes) (at s') []
    pub idles :
        {s s' : S} {e : Error} (buffer : List ℕ)
        → length buffer ≡ 1024
        → recv 1024 s ≡ (failure e, s')
        → is_would_block e ≡ true
        → K.read buffer 1024 (at s) ≡ returns (0, buffer) (at s') []

  module _ (K : ComplexSock) (at : S → K.State) (law : IsReceiver K at) where
    Delivers-Received :
        {end s : S} {bytes : List ℕ} {n : ℕ}
        → Received end s bytes n
        → Delivers K 1024 (at end) (at s) bytes n []
    Delivers-Received (short got small) = last small (λ buffer e. law.answers buffer e got)
    Delivers-Received (dry got blocks) =
        last {bs = []} (omega arith) (λ buffer e. law.idles buffer e got blocks)
    Delivers-Received (filled {chunk} {rest} got whole others split count) =
        more chunk rest [] [] whole (λ buffer e. law.answers buffer e got)
          (Delivers-Received others) split refl count

    -- One call of `read_all` returns what the reads do, given a round of fuel for each.
    pub read_all-Received :
        (fuel : ℕ) {end s : S} {bytes : List ℕ} {n : ℕ}
        → Received end s bytes n
        → n ≤ fuel
        → read_all K u8 fuel (at s) ≡ returns bytes (at end) []
    unfolding read_all
    read_all-Received fuel received enough =
        read_all_loop-Delivers K 1024 (omega arith) (omega arith) fuel []
          (Delivers-Received received) enough

    pub Yields-Messages :
        (fuel : ℕ) {end s : S} {msgs : List (List ℕ)}
        → Messages fuel end s msgs
        → Yields K fuel (at end) (at s) msgs
    Yields-Messages fuel silent = nothing
    Yields-Messages fuel (message received enough small rest) =
        yield small (read_all-Received fuel received enough) (Yields-Messages fuel rest)
