-- ===== src/Terminal/Lines.antt =====
-- src/sockets/terminal.rs and the thread of src/sock/mod.rs: lines from the terminal to another
-- socket, in the blocking mode of the terminal.
use polysock.Base.{ℕ, suc, ◌<◌, ◌≡◌, refl, true, false, List, [], ◌∷◌, ◌++◌, arith}
use polysock.Base.{length, replicate, write_at, Event, M, returns}
use polysock.Sock.{ComplexSock}
use polysock.Sock.Wrapper.{read_all}
use polysock.Sock.Wrapper.Delivers.{last, read_all_loop-Delivers}
use polysock.Sock.Manager.{binding_thread}
use polysock.Sock.Manager.Copies.{Yields, nothing, yield, Accepts, binding_thread-copies}
use polysock.Net.{Result, success}
use polysock.Terminal.{
  Console, read_blocking, SimpleTerminal, calling, or_panic, prompt, prompt_and_read, read_into,
  background,
}
use polysock.Terminal.Socket.{read_terminal, terminal}

module _ (console : Console) where
  open console use {State, print, flush, readers}

  -- What is typed, line by line: at each read of the terminal, which no thread reads beside, the
  -- console takes one prompt and answers one read with a line of fewer than 1024 bytes.
  pub data Typed (end : State) : State → List (List ℕ) → Type 0 where
    silent : Typed end end []
    line :
        {s s1 s2 s3 s4 : State} {bytes : List ℕ} {rest : List (List ℕ)}
        → readers s ≡ ([], s1)
        → print "stdio# " s1 ≡ (success tt, s2)
        → flush s2 ≡ (success tt, s3)
        → console.read 1024 s3 ≡ (success bytes, s4)
        → length bytes < 1024
        → Typed end s4 rest
        → Typed end s (bytes ∷ rest)

  calling-ok :
      {A : Type 0} (call : State → Result A × State) (s : State) {a : A} {s' : State}
      → call s ≡ (success a, s')
      → calling console call s ≡ returns a s' []
  calling-ok call s e = rw (e, calling, e)

  or_panic-ok :
      {A : Type 0} (m : M State A) (s : State) {a : A} {s' : State}
      → m s ≡ returns a s' []
      → or_panic console m s ≡ returns a s' []
  or_panic-ok m s e = rw (e, or_panic, e)

  prompt-ok :
      {s1 s2 s3 : State}
      → print "stdio# " s1 ≡ (success tt, s2)
      → flush s2 ≡ (success tt, s3)
      → prompt console s1 ≡ returns tt s3 []
  unfolding prompt
  prompt-ok {s1} {s2} p f = rw (
    or_panic-ok (calling console (print "stdio# ")) s1 (calling-ok (print "stdio# ") s1 p),
    calling-ok flush s2 f,
  )

  pub prompt_and_read-ok :
      {s1 s2 s3 s4 : State} {bytes : List ℕ}
      → print "stdio# " s1 ≡ (success tt, s2)
      → flush s2 ≡ (success tt, s3)
      → console.read 1024 s3 ≡ (success bytes, s4)
      → prompt_and_read console 1024 s1 ≡ returns bytes s4 []
  unfolding prompt_and_read
  prompt_and_read-ok {s3} p f r = rw (prompt-ok p f, calling-ok (console.read 1024) s3 r)

  read_into-ok :
      (buffer : List ℕ) {s1 s2 s3 s4 : State} {bytes : List ℕ}
      → length buffer ≡ 1024
      → print "stdio# " s1 ≡ (success tt, s2)
      → flush s2 ≡ (success tt, s3)
      → console.read 1024 s3 ≡ (success bytes, s4)
      → read_into console buffer 1024 s1 ≡ returns (length bytes, write_at buffer 0 bytes) s4 []
  unfolding read_into
  read_into-ok buffer {s3} full p f r =
      rw (prompt-ok p f, full, calling-ok (console.read 1024) s3 r)

  -- A terminal in blocking mode.
  abbrev pub blocked : SimpleTerminal console → State → SimpleTerminal console
  blocked term s = record term { read = read_blocking; io = s }

  read-blocked :
      (term : SimpleTerminal console) (buffer : List ℕ) {s s1 s2 s3 s4 : State} {bytes : List ℕ}
      → length buffer ≡ 1024
      → readers s ≡ ([], s1)
      → print "stdio# " s1 ≡ (success tt, s2)
      → flush s2 ≡ (success tt, s3)
      → console.read 1024 s3 ≡ (success bytes, s4)
      → read_terminal console buffer 1024 (blocked term s)
        ≡ returns (length bytes, write_at buffer 0 bytes) (blocked term s4) []
  unfolding read_terminal background
  read-blocked term buffer full e p f r = rw (e, read_into-ok buffer full p f r) refl

  Yields-Typed :
      (fuel : ℕ) (term : SimpleTerminal console) {end s : State} {lines : List (List ℕ)}
      → Typed end s lines
      → Yields (terminal console) (suc fuel) (blocked term end) (blocked term s) lines
  unfolding read_all
  Yields-Typed fuel term silent = nothing
  Yields-Typed fuel term {s} (line {s4} {bytes} e p f r short rest) =
      yield (omega arith)
        (read_all_loop-Delivers (terminal console) 1024 (omega arith) (omega arith) (suc fuel) []
          (last short (λ buffer full. read-blocked term buffer full e p f r)) (omega arith))
        (Yields-Typed fuel term rest)

  -- From a terminal in blocking mode to a socket that accepts the lines, a thread hands on each line
  -- of fewer than 1024 bytes as one message, in the order in which they are typed, and ends without
  -- an error when the flag is cleared.
  pub binding_thread-lines :
      (to : ComplexSock) (fuel : ℕ) (term : SimpleTerminal console) (end s : State)
      (t end' : to.State) (lines : List (List ℕ))
      → Typed end s lines
      → Accepts to end' t lines
      → (log : List Event) × (binding_thread
            (terminal console)
            to
            (suc fuel)
            (replicate (length lines) true ++ (false ∷ []))
            (blocked term s, t)
          ≡ returns tt (blocked term end, end') log)
  binding_thread-lines to fuel term end s t end' lines typed accepts =
      binding_thread-copies (terminal console) to (suc fuel) lines (Yields-Typed fuel term typed)
        accepts
