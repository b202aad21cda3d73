-- ===== src/Terminal/Modes.antt =====
-- src/sockets/terminal.rs: the two modes of the terminal, and the end of its thread.
use polysock.Base.{ℕ, ◌≤◌, ◌≡◌, refl, ◌∙◌, Bool, true, false, Option, none, some, List, [], ◌∷◌}
use polysock.Sock.{create_sock_blockctl}
use polysock.Base.{
  String, Ret, from_kind, resource_busy, Outcome, ok, err, panic, undefined, exit, no_fuel, returns,
  length, arith, min, le→ltb,
}
use mathlib.Core.Option.{IsSome}
use polysock.Terminal.{
  Console, Thread, at_work, finished, SimpleTerminalNonblocking, read_blocking, read_nonblocking,
  SimpleTerminal, with_io, reader_round, background,
}
use polysock.Terminal.Socket.{
  receive, nonblocking, read_terminal, last_round, taken, join_thread, stop_thread, set_block,
  drop_terminal, default, terminal_factory,
}
use polysock.Terminal.Handles.{
  Threaded, Joined, background-Threaded, background-Joined, background-read,
}

-- What a read that does not block can answer: a count within the buffer, or that the thread is gone.
abbrev pub Answers : ℕ → Outcome (ℕ × List ℕ) → Type 0
Answers sz (ok (count, bytes)) = count ≤ sz
Answers sz (err e) = e ≡ from_kind resource_busy
Answers sz panic = ⊥
Answers sz undefined = ⊥
Answers sz (exit n) = ⊥
Answers sz no_fuel = ⊥

module _ (console : Console) where
  -- The terminal does not block, and its thread has not been joined.
  abbrev pub IsNonblocking : SimpleTerminal console → Type 0
  IsNonblocking term = (term.read ≡ read_nonblocking) × Threaded term.non_block_ctl

  last_round-some :
      (thread : Thread) (within : Bool) (ctl : SimpleTerminalNonblocking)
      (term : SimpleTerminal console)
      → term.non_block_ctl ≡ some ctl
      → (ctl' : SimpleTerminalNonblocking) × ((last_round console thread within ctl
            term).non_block_ctl
          ≡ some ctl')
  unfolding reader_round
  last_round-some at_work true ctl term e = (_, refl)
  last_round-some at_work false ctl term e = (ctl, e)
  last_round-some (finished o) within ctl term e = (ctl, e)

  taken-Joined :
      (term : SimpleTerminal console) (ctl : SimpleTerminalNonblocking)
      → term.non_block_ctl ≡ some ctl
      → Joined (taken console term).non_block_ctl
  taken-Joined term ctl e = rw (e, taken) refl

  -- A thread that has not been joined can be.
  join_thread-lem :
      (handle : Option Thread) (ctl : SimpleTerminalNonblocking) (term : SimpleTerminal console)
      → term.non_block_ctl ≡ some ctl
      → IsSome handle
      → (term' : SimpleTerminal console) × (join_thread console handle ctl term
          ≡ returns tt term' [])
        × Joined term'.non_block_ctl
  join_thread-lem none ctl term e h = absurd h
  join_thread-lem (some thread) ctl term e h =
      let r = console.within_read term.io in
      let (ctl', e') = last_round-some thread r.0 ctl (with_io console term r.1) e in
      (_, refl, taken-Joined (last_round console thread r.0 ctl (with_io console term r.1)) ctl' e')

  stop_thread-lem :
      (c : Option SimpleTerminalNonblocking) (term : SimpleTerminal console)
      → term.non_block_ctl ≡ c
      → Threaded c
      → (term' : SimpleTerminal console) × (stop_thread console c term ≡ returns tt term' [])
        × Joined term'.non_block_ctl
  stop_thread-lem none term e h = absurd h
  stop_thread-lem (some ctl) term e h = join_thread-lem ctl.handle ctl term e h

  stop_thread-panic :
      (c : Option SimpleTerminalNonblocking) (term : SimpleTerminal console)
      → Joined c
      → (stop_thread console c term).out ≡ panic
  stop_thread-panic none term h = absurd h
  stop_thread-panic (some ctl) term h = rw h refl

  set_block-false :
      (term : SimpleTerminal console) → Threaded (set_block console false term).state.non_block_ctl
  unfolding set_block
  set_block-false term = tt

  set_block-joins :
      (term : SimpleTerminal console)
      → Threaded term.non_block_ctl
      → let r = set_block console true term in
        (r.out ≡ ok tt) × Joined r.state.non_block_ctl × (r.state.read ≡ read_blocking)
  unfolding set_block
  set_block-joins term h =
      let t = background console term in
      let (t', e, j) =
        stop_thread-lem t.non_block_ctl t refl (background-Threaded console term h) in
      rw e (refl, j, refl)

  set_block-Joined :
      (term : SimpleTerminal console)
      → Joined term.non_block_ctl
      → (set_block console true term).out ≡ panic
  unfolding set_block
  set_block-Joined term h =
      let t = background console term in
      rw (stop_thread-panic t.non_block_ctl t (background-Joined console term h))

  -- A terminal that is put into non-blocking mode and back again ends its thread, but a second
  -- return to blocking mode panics, and so does the drop of the terminal.
  pub set_block-panics :
      (term : SimpleTerminal console)
      → let there = (set_block console false term).state in
        let back = (set_block console true there).state in
        ((set_block console true there).out ≡ ok tt)
        × ((set_block console true back).out ≡ panic)
        × ((drop_terminal console back).out ≡ panic)
  unfolding drop_terminal
  set_block-panics term =
      let there = (set_block console false term).state in
      let (done, joined, mode) = set_block-joins there (set_block-false term) in
      let back = (set_block console true there).state in
      (
        done,
        set_block-Joined back joined,
        stop_thread-panic _ _ (background-Joined console back joined),
      )

  -- What `try_recv` leads to, and what it leaves.
  abbrev Good : ℕ → Ret (SimpleTerminal console) (ℕ × List ℕ) → Type 0
  Good sz r = IsNonblocking r.state × Answers sz r.out

  receive-Good :
      (thread : Option Thread) (queue : List (List ℕ)) (ctl : SimpleTerminalNonblocking)
      (bytes : List ℕ) (sz : ℕ) (term : SimpleTerminal console)
      → sz ≤ length bytes
      → IsNonblocking term
      → IsSome ctl.handle
      → Good sz (receive console thread queue ctl bytes sz term)
  receive-Good (some at_work) [] ctl bytes sz term fits n h = (n, omega arith)
  receive-Good (some (finished o)) [] ctl bytes sz term fits n h = (n, refl)
  receive-Good none [] ctl bytes sz term fits n h = (n, refl)
  receive-Good thread (buf ∷ rest) ctl bytes sz term fits n h =
      rw (le→ltb (length bytes) (min (length buf) sz) (omega (arith, fits))) ((n.0, h), omega arith)

  nonblocking-Good :
      (c : Option SimpleTerminalNonblocking) (bytes : List ℕ) (sz : ℕ)
      (term : SimpleTerminal console)
      → sz ≤ length bytes
      → IsNonblocking term
      → Threaded c
      → Good sz (nonblocking console c bytes sz term)
  nonblocking-Good none bytes sz term fits n h = absurd h
  nonblocking-Good (some ctl) bytes sz term fits n h =
      receive-Good ctl.handle ctl.stdin ctl bytes sz term fits n h

  -- A read of a terminal that does not block and whose thread has not been joined never panics,
  -- whatever the threads do in the background: it returns no more than was asked for, which the
  -- buffer holds, or says that the thread is gone; and the terminal stays so.
  pub read_terminal-Answers :
      (term : SimpleTerminal console) (bytes : List ℕ) (sz : ℕ)
      → IsNonblocking term
      → sz ≤ length bytes
      → let r = read_terminal console bytes sz term in IsNonblocking r.state × Answers sz r.out
  unfolding read_terminal
  read_terminal-Answers term bytes sz (mode, threaded) fits =
      let t = background console term in
      let mode' = background-read console term ∙ mode in
      simp mode' (
        nonblocking-Good t.non_block_ctl bytes sz t fits
          (mode', background-Threaded console term threaded)
          (background-Threaded console term threaded))

  -- A terminal that the factory makes without blocking is such a terminal.
  pub create_sock-IsNonblocking :
      (io : console.State) (params : String) (next_id : ℕ)
      → (term : SimpleTerminal console) × ((create_sock_blockctl
            (terminal_factory console io)
            params
            false
            next_id).out
          ≡ ok term)
        × IsNonblocking term
  unfolding create_sock_blockctl default set_block
  create_sock-IsNonblocking io params next_id = (_, refl, (refl, tt))
