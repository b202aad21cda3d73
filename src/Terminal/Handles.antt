-- ===== src/Terminal/Handles.antt =====
-- src/sockets/terminal.rs: the handle of the terminal's thread while threads run in the background.
use polysock.Base.{
  ℕ, zero, suc, ◌≡◌, refl, ◌∙◌, Bool, true, false, Option, none, some, List, [], ◌∷◌,
}
use polysock.Base.{Outcome, ok, err, panic, undefined, exit, no_fuel}
use mathlib.Core.Option.{IsSome}
use polysock.Terminal.{
  Console, Reader, own, left_behind, Thread, at_work, finished, SimpleTerminalNonblocking,
  SimpleTerminal, with_io, reader_round, send_chunk, own_turn, own_turn_of, left_turn, reader_turn,
  reader_turns, background,
}

-- There is a thread that has not been joined; there is one that has.
abbrev pub Threaded : Option SimpleTerminalNonblocking → Type 0
Threaded none = ⊥
Threaded (some ctl) = IsSome ctl.handle

abbrev pub Joined : Option SimpleTerminalNonblocking → Type 0
Joined none = ⊥
Joined (some ctl) = ctl.handle ≡ none

module _ (console : Console) where
  send_chunk-handle :
      (o : Outcome (List ℕ)) (ctl : SimpleTerminalNonblocking)
      → IsSome ctl.handle
      → IsSome (send_chunk console o ctl).handle
  unfolding send_chunk
  send_chunk-handle (ok chunk) ctl h = h
  send_chunk-handle (err e) ctl h = tt
  send_chunk-handle panic ctl h = tt
  send_chunk-handle undefined ctl h = tt
  send_chunk-handle (exit n) ctl h = tt
  send_chunk-handle no_fuel ctl h = tt

  own_turn-Threaded :
      (handle : Option Thread) (running : Bool) (ctl : SimpleTerminalNonblocking)
      (term : SimpleTerminal console)
      → ctl.handle ≡ handle
      → Threaded term.non_block_ctl
      → Threaded (own_turn console handle running ctl term).non_block_ctl
  unfolding reader_round
  own_turn-Threaded (some at_work) true ctl term e h = send_chunk-handle _ ctl (rw e tt)
  own_turn-Threaded (some at_work) false ctl term e h = tt
  own_turn-Threaded (some (finished o)) running ctl term e h = h
  own_turn-Threaded none running ctl term e h = h

  -- A joined thread takes no turn.
  own_turn-Joined :
      (handle : Option Thread) (running : Bool) (ctl : SimpleTerminalNonblocking)
      (term : SimpleTerminal console)
      → handle ≡ none
      → own_turn console handle running ctl term ≡ term
  own_turn-Joined handle running ctl term e = rw e refl

  own_turn_of-Threaded :
      (c : Option SimpleTerminalNonblocking) (term : SimpleTerminal console)
      → term.non_block_ctl ≡ c
      → Threaded term.non_block_ctl
      → Threaded (own_turn_of console c term).non_block_ctl
  own_turn_of-Threaded none term e h = h
  own_turn_of-Threaded (some ctl) term e h =
      own_turn-Threaded ctl.handle ctl.running ctl term refl h

  own_turn_of-Joined :
      (c : Option SimpleTerminalNonblocking) (term : SimpleTerminal console)
      → Joined c
      → own_turn_of console c term ≡ term
  own_turn_of-Joined none term h = absurd h
  own_turn_of-Joined (some ctl) term h = own_turn-Joined ctl.handle ctl.running ctl term h

  left_turn-ctl :
      (n : ℕ) (term : SimpleTerminal console)
      → (left_turn console n term).non_block_ctl ≡ term.non_block_ctl
  left_turn-ctl zero term = refl
  left_turn-ctl (suc n) term = refl

  reader_turn-Threaded :
      (reader : Reader) (term : SimpleTerminal console)
      → Threaded term.non_block_ctl
      → Threaded (reader_turn console reader term).non_block_ctl
  reader_turn-Threaded own term h = own_turn_of-Threaded term.non_block_ctl term refl h
  reader_turn-Threaded left_behind term h = rw (left_turn-ctl term.left term) h

  reader_turn-Joined :
      (reader : Reader) (term : SimpleTerminal console)
      → Joined term.non_block_ctl
      → Joined (reader_turn console reader term).non_block_ctl
  reader_turn-Joined own term h = rw (own_turn_of-Joined term.non_block_ctl term h) h
  reader_turn-Joined left_behind term h = rw (left_turn-ctl term.left term) h

  -- No turn changes the function that `read` is.
  own_turn-read :
      (handle : Option Thread) (running : Bool) (ctl : SimpleTerminalNonblocking)
      (term : SimpleTerminal console)
      → (own_turn console handle running ctl term).read ≡ term.read
  unfolding reader_round
  own_turn-read (some at_work) true ctl term = refl
  own_turn-read (some at_work) false ctl term = refl
  own_turn-read (some (finished o)) running ctl term = refl
  own_turn-read none running ctl term = refl

  own_turn_of-read :
      (c : Option SimpleTerminalNonblocking) (term : SimpleTerminal console)
      → (own_turn_of console c term).read ≡ term.read
  own_turn_of-read none term = refl
  own_turn_of-read (some ctl) term = own_turn-read ctl.handle ctl.running ctl term

  left_turn-read :
      (n : ℕ) (term : SimpleTerminal console) → (left_turn console n term).read ≡ term.read
  left_turn-read zero term = refl
  left_turn-read (suc n) term = refl

  reader_turn-read :
      (reader : Reader) (term : SimpleTerminal console)
      → (reader_turn console reader term).read ≡ term.read
  reader_turn-read own term = own_turn_of-read term.non_block_ctl term
  reader_turn-read left_behind term = left_turn-read term.left term

  -- What each turn keeps, the background keeps.
  reader_turns-keep :
      (P : SimpleTerminal console → Type 0)
      → ((reader : Reader) (term : SimpleTerminal console)
          → P term
          → P (reader_turn console reader term))
      → (readers : List Reader) (term : SimpleTerminal console) → P term
      → P (reader_turns console readers term)
  reader_turns-keep P keep [] term h = h
  reader_turns-keep P keep (reader ∷ rest) term h =
      reader_turns-keep P keep rest (reader_turn console reader term) (keep reader term h)

  background-keep :
      (P : SimpleTerminal console → Type 0)
      → ((reader : Reader) (term : SimpleTerminal console)
          → P term
          → P (reader_turn console reader term))
      → (term : SimpleTerminal console) → P (with_io console term (console.readers term.io).1)
      → P (background console term)
  unfolding background
  background-keep P keep term h =
      let r = console.readers term.io in reader_turns-keep P keep r.0 (with_io console term r.1) h

  pub background-Threaded :
      (term : SimpleTerminal console)
      → Threaded term.non_block_ctl
      → Threaded (background console term).non_block_ctl
  background-Threaded term h =
      background-keep (λ t. Threaded t.non_block_ctl) reader_turn-Threaded term h

  pub background-Joined :
      (term : SimpleTerminal console)
      → Joined term.non_block_ctl
      → Joined (background console term).non_block_ctl
  background-Joined term h = background-keep (λ t. Joined t.non_block_ctl) reader_turn-Joined term h

  pub background-read : (term : SimpleTerminal console) → (background console term).read ≡ term.read
  background-read term =
      background-keep (λ t. t.read ≡ term.read) (λ reader t e. reader_turn-read reader t ∙ e) term
        refl
