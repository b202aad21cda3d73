-- ===== src/Terminal.antt =====
-- src/sockets/terminal.rs: the socket of the terminal. In non-blocking mode a thread reads the
-- standard input and sends what it reads through a channel.
pub mod Socket
pub mod Handles
pub mod Modes
pub mod Lines
pub mod Queued
use polysock.Base.{
  ℕ, zero, suc, ◌+◌, String, Bool, true, false, Option, none, some, List, [], ◌∷◌, ◌++◌, min,
}
use polysock.Base.{ltb, if◌then◌else◌, length, take, write_at}
use polysock.Base.{
  M, Outcome, ok, err, panic, from_kind, resource_busy, lift, pure, ◌>>=◌, ◌>>◌, returns,
}
use polysock.Sock.{ComplexSock, SocketFactory, description, doc_default, fetch_add}
use polysock.Net.{Result, success, failure}

-- Whose turn it is to read the standard input in the background: the thread of the terminal, or one
-- that an earlier call of `set_block` has left behind.
pub data Reader : Type 0 where
  own left_behind : Reader

-- The console: the calls of the standard input and output, and what is left to chance: which threads
-- get to read before an operation, and whether a thread that is joined is within a read.
pub record Console : Type 1 where
  pub State : Type 0
  pub print : String → State → Result (Unit {0}) × State
  pub flush : State → Result (Unit {0}) × State
  pub read : ℕ → State → Result (List ℕ) × State
  pub write_all : List ℕ → State → Result (Unit {0}) × State
  pub readers : State → List Reader × State
  pub within_read : State → Bool × State

-- The thread of `spawn_stdin_channel`: at work, or ended.
pub data Thread : Type 0 where
  at_work : Thread
  finished : Outcome (Unit {0}) → Thread

-- `stdin` is the channel: the chunks that have been sent and not been received.
pub record SimpleTerminalNonblocking : Type 0 where
  pub running : Bool
  pub handle : Option Thread
  pub stdin : List (List ℕ)

-- `SimpleTermReadCb`: the two functions that `read` can be.
pub data SimpleTermReadCb : Type 0 where
  read_blocking read_nonblocking : SimpleTermReadCb

abbrev pub chunk_size : ℕ
chunk_size = 1024

module _ (console : Console) where
  open console use {print, flush, write_all, readers, within_read}

  -- The terminal, with the console, and the number of threads that are left behind.
  pub record SimpleTerminal : Type 0 where
    pub stype : String
    pub id : ℕ
    pub non_block_ctl : Option SimpleTerminalNonblocking
    pub read : SimpleTermReadCb
    pub io : console.State
    pub left : ℕ

  abbrev pub with_io : SimpleTerminal → console.State → SimpleTerminal
  with_io term io = record term { io = io }

  abbrev pub with_ctl : SimpleTerminal → SimpleTerminalNonblocking → SimpleTerminal
  with_ctl term ctl = record term { non_block_ctl = some ctl }

  -- A call of the console, whose failure is returned; `print!` panics in place of that.
  abbrev pub calling : {A : Type 0} → (console.State → Result A × console.State) → M console.State A
  calling call io =
      let r = call io in
      elim r.0 [
        | success a ↦ returns a r.1 []
        | failure e ↦ record { out = err e; state = r.1; log = [] }
      ]

  abbrev pub or_panic : {A : Type 0} → M console.State A → M console.State A
  or_panic m io = let r = m io in elim r.out [ err e ↦ record r { out = panic } | other ↦ r ]

  -- The prompt of `read_blocking`.
  unfoldable pub prompt : M console.State (Unit {0})
  prompt = do or_panic (calling (print "stdio# ")); calling flush

  -- `read_blocking` into a buffer of `sz` bytes, and into a buffer that may be shorter.
  unfoldable pub prompt_and_read : ℕ → M console.State (List ℕ)
  prompt_and_read sz = do prompt; calling (console.read sz)

  unfoldable pub read_into : List ℕ → ℕ → M console.State (ℕ × List ℕ)
  read_into bytes sz = do
    prompt
    if ltb (length bytes) sz then lift panic else pure tt
    chunk ← calling (console.read sz)
    pure (length chunk, write_at bytes 0 chunk)

  -- A round of the thread of `spawn_stdin_channel` that has found the flag set. `unwrap` panics if
  -- the read fails; the send succeeds, since the receiver is there.
  unfoldable pub send_chunk :
      Outcome (List ℕ) → SimpleTerminalNonblocking → SimpleTerminalNonblocking
  send_chunk (ok chunk) ctl = record ctl { stdin = ctl.stdin ++ (chunk ∷ []) }
  send_chunk other ctl = record ctl { handle = some (finished panic) }

  unfoldable pub reader_round : SimpleTerminalNonblocking → SimpleTerminal → SimpleTerminal
  reader_round ctl term =
      let r = prompt_and_read chunk_size term.io in
      record term { non_block_ctl = some (send_chunk r.out ctl); io = r.state }

  -- A turn of the terminal's own thread, which has the handle and the flag that are given.
  abbrev pub own_turn :
      Option Thread → Bool → SimpleTerminalNonblocking → SimpleTerminal → SimpleTerminal
  own_turn (some at_work) true ctl term = reader_round ctl term
  own_turn (some at_work) false ctl term =
      with_ctl term (record ctl { handle = some (finished (ok tt)) })
  own_turn (some (finished o)) running ctl term = term
  own_turn none running ctl term = term

  -- A turn of a thread that is left behind. It ends with its first chunk, since its receiver is
  -- gone, or panics.
  abbrev pub left_turn : ℕ → SimpleTerminal → SimpleTerminal
  left_turn zero term = term
  left_turn (suc n) term = record term { left = n; io = (prompt_and_read chunk_size term.io).state }

  abbrev pub own_turn_of : Option SimpleTerminalNonblocking → SimpleTerminal → SimpleTerminal
  own_turn_of none term = term
  own_turn_of (some ctl) term = own_turn ctl.handle ctl.running ctl term

  abbrev pub reader_turn : Reader → SimpleTerminal → SimpleTerminal
  reader_turn own term = own_turn_of term.non_block_ctl term
  reader_turn left_behind term = left_turn term.left term

  abbrev pub reader_turns : List Reader → SimpleTerminal → SimpleTerminal
  reader_turns [] term = term
  reader_turns (reader ∷ rest) term = reader_turns rest (reader_turn reader term)

  -- What happens in the background before an operation.
  unfoldable pub background : SimpleTerminal → SimpleTerminal
  background term = let r = readers term.io in reader_turns r.0 (with_io term r.1)
