-- ===== src/Tests/Terminals.antt =====
-- The terminal of src/sockets/terminal.rs at a sample console.
use polysock.Base.{Bool, ℕ, ◌≡◌, refl, true, false, none, List, [], ◌∷◌, ◌++◌, arith, replicate}
use polysock.Base.{Event, ok, panic, returns}
use polysock.Sock.Manager.{binding_thread}
use polysock.Sock.Manager.Copies.{accept, none_left}
use polysock.Net.{Result, success}
use polysock.Terminal.{
  Console, Reader, own, left_behind, SimpleTerminal, read_blocking, background, reader_round,
  prompt, prompt_and_read, send_chunk,
}
use polysock.Terminal.Socket.{terminal, set_block, drop_terminal, read_terminal}
use polysock.Terminal.Modes.{IsNonblocking, Answers, set_block-panics, read_terminal-Answers}
use polysock.Terminal.Lines.{silent, line, blocked, binding_thread-lines}
use polysock.Terminal.Queued.{
  waits, prompted, stopped, takes, finds_none, queueing, binding_thread-queued,
}
use polysock.Tests.Samples.{sink}

abbrev next_line : List (List ℕ) → Result (List ℕ) × List (List ℕ)
next_line [] = (success [], [])
next_line (bytes ∷ rest) = (success bytes, rest)

-- The lines that are still to be typed. The given threads get their turn before each operation, and
-- a thread that is joined is within a read.
abbrev pub typing : List Reader → Console
typing turns = record {
  State = List (List ℕ);
  print = λ text lines. (success tt, lines);
  flush = λ lines. (success tt, lines);
  read = λ n lines. next_line lines;
  write_all = λ bytes lines. (success tt, lines);
  readers = λ lines. (turns, lines);
  within_read = λ lines. (true, lines);
}

abbrev lines : List (List ℕ)
lines = (104 ∷ 105 ∷ []) ∷ (10 ∷ []) ∷ []

abbrev pub idle_terminal : (turns : List Reader) → SimpleTerminal (typing turns)
idle_terminal turns = record {
  stype = "stdio";
  id = 0;
  non_block_ctl = none;
  read = read_blocking;
  io = [];
  left = 0;
}

set_block-panics_example :
    let console = typing (own ∷ left_behind ∷ []) in
    let there = (set_block console false (idle_terminal (own ∷ left_behind ∷ []))).state in
    let back = (set_block console true there).state in
    ((set_block console true there).out ≡ ok tt)
    × ((set_block console true back).out ≡ panic)
    × ((drop_terminal console back).out ≡ panic)
set_block-panics_example =
    set_block-panics (typing (own ∷ left_behind ∷ [])) (idle_terminal (own ∷ left_behind ∷ []))

abbrev not_blocking : SimpleTerminal (typing (own ∷ []))
not_blocking = queueing (typing (own ∷ [])) (idle_terminal (own ∷ [])) [] lines

read_terminal-Answers_example :
    let r = read_terminal (typing (own ∷ [])) (0 ∷ 0 ∷ 0 ∷ []) 3 not_blocking in
    IsNonblocking (typing (own ∷ [])) r.state × Answers 3 r.out
read_terminal-Answers_example =
    read_terminal-Answers (typing (own ∷ [])) not_blocking (0 ∷ 0 ∷ 0 ∷ []) 3 (refl, tt)
      (omega arith)

-- The thread has read one of the two lines, which the read returns.
one_read :
    read_terminal (typing (own ∷ [])) (0 ∷ 0 ∷ 0 ∷ []) 3 not_blocking
    ≡ returns
        (2, 104 ∷ 105 ∷ 0 ∷ [])
        (queueing (typing (own ∷ [])) (idle_terminal (own ∷ [])) [] ((10 ∷ []) ∷ []))
        []
unfolding read_terminal background reader_round prompt_and_read prompt send_chunk
one_read = refl

-- A line that is read by a thread that was left behind is lost.
lost_line :
    (read_terminal
      (typing (left_behind ∷ own ∷ []))
      (0 ∷ 0 ∷ 0 ∷ [])
      3
      (record (queueing
        (typing (left_behind ∷ own ∷ []))
        (idle_terminal (left_behind ∷ own ∷ []))
        []
        lines) { left = 1 })).out
    ≡ ok (1, 10 ∷ 0 ∷ 0 ∷ [])
unfolding read_terminal background reader_round prompt_and_read prompt send_chunk
lost_line = refl

binding_thread-lines_example :
    (log : List Event) × (binding_thread
        (terminal (typing []))
        sink
        1
        (replicate 2 true ++ (false ∷ []))
        (blocked (typing []) (idle_terminal []) lines, [])
      ≡ returns tt (blocked (typing []) (idle_terminal []) [], lines) log)
binding_thread-lines_example =
    binding_thread-lines (typing []) sink 0 (idle_terminal []) [] lines [] lines lines
      (line refl refl refl refl (omega arith) (line refl refl refl refl (omega arith) silent))
      (accept refl (accept refl none_left))

-- A console at which the thread of the terminal reads twice before the first read, and never again.
abbrev burst_read : Bool × List (List ℕ) → Result (List ℕ) × (Bool × List (List ℕ))
burst_read (first, lines) = let (r, rest) = next_line lines in (r, (first, rest))

abbrev burst_readers : Bool × List (List ℕ) → List Reader × (Bool × List (List ℕ))
burst_readers (true, lines) = (own ∷ own ∷ [], (false, lines))
burst_readers (false, lines) = ([], (false, lines))

abbrev burst : Console
burst = record {
  State = Bool × List (List ℕ);
  print = λ text s. (success tt, s);
  flush = λ s. (success tt, s);
  read = λ n s. burst_read s;
  write_all = λ bytes s. (success tt, s);
  readers = burst_readers;
  within_read = λ s. (true, s);
}

abbrev burst_terminal : SimpleTerminal burst
burst_terminal = record {
  stype = "stdio";
  id = 0;
  non_block_ctl = none;
  read = read_blocking;
  io = (true, []);
  left = 0;
}

binding_thread-queued_example :
    (log : List Event) × (binding_thread
        (terminal burst)
        sink
        1
        (replicate 3 true ++ (false ∷ []))
        (queueing burst burst_terminal [] (true, lines), [])
      ≡ returns tt (queueing burst burst_terminal [] (false, []), lines ++ ([] ∷ [])) log)
binding_thread-queued_example =
    binding_thread-queued burst sink 0 burst_terminal (false, []) (true, lines) []
      (lines ++ ([] ∷ [])) [] [] (lines ++ ([] ∷ []))
      (takes {new = lines} refl (prompted refl refl refl (prompted refl refl refl waits)) refl
        (omega arith)
        (takes {new = []} refl waits refl (omega arith)
          (finds_none {new = []} refl waits refl stopped)))
      (accept refl (accept refl (accept refl none_left)))
