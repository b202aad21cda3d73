-- ===== src/Terminal/Queued.antt =====
-- src/sockets/terminal.rs and the thread of src/sock/mod.rs: what the thread of a terminal that does
-- not block reads, and how it gets through the channel to another socket.
use polysock.Base.{
  ℕ, suc, ◌<◌, ◌≡◌, refl, sym, ap, ◌∙◌, true, false, some, List, [], ◌∷◌, ◌++◌, arith, append-nil,
  append_assoc,
}
use polysock.Base.{
  length, take, take-all, replicate, write_at, write_at-nil, min, Event, returns, le→ltb,
}
use polysock.Sock.{ComplexSock}
use polysock.Sock.Wrapper.{read_all}
use polysock.Sock.Wrapper.Delivers.{last, read_all_loop-Delivers}
use polysock.Sock.Manager.{binding_thread}
use polysock.Sock.Manager.Copies.{Yields, nothing, yield, Accepts, binding_thread-copies}
use polysock.Net.{success}
use polysock.Terminal.{
  Console, own, read_nonblocking, at_work, SimpleTerminal, reader_turn, reader_turns, reader_round,
  send_chunk, background,
}
use polysock.Terminal.Socket.{read_terminal, terminal}
use polysock.Terminal.Lines.{prompt_and_read-ok}

module _ (console : Console) where
  open console use {State, print, flush, readers}

  -- What the thread that reads the standard input is given in some rounds, one prompt and one read
  -- each.
  pub data Prompted (end : State) : State → List (List ℕ) → Type 0 where
    waits : Prompted end end []
    prompted :
        {s s1 s2 s3 : State} {bytes : List ℕ} {rest : List (List ℕ)}
        → print "stdio# " s ≡ (success tt, s1)
        → flush s1 ≡ (success tt, s2)
        → console.read 1024 s2 ≡ (success bytes, s3)
        → Prompted end s3 rest
        → Prompted end s (bytes ∷ rest)

  -- The messages of the reads of a terminal, given the queue of what is read and not handed out: in
  -- any number of rounds before a read, what the thread is given joins the queue; the read then takes
  -- the oldest entry, of fewer than 1024 bytes, and an empty message if there is none.
  pub data Queued (end : State) (left : List (List ℕ))
      : State → List (List ℕ) → List (List ℕ) → Type 0 where
    stopped : Queued end left end left []
    takes :
        {s s1 s2 : State} {queue new rest msgs : List (List ℕ)} {bytes : List ℕ}
        → readers s ≡ (replicate (length new) own, s1)
        → Prompted s2 s1 new
        → queue ++ new ≡ bytes ∷ rest
        → length bytes < 1024
        → Queued end left s2 rest msgs
        → Queued end left s queue (bytes ∷ msgs)
    finds_none :
        {s s1 s2 : State} {queue new msgs : List (List ℕ)}
        → readers s ≡ (replicate (length new) own, s1)
        → Prompted s2 s1 new
        → queue ++ new ≡ []
        → Queued end left s2 [] msgs
        → Queued end left s queue ([] ∷ msgs)

  -- A terminal whose thread is at work, with a queue in its channel.
  abbrev pub queueing : SimpleTerminal console → List (List ℕ) → State → SimpleTerminal console
  queueing term queue s = record term {
    read = read_nonblocking;
    non_block_ctl = some (record { running = true; handle = some at_work; stdin = queue });
    io = s;
  }

  reader_turn-queueing :
      (term : SimpleTerminal console) (queue : List (List ℕ)) {s s1 s2 s3 : State} {bytes : List ℕ}
      → print "stdio# " s ≡ (success tt, s1)
      → flush s1 ≡ (success tt, s2)
      → console.read 1024 s2 ≡ (success bytes, s3)
      → reader_turn console own (queueing term queue s) ≡ queueing term (queue ++ (bytes ∷ [])) s3
  unfolding reader_round send_chunk
  reader_turn-queueing term queue p f r = rw (reader_turn, prompt_and_read-ok console p f r) refl

  reader_turns-queueing :
      (term : SimpleTerminal console) {end : State} (queue : List (List ℕ)) {s : State}
      {new : List (List ℕ)}
      → Prompted end s new
      → reader_turns console (replicate (length new) own) (queueing term queue s)
        ≡ queueing term (queue ++ new) end
  reader_turns-queueing term {end} queue waits =
      ap (λ q. queueing term q end) (sym (append-nil queue))
  reader_turns-queueing term {end} queue (prompted {bytes} {rest} p f r more) =
      ap (reader_turns console (replicate (length rest) own))
        (reader_turn-queueing term queue p f r)
      ∙ reader_turns-queueing term (queue ++ (bytes ∷ [])) more
      ∙ ap (λ q. queueing term q end) (append_assoc queue (bytes ∷ []) rest)

  background-queueing :
      (term : SimpleTerminal console) (queue : List (List ℕ)) {s s1 s2 : State}
      {new : List (List ℕ)}
      → readers s ≡ (replicate (length new) own, s1)
      → Prompted s2 s1 new
      → background console (queueing term queue s) ≡ queueing term (queue ++ new) s2
  unfolding background
  background-queueing term queue e typed = rw e (reader_turns-queueing term queue typed)

  read-takes :
      (term : SimpleTerminal console) (queue : List (List ℕ)) (bytes : List ℕ) (s : State)
      {s2 : State} {rest : List (List ℕ)} (tail : List ℕ)
      → background console (queueing term queue s) ≡ queueing term (bytes ∷ rest) s2
      → length tail ≡ 1024
      → length bytes < 1024
      → read_terminal console tail 1024 (queueing term queue s)
        ≡ returns (length bytes, write_at tail 0 bytes) (queueing term rest s2) []
  unfolding read_terminal
  read-takes term queue bytes s tail e full short =
      let all : take (length bytes) bytes ≡ bytes = take-all (length bytes) bytes (omega arith) in
      let size : min (length bytes) 1024 ≡ length bytes = omega (arith, short) in
      rw (e, size, all, full, le→ltb 1024 (length bytes) (omega (arith, short)))

  read-none :
      (term : SimpleTerminal console) (queue : List (List ℕ)) (s : State) {s2 : State}
      (tail : List ℕ)
      → background console (queueing term queue s) ≡ queueing term [] s2
      → read_terminal console tail 1024 (queueing term queue s)
        ≡ returns (0, write_at tail 0 []) (queueing term [] s2) []
  unfolding read_terminal
  read-none term queue s tail e = rw (e, write_at-nil tail 0) refl

  Yields-Queued :
      (fuel : ℕ) (term : SimpleTerminal console) {end : State} {left : List (List ℕ)} {s : State}
      {queue msgs : List (List ℕ)}
      → Queued end left s queue msgs
      → Yields (terminal console) (suc fuel) (queueing term left end) (queueing term queue s) msgs
  unfolding read_all
  Yields-Queued fuel term stopped = nothing
  Yields-Queued fuel term (takes {s} {s2} {queue} {rest} {bytes} e typed next short more) =
      let there = background-queueing term queue e typed ∙ ap (λ q. queueing term q s2) next in
      yield (omega arith)
        (read_all_loop-Delivers (terminal console) 1024 (omega arith) (omega arith) (suc fuel) []
          (last short (λ buffer full. read-takes term queue bytes s buffer there full short))
          (omega arith))
        (Yields-Queued fuel term more)
  Yields-Queued fuel term (finds_none {s} {s2} {queue} e typed next more) =
      let there = background-queueing term queue e typed ∙ ap (λ q. queueing term q s2) next in
      yield (omega arith)
        (read_all_loop-Delivers (terminal console) 1024 (omega arith) (omega arith) (suc fuel) []
          (last {bs = []} (omega arith) (λ buffer full. read-none term queue s buffer there))
          (omega arith))
        (Yields-Queued fuel term more)

  -- Whatever number of rounds the thread of a terminal that does not block gets before each read, a
  -- thread from the terminal to a socket that accepts the messages hands on what is typed, each entry
  -- of fewer than 1024 bytes as one message, in the order in which it is typed and none twice, with
  -- an empty message wherever nothing is waiting; what is still waiting when the flag is cleared
  -- stays in the channel; and the thread ends without an error.
  pub binding_thread-queued :
      (to : ComplexSock) (fuel : ℕ) (term : SimpleTerminal console) (end s : State)
      (t end' : to.State) (left queue msgs : List (List ℕ))
      → Queued end left s queue msgs
      → Accepts to end' t msgs
      → (log : List Event) × (binding_thread
            (terminal console)
            to
            (suc fuel)
            (replicate (length msgs) true ++ (false ∷ []))
            (queueing term queue s, t)
          ≡ returns tt (queueing term left end, end') log)
  binding_thread-queued to fuel term end s t end' left queue msgs queued accepts =
      binding_thread-copies (terminal console) to (suc fuel) msgs (Yields-Queued fuel term queued)
        accepts
