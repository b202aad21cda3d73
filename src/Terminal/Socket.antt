-- ===== src/Terminal/Socket.antt =====
-- src/sockets/terminal.rs: the operations of the terminal and its factory.
use polysock.Base.{ℕ, ◌+◌, Bool, true, false, Option, none, some, List, [], ◌∷◌, min}
use polysock.Base.{ltb, if◌then◌else◌, length, take, write_at}
use polysock.Base.{M, err, panic, from_kind, resource_busy, lift, pure, ◌>>=◌, ◌>>◌, returns}
use polysock.Sock.{ComplexSock, SocketFactory, description, doc_default, fetch_add}
use polysock.Terminal.{
  Console, Thread, at_work, finished, SimpleTerminalNonblocking, SimpleTermReadCb, read_blocking,
  read_nonblocking, SimpleTerminal, with_io, with_ctl, calling, read_into, reader_round, background,
}

module _ (console : Console) where
  open console use {write_all, flush, within_read}

  abbrev pub with_console : {A : Type 0} → M console.State A → M (SimpleTerminal console) A
  with_console m term =
      let r = m term.io in record { out = r.out; state = with_io console term r.state; log = r.log }

  -- `try_recv`, given the thread and the channel: the oldest chunk; if there is none, `Empty` while
  -- the thread has its sender, and else `Disconnected`. The rest of a chunk that is longer than the
  -- buffer is dropped.
  abbrev pub receive :
      Option Thread
      → List (List ℕ)
      → SimpleTerminalNonblocking
      → List ℕ
      → ℕ
      → M (SimpleTerminal console) (ℕ × List ℕ)
  receive (some at_work) [] ctl bytes sz term = pure (0, bytes) term
  receive (some (finished o)) [] ctl bytes sz term = lift (err (from_kind resource_busy)) term
  receive none [] ctl bytes sz term = lift (err (from_kind resource_busy)) term
  receive thread (buf ∷ rest) ctl bytes sz term =
      let len = min (length buf) sz in
      let term' = with_ctl console term (record ctl { stdin = rest }) in
      if ltb (length bytes) len
      then lift panic term'
      else returns (len, write_at bytes 0 (take len buf)) term' []

  -- `read_nonblocking`
  abbrev pub nonblocking :
      Option SimpleTerminalNonblocking → List ℕ → ℕ → M (SimpleTerminal console) (ℕ × List ℕ)
  nonblocking none bytes sz term = lift panic term
  nonblocking (some ctl) bytes sz term = receive ctl.handle ctl.stdin ctl bytes sz term

  -- The function that `read` is.
  abbrev pub call_read : SimpleTermReadCb → List ℕ → ℕ → M (SimpleTerminal console) (ℕ × List ℕ)
  call_read read_blocking bytes sz term = with_console (read_into console bytes sz) term
  call_read read_nonblocking bytes sz term = nonblocking term.non_block_ctl bytes sz term

  -- `SimpleTerminal::read`
  unfoldable pub read_terminal : List ℕ → ℕ → M (SimpleTerminal console) (ℕ × List ℕ)
  read_terminal bytes sz term =
      let term' = background console term in call_read term'.read bytes sz term'

  unfoldable pub write_terminal : List ℕ → ℕ → M (SimpleTerminal console) (Unit {0})
  write_terminal bytes sz = with_console (do
    if ltb (length bytes) sz then lift panic else pure tt
    calling console (write_all (take sz bytes))
    calling console flush)

  -- The end of a thread that is joined. If it is within a read, it has found the flag set, and ends
  -- its round before it looks at the flag again.
  abbrev pub last_round :
      Thread → Bool → SimpleTerminalNonblocking → SimpleTerminal console → SimpleTerminal console
  last_round at_work true ctl term = reader_round console ctl term
  last_round thread within ctl term = term

  abbrev pub taken : SimpleTerminal console → SimpleTerminal console
  taken term = elim term.non_block_ctl [
    | none ↦ term
    | some ctl ↦ with_ctl console term (record ctl { running = false; handle = none })
  ]

  -- The flag is cleared, and `handle.take().unwrap().join()`.
  abbrev pub join_thread :
      Option Thread → SimpleTerminalNonblocking → M (SimpleTerminal console) (Unit {0})
  join_thread none ctl term = lift panic (with_ctl console term (record ctl { running = false }))
  join_thread (some thread) ctl term =
      let r = within_read term.io in
      returns tt (taken (last_round thread r.0 ctl (with_io console term r.1))) []

  -- What `set_block(true)` and `drop` do with a thread.
  abbrev pub stop_thread : Option SimpleTerminalNonblocking → M (SimpleTerminal console) (Unit {0})
  stop_thread none term = pure tt term
  stop_thread (some ctl) term = join_thread ctl.handle ctl term

  -- A thread at work whose handle is dropped is left behind.
  abbrev pub count_left : Option SimpleTerminalNonblocking → ℕ
  count_left none = 0
  count_left (some ctl) = elim ctl.handle [ some at_work ↦ 1 | other ↦ 0 ]

  -- `spawn_stdin_channel`. The terminal that it makes for its thread takes an identifier, which is
  -- not counted here.
  abbrev pub spawn_stdin_channel : SimpleTerminalNonblocking
  spawn_stdin_channel = record { running = true; handle = some at_work; stdin = [] }

  unfoldable pub set_block : Bool → M (SimpleTerminal console) (Unit {0})
  set_block false term =
      let term' = background console term in
      returns tt
        (record term' {
          read = read_nonblocking;
          non_block_ctl = some spawn_stdin_channel;
          left = term'.left + count_left term'.non_block_ctl;
        })
        []
  set_block true term =
      let term' = background console term in (stop_thread term'.non_block_ctl >> use_blocking) term'
    where
      use_blocking : M (SimpleTerminal console) (Unit {0})
      use_blocking term = pure tt (record term { read = read_blocking })

  -- `Drop for SimpleTerminal`
  unfoldable pub drop_terminal : M (SimpleTerminal console) (Unit {0})
  drop_terminal term = let term' = background console term in stop_thread term'.non_block_ctl term'

  abbrev pub terminal : ComplexSock
  terminal = record {
    State = SimpleTerminal console;
    open_sock = pure tt;
    close = pure tt;
    drop_sock = drop_terminal;
    read = read_terminal;
    write = write_terminal;
    set_block = set_block;
    get_type_name = λ term. term.stype;
    get_id = λ term. term.id;
    get_description = λ term. description term.stype term.id;
  }

  -- `SimpleTerminal::default()`
  unfoldable pub default : console.State → M ℕ (SimpleTerminal console)
  default io = do
    id ← fetch_add
    pure (record {
      stype = "stdio";
      id = id;
      non_block_ctl = none;
      read = read_blocking;
      io = io;
      left = 0;
    })

  -- `SimpleTerminalFactory`, whose sockets start with the console in state `io`.
  abbrev pub terminal_factory : console.State → SocketFactory ℕ
  terminal_factory io = record {
    sock = terminal;
    create_sock = λ params. default io;
    create_doc_viewer = doc_default;
  }
