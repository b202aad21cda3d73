-- ===== src/TcpServer/Accept.antt =====
-- src/sockets/tcp_server.rs: what the thread that accepts connections does to the list of clients.
use polysock.Base.{
  ℕ, zero, suc, ◌+◌, ◌≤◌, ◌≡◌, refl, sym, ap, ◌∙◌, Bool, true, false, not, Option, none, some, List,
  [], ◌∷◌, ◌++◌, append-nil, append_assoc, arith, length, length-append,
}
use polysock.Base.{Event, sleep_micros, Ret, returns}
use polysock.Net.{Result, success, failure, TcpOs}
use polysock.TcpServer.{
  Client, TcpServer, Thread, listening, finished, add_client, accept_round, run_thread, shutdowns,
  close_server, tcp_server,
}

module _ (os : TcpOs) where
  -- The thread has been started, and has not been joined.
  abbrev pub IsStarted : TcpServer os → Type 0
  IsStarted server = (thread : Thread os) × (server.handle ≡ some thread)

  -- At most `n` clients have been added behind the others, and nothing else but the thread's own
  -- state has changed.
  pub record Extends (n : ℕ) (server server' : TcpServer os) : Type 0 where
    pub added : List (Client os)
    pub few : length added ≤ n
    pub appended : server'.clients ≡ server.clients ++ added
    pub running : server'.is_running ≡ server.is_running
    pub mode : server'.blocking ≡ server.blocking
    pub started : IsStarted server → IsStarted server'

  Extends-refl : (n : ℕ) (server : TcpServer os) → Extends n server server
  Extends-refl n server = record {
    added = [];
    few = omega arith;
    appended = sym (append-nil server.clients);
    running = refl;
    mode = refl;
    started = λ s. s;
  }

  Extends-none :
      (n : ℕ) (server : TcpServer os) (t : Thread os)
      → Extends n server (record server { handle = some t })
  Extends-none n server t = record {
    added = [];
    few = omega arith;
    appended = sym (append-nil server.clients);
    running = refl;
    mode = refl;
    started = λ s. (t, refl);
  }

  Extends-trans :
      {n m k : ℕ} {a b c : TcpServer os} → n + m ≤ k → Extends n a b → Extends m b c → Extends k a c
  Extends-trans {a} h x y = record {
    added = x.added ++ y.added;
    few = omega (arith, length-append x.added y.added, x.few, y.few);
    appended =
        y.appended ∙ ap (λ t. t ++ y.added) x.appended ∙ append_assoc a.clients x.added y.added;
    running = y.running ∙ x.running;
    mode = y.mode ∙ x.mode;
    started = λ s. y.started (x.started s);
  }

  add_client-Extends :
      (server : TcpServer os) (listener : os.Listener) (cli : Client os)
      → Extends 1 server (add_client os server listener cli)
  unfolding add_client
  add_client-Extends server listener (stream, addr) =
      by_mode (os.set_nonblocking (not server.blocking) stream).0 refl
    where
      by_mode :
          (r : Result (Unit {0}))
          → (os.set_nonblocking (not server.blocking) stream).0 ≡ r
          → Extends 1 server (add_client os server listener (stream, addr))
      by_mode (failure e) got = rw (got, add_client) (Extends-none 1 server (finished (failure e)))
      by_mode (success done) got =
          rw (got, add_client)
            (record {
              added = ((os.set_nonblocking (not server.blocking) stream).1, addr) ∷ [];
              few = omega arith;
              appended = refl;
              running = refl;
              mode = refl;
              started = λ s. (listening listener, refl);
            })

  -- A step that succeeds and extends the clients by at most `n`.
  record Round (n : ℕ) (server : TcpServer os) (r : Ret (TcpServer os) (Unit {0})) : Type 0 where
    server' : TcpServer os
    log : List Event
    steps : r ≡ returns tt server' log
    extends : Extends n server server'

  accept_round-Round :
      (listener : os.Listener) (server : TcpServer os)
      → Round 1 server (accept_round os listener server)
  unfolding accept_round
  accept_round-Round listener server = by_flag server.is_running (os.accept listener).0 refl refl
    where
      listener' : os.Listener
      listener' = (os.accept listener).1

      by_flag :
          (b : Bool) (r : Result (Client os))
          → server.is_running ≡ b
          → (os.accept listener).0 ≡ r
          → Round 1 server (accept_round os listener server)
      by_flag false r e got = record {
        server' = record server { handle = some (finished (success tt)) };
        log = [];
        steps = simp (e, accept_round);
        extends = Extends-none 1 server (finished (success tt));
      }
      by_flag true (failure x) e got = record {
        server' = record server { handle = some (listening listener') };
        log = sleep_micros 10000 ∷ [];
        steps = simp (e, accept_round, got);
        extends = Extends-none 1 server (listening listener');
      }
      by_flag true (success cli) e got = record {
        server' = add_client os server listener' cli;
        log = [];
        steps = simp (e, accept_round, got);
        extends = add_client-Extends server listener' cli;
      }

  run_rounds : (n : ℕ) (server : TcpServer os) → Round n server (run_thread os n server)
  unfolding run_thread
  run_rounds zero server = record {
    server' = server;
    log = [];
    steps = refl;
    extends = Extends-refl 0 server;
  }
  run_rounds (suc n) server = by_handle server.handle refl (run_rounds n)
    where
      idle :
          (n : ℕ)
          → run_thread os (suc n) server ≡ returns tt server []
          → Round (suc n) server (run_thread os (suc n) server)
      idle n e = record {
        server' = server;
        log = [];
        steps = e;
        extends = Extends-refl (suc n) server;
      }

      by_handle :
          (h : Option (Thread os))
          → server.handle ≡ h
          → ((server : TcpServer os) → Round n server (run_thread os n server))
          → Round (suc n) server (run_thread os (suc n) server)
      by_handle none e ih = idle n (simp (e, run_thread))
      by_handle (some (finished r)) e ih = idle n (simp (e, run_thread))
      by_handle (some (listening listener)) e ih =
          let a = accept_round-Round listener server in
          let b = ih a.server' in
          record {
            server' = b.server';
            log = a.log ++ b.log;
            steps = simp (e, run_thread, a.steps, b.steps);
            extends = Extends-trans (omega arith) a.extends b.extends;
          }

  -- In `n` rounds the thread adds at most `n` clients behind those that are there, and leaves the
  -- flags alone.
  pub run_thread-Extends :
      (n : ℕ) (server : TcpServer os)
      → (server' : TcpServer os) × (log : List Event) × (run_thread os n server
          ≡ returns tt server' log)
        × Extends n server server'
  run_thread-Extends n server =
      let r = run_rounds n server in (r.server', r.log, r.steps, r.extends)

  -- `close` of a server whose thread has been started, which may accept clients until then, and one
  -- more in a round that is pending, returns without an error, and leaves no client, nor the thread.
  pub close-empties :
      (rounds : TcpServer os → ℕ) (pending : Bool) (server : TcpServer os)
      → IsStarted server
      → (server' : TcpServer os) × (before : List Event) × (added : List (Client os)) × ((tcp_server
              os rounds pending).close
            server
          ≡ returns tt
              (record server' { is_running = false; handle = none; clients = [] })
              (before ++ shutdowns os (server.clients ++ added)))
        × (length added ≤ rounds server + 1)
  unfolding close_server
  close-empties rounds false server start =
      let a = run_rounds (rounds server) server in
      let (thread, e) = a.extends.started start in
      (
        a.server',
        a.log,
        a.extends.added,
        rw (a.steps, close_server, e, a.extends.appended),
        omega (arith, a.extends.few),
      )
  close-empties rounds true server start =
      let a = run_rounds (rounds server) server in
      let b = run_rounds 1 a.server' in
      let both = Extends-trans {k = rounds server + 1} (omega arith) a.extends b.extends in
      let (thread, e) = a.extends.started start in
      (
        b.server',
        a.log ++ b.log,
        both.added,
        rw (
          a.steps,
          close_server,
          e,
          b.steps,
          both.appended,
          append_assoc a.log b.log (shutdowns os (server.clients ++ both.added)),
        ),
        omega (arith, both.few),
      )
