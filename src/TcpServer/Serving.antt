-- ===== src/TcpServer/Serving.antt =====
-- src/sockets/tcp_server.rs: which connections the accepting thread keeps, told by what its listener
-- accepts, and what becomes of them.
use polysock.Base.{
  ℕ, zero, suc, ◌≡◌, refl, ap, sym, ◌∙◌, Bool, true, false, not, none, some, String, List, [], ◌∷◌,
  ◌++◌, append-nil, append_assoc,
}
use polysock.Base.{Event, sleep_micros, returns}
use polysock.Net.{Result, success, failure, TcpOs}
use polysock.TcpServer.{
  Client, TcpServer, Thread, listening, finished, add_client, accept_round, run_thread,
  drop_clients, shutdowns, close_server, tcp_server,
}

module _ (os : TcpOs) (blocking : Bool) where
  -- A connection is kept if its mode can be set, and else it is dropped and the thread ends.
  abbrev kept : Result (Unit {0}) → os.Stream → String → os.Listener → List (Client os) × Thread os
  kept (success done) stream addr listener = ((stream, addr) ∷ [], listening listener)
  kept (failure e) stream addr listener = ([], finished (failure e))

  abbrev arrival : Result (Client os) → os.Listener → List (Client os) × Thread os
  arrival (failure e) listener = ([], listening listener)
  arrival (success (stream, addr)) listener =
      let r = os.set_nonblocking (not blocking) stream in kept r.0 r.1 addr listener

  -- The clients that a thread gains in some rounds, and the thread after them.
  abbrev pub served : ℕ → Thread os → List (Client os)
  served zero thread = []
  served (suc n) (finished r) = []
  served (suc n) (listening listener) =
      let r = os.accept listener in let (new, thread) = arrival r.0 r.1 in new ++ served n thread

  abbrev pub left : ℕ → Thread os → Thread os
  left zero thread = thread
  left (suc n) (finished r) = finished r
  left (suc n) (listening listener) = let r = os.accept listener in left n (arrival r.0 r.1).1

module _ (os : TcpOs) where
  -- A server with more clients, and its thread.
  abbrev pub joined_by : TcpServer os → List (Client os) × Thread os → TcpServer os
  joined_by server (new, thread) = record server {
    clients = server.clients ++ new;
    handle = some thread;
  }

  no_more :
      (server : TcpServer os) (thread : Thread os)
      → record server { handle = some thread } ≡ joined_by server ([], thread)
  no_more server thread =
      ap (λ cs. record server { clients = cs; handle = some thread })
        (sym (append-nil server.clients))

  with_thread :
      (server : TcpServer os) (thread : Thread os)
      → server.handle ≡ some thread
      → server ≡ joined_by server ([], thread)
  with_thread server thread e = ap (λ h. record server { handle = h }) e ∙ no_more server thread

  idle :
      (n : ℕ) (server : TcpServer os) (r : Result (Unit {0}))
      → server.handle ≡ some (finished r)
      → run_thread os (suc n) server ≡ returns tt server []
  unfolding run_thread
  idle n server r e = simp (e, run_thread)

  rounds :
      (n : ℕ) (server : TcpServer os) (listener : os.Listener) (next : TcpServer os)
      {end : TcpServer os} {l l' : List Event}
      → server.handle ≡ some (listening listener)
      → accept_round os listener server ≡ returns tt next l
      → run_thread os n next ≡ returns tt end l'
      → run_thread os (suc n) server ≡ returns tt end (l ++ l')
  unfolding run_thread
  rounds n server listener next e steps later = simp (e, run_thread, steps, later)

  accept_round-arrival :
      (server : TcpServer os) (listener : os.Listener)
      → server.is_running ≡ true
      → (log : List Event) × (accept_round os listener server
          ≡ returns tt
              (joined_by server
                (arrival os server.blocking (os.accept listener).0 (os.accept listener).1))
              log)
  unfolding accept_round add_client
  accept_round-arrival server listener on = by_answer (os.accept listener).0 refl
    where
      listener' : os.Listener
      listener' = (os.accept listener).1

      Arrives : Type 0
      Arrives =
          (log : List Event) × (accept_round os listener server
            ≡ returns tt
                (joined_by server (arrival os server.blocking (os.accept listener).0 listener'))
                log)

      by_mode :
          (stream : os.Stream) (addr : String) (r : Result (Unit {0}))
          → (os.accept listener).0 ≡ success (stream, addr)
          → (os.set_nonblocking (not server.blocking) stream).0 ≡ r
          → Arrives
      by_mode stream addr (success done) e f = ([], simp (on, e, add_client, f))
      by_mode stream addr (failure x) e f = (
        [],
        simp (on, e, add_client, f)
            (ap (λ s. returns tt s [])
              (no_more (record server { is_running = true }) (finished (failure x)))),
      )

      by_answer : (r : Result (Client os)) → (os.accept listener).0 ≡ r → Arrives
      by_answer (success (stream, addr)) e = by_mode stream addr _ e refl
      by_answer (failure x) e = (
        sleep_micros 10000 ∷ [],
        simp (on, e)
            (ap (λ s. returns tt s (sleep_micros 10000 ∷ []))
              (no_more (record server { is_running = true }) (listening listener'))),
      )

  -- In a number of rounds the thread that accepts connections keeps, in order and behind the clients
  -- that are there, every connection that it accepts and whose mode can be set; one whose mode cannot
  -- be set is dropped, and ends the thread. Nothing else of the server changes, while the flag is set.
  pub run_thread-serves :
      (n : ℕ) (server : TcpServer os) (thread : Thread os)
      → server.handle ≡ some thread
      → server.is_running ≡ true
      → (log : List Event) × (run_thread os n server
          ≡ returns tt
              (joined_by server
                (served os server.blocking n thread, left os server.blocking n thread))
              log)
  unfolding run_thread
  run_thread-serves zero server thread e on =
      ([], ap (λ s. returns tt s []) (with_thread server thread e))
  run_thread-serves (suc n) server (finished r) e on =
      ([], idle n server r e ∙ ap (λ s. returns tt s []) (with_thread server (finished r) e))
  run_thread-serves (suc n) server (listening listener) e on =
      let r = os.accept listener in
      let (new, thread) = arrival os server.blocking r.0 r.1 in
      let (l, steps) = accept_round-arrival server listener on in
      let (l', later) = run_thread-serves n (joined_by server (new, thread)) thread refl on in
      (
        l ++ l',
        rounds n server listener (joined_by server (new, thread)) e steps later
            ∙ ap
                (λ cs.
                  returns tt
                    (record server {
                      clients = cs;
                      handle = some (left os server.blocking n thread);
                    })
                    (l ++ l'))
                (append_assoc server.clients new (served os server.blocking n thread)),
      )

  abbrev pub rounds_at_close : Bool → ℕ
  rounds_at_close true = 1
  rounds_at_close false = 0

  -- `close` of a server whose thread has been started and whose flag is set returns without an error.
  -- As the last thing every client is shut down, in order: those that are there, those that the
  -- thread keeps until then, and one that it keeps in a round that is pending. None of them is left,
  -- nor the thread.
  pub close-shuts_down :
      (rounds : TcpServer os → ℕ) (pending : Bool) (server : TcpServer os) (thread : Thread os)
      → server.handle ≡ some thread
      → server.is_running ≡ true
      → let mode = server.blocking in
        let n = rounds server in
        (before : List Event) × ((tcp_server os rounds pending).close server
          ≡ returns tt
              (record server { is_running = false; handle = none; clients = [] })
              (before
                ++ shutdowns os (
                    (server.clients ++ served os mode n thread)
                    ++ served os mode (rounds_at_close pending) (left os mode n thread))))
  unfolding close_server drop_clients
  close-shuts_down rounds pending server thread e on = by_pending pending
    where
      mode : Bool
      mode = server.blocking

      next : Thread os
      next = left os mode (rounds server) thread

      closed : TcpServer os
      closed = record server { is_running = false; handle = none; clients = [] }

      Closes : Bool → Type 0
      Closes pending =
          (before : List Event) × ((tcp_server os rounds pending).close server
            ≡ returns tt closed (
                before
                ++ shutdowns os (
                    (server.clients ++ served os mode (rounds server) thread)
                    ++ served os mode (rounds_at_close pending) next)))

      by_pending : (pending : Bool) → Closes pending
      by_pending false =
          let (l, steps) = run_thread-serves (rounds server) server thread e on in
          (l, rw (steps, append-nil (server.clients ++ served os mode (rounds server) thread)) refl)
      by_pending true =
          let (l, steps) = run_thread-serves (rounds server) server thread e on in
          let now = joined_by server (served os mode (rounds server) thread, next) in
          let (l', steps') = run_thread-serves 1 now next refl on in
          (
            l ++ l',
            rw (steps, steps')
                (ap (returns tt closed)
                  (sym (append_assoc l l' (shutdowns os (now.clients ++ served os mode 1 next))))),
          )
