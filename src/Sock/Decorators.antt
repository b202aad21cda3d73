-- ===== src/Sock/Decorators.antt =====
-- src/sock/decorators.rs: the sockets that print what passes through another socket, and their
-- factories. The decorated socket's state is that of the socket inside.
pub mod Simulation
pub mod Transparent
pub mod Trace
pub mod Bound
pub mod BothWays
use polysock.Base.{◌≡◌, Bool, true, lift, ℕ, List, [], ◌∷◌, ◌++◌, ltb, if◌then◌else◌, length, take}
use polysock.Base.{
  Outcome, ok, err, panic, undefined, exit, no_fuel, map_outcome, M, Ret, emit, ◌>>◌, ◌>>=◌,
}
use polysock.Base.{Text, lit, debug, hex_dump, println}
use polysock.Sock.{ComplexSock, SocketFactory, doc_default}

-- One constructor for each use of `socket_decorator!`, with the standard output: whether it takes a
-- line.
pub data Decorator : Type 0 where
  trace_info trace_raw trace_canonical : (Text → Bool) → Decorator

abbrev pub stdout_of : Decorator → Text → Bool
stdout_of (trace_info stdout) = stdout
stdout_of (trace_raw stdout) = stdout
stdout_of (trace_canonical stdout) = stdout

-- The standard output takes every line.
abbrev pub Prints : (Text → Bool) → Type 0
Prints stdout = (line : Text) → stdout line ≡ true

-- `println!`, which panics if the standard output fails.
abbrev pub printing : {S : Type 0} → (Text → Bool) → Text → M S (Unit {0})
printing stdout line = if stdout line then emit (println line) else lift panic

-- `data[..sz]`
unfoldable pub slice : List ℕ → ℕ → Outcome (List ℕ)
slice bytes sz = if ltb (length bytes) sz then panic else ok (take sz bytes)

-- The lines printed of a read of `sz` bytes and of a write. The info decorator does not look at the
-- bytes.
unfoldable pub received : Decorator → Text → List ℕ → ℕ → Outcome Text
unfolding slice
received (trace_info stdout) descr bytes sz = ok (lit "Data is received from: " ∷ descr)
received (trace_raw stdout) descr bytes sz =
    map_outcome (λ t. lit "Data is received: " ∷ debug t ∷ []) (slice bytes sz)
received (trace_canonical stdout) descr bytes sz =
    map_outcome (λ t. lit "Received data (canonical format):\n " ∷ hex_dump t ∷ []) (slice bytes sz)

unfoldable pub written : Decorator → Text → List ℕ → ℕ → Outcome Text
unfolding slice
written (trace_info stdout) descr bytes sz = ok (lit "Data is transered to: " ∷ descr)
written (trace_raw stdout) descr bytes sz =
    map_outcome (λ t. lit "Data is written: " ∷ debug t ∷ []) (slice bytes sz)
written (trace_canonical stdout) descr bytes sz =
    map_outcome (λ t. lit "Written data (canonical format):\n" ∷ hex_dump t ∷ []) (slice bytes sz)

-- A `println!` after an operation; it panics where a slice of its arguments does, and if the standard
-- output fails.
unfoldable pub shown : {S A : Type 0} → (Text → Bool) → Outcome Text → Ret S A → Ret S A
shown stdout (ok line) r =
    if stdout line
    then record r { log = r.log ++ (println line ∷ []) }
    else record r { out = panic }
shown stdout (err e) r = record r { out = err e }
shown stdout panic r = record r { out = panic }
shown stdout undefined r = record r { out = undefined }
shown stdout (exit code) r = record r { out = exit code }
shown stdout no_fuel r = record r { out = no_fuel }

module _ (d : Decorator) (sock : ComplexSock) where
  open sock use {State, get_description}

  unfoldable pub decorator_read : List ℕ → ℕ → M State (ℕ × List ℕ)
  decorator_read bytes sz s =
      let r = sock.read bytes sz s in
      elim r.out [
        | ok res ↦
            if ltb 0 res.0
            then shown (stdout_of d) (received d (get_description r.state) res.1 res.0) r
            else r
        | other ↦ r
      ]

  -- The line is printed whether the write has failed or not.
  unfoldable pub decorator_write : List ℕ → ℕ → M State (Unit {0})
  decorator_write bytes sz s =
      let r = sock.write bytes sz s in
      let told =
        if ltb 0 sz
        then shown (stdout_of d) (written d (get_description r.state) bytes sz) r
        else r in
      elim r.out [ ok done ↦ told | err e ↦ told | other ↦ r ]

unfoldable pub decorator_open : Decorator → (sock : ComplexSock) → M sock.State (Unit {0})
decorator_open (trace_info stdout) sock s =
    (printing stdout (lit "Socket is opened: " ∷ sock.get_description s) >> sock.open_sock) s
decorator_open (trace_raw stdout) sock s = sock.open_sock s
decorator_open (trace_canonical stdout) sock s = sock.open_sock s

unfoldable pub decorator_close : Decorator → (sock : ComplexSock) → M sock.State (Unit {0})
decorator_close (trace_info stdout) sock s =
    (printing stdout (lit "Socket is closed: " ∷ sock.get_description s) >> sock.close) s
decorator_close (trace_raw stdout) sock s = sock.close s
decorator_close (trace_canonical stdout) sock s = sock.close s

-- The struct that `socket_decorator!` defines, with the operations of its kind.
abbrev pub decorator : Decorator → ComplexSock → ComplexSock
decorator d sock = record {
  State = sock.State;
  open_sock = decorator_open d sock;
  close = decorator_close d sock;
  read = decorator_read d sock;
  write = decorator_write d sock;
  set_block = sock.set_block;
  drop_sock = sock.drop_sock;
  get_type_name = sock.get_type_name;
  get_id = sock.get_id;
  get_description = sock.get_description;
}

-- The factory that `socket_decorator!` defines. It has the documentation of the trait's default.
abbrev pub decorator_factory : {W : Type 0} → Decorator → SocketFactory W → SocketFactory W
decorator_factory d factory = record {
  sock = decorator d factory.sock;
  create_sock = factory.create_sock;
  create_doc_viewer = doc_default;
}
