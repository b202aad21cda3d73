-- ===== src/Sock/Threads.antt =====
-- src/sock/mod.rs, `SocketManager::bind_bidirectional`: the two threads of a binding in both
-- directions. They share the two sockets, each behind an `Arc<Mutex<..>>`, and the flag. A turn is
-- what one thread does between two points where another thread can get in.
pub mod Counts
pub mod Safety
pub mod Isolation
pub mod Progress
pub mod Steps
pub mod Answers
pub mod Shutdown
pub mod Messages
pub mod Forwarding
pub mod Alike
pub mod Played
use polysock.Base.{ℕ, ◌-◌, ◌==◌, Bool, true, false, Option, none, some, List, [], ◌∷◌, ◌++◌}
use mathlib.Core.Option.{map, bind, get_or}
use polysock.Base.{length}
use polysock.Base.{
  Event, Outcome, ok, err, panic, undefined, exit, no_fuel, sleep_micros, Ret, returns, after_drop,
}
use polysock.Sock.{ComplexSock}
use polysock.Sock.Wrapper.{u8, drop_wrapper, read_all, generic_write}

-- Where a thread is: at the load of the flag, at the lock of the socket it reads, in `read_all`, at
-- the lock of the socket it writes, in `generic_write`, in the sleep, at the drops of its closure.
pub data Point : Type 0 where
  loading locking_source reading sleeping : Point
  locking_target writing : List ℕ → Point
  dropping_source dropping_target ended : Outcome (Unit {0}) → Point

-- `Arc<Mutex<SocketWrapper>>`: `refs` is the count of the `Arc`.
pub record Shared (A : Type 0) : Type 0 where
  pub inner : A
  pub locked : Bool
  pub poisoned : Bool
  pub refs : ℕ

abbrev pub shared : {A : Type 0} → A → Shared A
shared a = record { inner = a; locked = false; poisoned = false; refs = 2 }

-- The drop of one `Arc`; the last one drops the wrapper.
abbrev pub drop_arc : (K : ComplexSock) → Shared K.State → Ret (Shared K.State) (Unit {0})
drop_arc K m = elim (m.refs == 1) [
  | true ↦
      let c = drop_wrapper K m.inner in
      record { out = c.out; state = record m { inner = c.state; refs = 0 }; log = c.log }
  | false ↦ returns tt (record m { refs = m.refs - 1 }) []
]

-- Whether an outcome ends the process, or the model.
abbrev pub stopped : Outcome (Unit {0}) → Option (Outcome (Unit {0}))
stopped (ok done) = none
stopped (err e) = none
stopped panic = none
stopped undefined = some undefined
stopped (exit n) = some (exit n)
stopped no_fuel = some no_fuel

-- What a turn of a thread leads to; `over` says that it ends the process, or that the model has no
-- more to say.
pub record Moved (A B : Type 0) : Type 0 where
  pub point : Point
  pub source : Shared A
  pub target : Shared B
  pub over : Option (Outcome (Unit {0}))
  pub log : List Event

abbrev pub moved : {A B : Type 0} → Point → Shared A → Shared B → List Event → Moved A B
moved point source target log = record {
  point = point;
  source = source;
  target = target;
  over = none;
  log = log;
}

abbrev pub is_over : {A B : Type 0} → Outcome (Unit {0}) → Moved A B → Moved A B
is_over o m = record m { over = some o }

-- The end of a call under the lock: the guard is dropped on `Ok` and `Err`, and poisons the lock in
-- a panic.
abbrev pub unlocked : {A : Type 0} → Shared A → A → Bool → Shared A
unlocked m inner poisoned = record m { inner = inner; locked = false; poisoned = poisoned }

module _ (source target : ComplexSock) where
  abbrev pub Move : Type 0
  Move = Moved source.State target.State

  -- `from.lock().unwrap().read_all()?`, the lock being held: the outcome of the call, the state of the
  -- socket after it, and what it has let the outside see.
  abbrev pub after_read :
      Outcome (List ℕ)
      → source.State
      → List Event
      → Shared source.State
      → Shared target.State
      → Move
  after_read (ok buf) s' log s t = moved (locking_target buf) (unlocked s s' false) t log
  after_read (err e) s' log s t = moved (dropping_source (err e)) (unlocked s s' false) t log
  after_read panic s' log s t = moved (dropping_source panic) (unlocked s s' true) t log
  after_read undefined s' log s t =
      is_over undefined (moved reading (record s { inner = s' }) t log)
  after_read (exit n) s' log s t = is_over (exit n) (moved reading (record s { inner = s' }) t log)
  after_read no_fuel s' log s t = is_over no_fuel (moved reading (record s { inner = s' }) t log)

  -- `to.lock().unwrap().generic_write(..)?`, the lock being held.
  abbrev pub after_write :
      List ℕ
      → Outcome (Unit {0})
      → target.State
      → List Event
      → Shared source.State
      → Shared target.State
      → Move
  after_write buf (ok done) t' log s t = moved sleeping s (unlocked t t' false) log
  after_write buf (err e) t' log s t = moved (dropping_source (err e)) s (unlocked t t' false) log
  after_write buf panic t' log s t = moved (dropping_source panic) s (unlocked t t' true) log
  after_write buf undefined t' log s t =
      is_over undefined (moved (writing buf) s (record t { inner = t' }) log)
  after_write buf (exit n) t' log s t =
      is_over (exit n) (moved (writing buf) s (record t { inner = t' }) log)
  after_write buf no_fuel t' log s t =
      is_over no_fuel (moved (writing buf) s (record t { inner = t' }) log)

  -- `lock().unwrap()` of a lock that is held or not, poisoned or not: the thread is blocked while it
  -- is held, and panics if it is poisoned.
  abbrev pub acquire : Bool → Bool → Move → Move → Option Move
  acquire true poisoned taken failed = none
  acquire false true taken failed = some failed
  acquire false false taken failed = some taken

  -- The load of the flag.
  abbrev pub after_load : Bool → Point
  after_load true = locking_source
  after_load false = dropping_source (ok tt)

  -- A turn of a thread, if it is neither blocked nor at its end.
  unfoldable pub thread_turn :
      ℕ → Bool → Point → Shared source.State → Shared target.State → Option Move
  thread_turn fuel running loading s t = some (moved (after_load running) s t [])
  thread_turn fuel running locking_source s t =
      acquire s.locked s.poisoned (moved reading (record s { locked = true }) t [])
        (moved (dropping_source panic) s t [])
  thread_turn fuel running reading s t =
      let r = read_all source u8 fuel s.inner in some (after_read r.out r.state r.log s t)
  thread_turn fuel running (locking_target buf) s t =
      acquire t.locked t.poisoned (moved (writing buf) s (record t { locked = true }) [])
        (moved (dropping_source panic) s t [])
  thread_turn fuel running (writing buf) s t =
      let r = generic_write target u8 buf (length buf) t.inner in
      some (after_write buf r.out r.state r.log s t)
  thread_turn fuel running sleeping s t = some (moved loading s t (sleep_micros 1 ∷ []))
  thread_turn fuel running (dropping_source o) s t =
      let r = drop_arc source s in
      let o' = after_drop o r.out in
      some (record (moved (dropping_target o') r.state t r.log) { over = stopped o' })
  thread_turn fuel running (dropping_target o) s t =
      let r = drop_arc target t in
      let o' = after_drop o r.out in
      some (record (moved (ended o') s r.state r.log) { over = stopped o' })
  thread_turn fuel running (ended o) s t = none

-- Whose turn it is: the thread from the first socket to the second, the thread back, or whoever
-- clears the flag.
pub data Turn : Type 0 where
  first second clear : Turn

pub record Binding (from to : ComplexSock) : Type 0 where
  pub left : Shared from.State
  pub right : Shared to.State
  pub running : Bool
  pub point1 : Point
  pub point2 : Point
  pub over : Option (Outcome (Unit {0}))
  pub log : List Event

-- The flag is cleared once: `stop` gives up its share of it.
abbrev pub cleared : {A : Type 0} → Bool → A → Option A
cleared true a = some a
cleared false a = none

-- Nothing happens once the process has ended.
abbrev pub unless_over : {A : Type 0} → Option (Outcome (Unit {0})) → Option A → Option A
unless_over none o = o
unless_over (some x) o = none

module _ (from to : ComplexSock) where
  -- The threads as they are spawned.
  abbrev pub spawned : from.State × to.State → Binding from to
  spawned (s, t) = record {
    left = shared s;
    right = shared t;
    running = true;
    point1 = loading;
    point2 = loading;
    over = none;
    log = [];
  }

  abbrev pub after_first : Binding from to → Moved from.State to.State → Binding from to
  after_first b m = record b {
    left = m.source;
    right = m.target;
    point1 = m.point;
    over = m.over;
    log = b.log ++ m.log;
  }

  abbrev pub after_second : Binding from to → Moved to.State from.State → Binding from to
  after_second b m = record b {
    right = m.source;
    left = m.target;
    point2 = m.point;
    over = m.over;
    log = b.log ++ m.log;
  }

  unfoldable pub live_turn : ℕ → Turn → Binding from to → Option (Binding from to)
  live_turn fuel first b =
      map (after_first b) (thread_turn from to fuel b.running b.point1 b.left b.right)
  live_turn fuel second b =
      map (after_second b) (thread_turn to from fuel b.running b.point2 b.right b.left)
  live_turn fuel clear b = cleared b.running (record b { running = false })

  unfoldable pub turn : ℕ → Turn → Binding from to → Option (Binding from to)
  turn fuel whose b = unless_over b.over (live_turn fuel whose b)

  -- A schedule, as far as every turn of it can be taken.
  unfoldable pub run : ℕ → List Turn → Binding from to → Option (Binding from to)
  run fuel [] b = some b
  run fuel (whose ∷ turns) b = bind (turn fuel whose b) (run fuel turns)

  -- The threads under any schedule: who cannot take a turn that it is given is passed over.
  unfoldable pub play : ℕ → List Turn → Binding from to → Binding from to
  play fuel [] b = b
  play fuel (whose ∷ turns) b = play fuel turns (get_or (turn fuel whose b) b)

-- What the join of a thread finds: its result, or the end of the process before it.
abbrev pub thread_end : Option (Outcome (Unit {0})) → Point → Outcome (Unit {0})
thread_end (some o) p = o
thread_end none (ended o) = o
thread_end none p = no_fuel
