-- ===== src/Tests/Threads.antt =====
-- Schedules of the two threads of a binding of src/sock/mod.rs with sample sockets.
use polysock.Base.{
  ℕ, ◌≤◌, ◌≡◌, refl, ◌⊎◌, Option, none, some, List, [], ◌∷◌, ◌++◌, true, false, length,
}
use mathlib.Core.Path.{subst}
use polysock.Base.{◌*◌, ◌^◌, sym, write_at, replicate, take, ap, inl, inr, arith, le→ltb, pure}
use native.Mathlib.Nat.{mod-le}
use polysock.Sock.Wrapper.Bytes.{encode-u8}
use polysock.Base.{panic, lift, println, lit}
use mathlib.Core.Option.{bind}
use polysock.Sock.{ComplexSock}
use polysock.Sock.Wrapper.{
  u8, read_all, read_all_loop, generic_read, read_loop, generic_write, write_memory, mul_usize,
  encode, elements,
}
use polysock.Sock.Threads.{
  locking_source, sleeping, writing, ended, Turn, first, second, clear, Binding, spawned,
  thread_turn, live_turn, turn, run,
}
use polysock.Sock.Threads.Counts.{Each}
use polysock.Sock.Threads.Isolation.{right_sock, calls, Untouched, run-exclusive}
use polysock.Sock.Threads.Progress.{CanTurn, BothEnded, run-progress}
use polysock.Sock.Threads.Answers.{IsSettled, Answers}
use polysock.Sock.Threads.Shutdown.{IsOver, run-ends}
use polysock.Sock.Threads.Messages.{Messages}
use polysock.Sock.Threads.Forwarding.{received_by, sent_by, HandsOn, run-forwards}
use polysock.Tests.Samples.{sink, two_reads}
use polysock.Tests.Bindings.{loud}

-- The two messages of the first socket, and the second one, which is loud when it is closed.
abbrev pair : List (List ℕ) × List (List ℕ)
pair = ((1 ∷ 2 ∷ []) ∷ (3 ∷ []) ∷ [], [])

abbrev at_start : Binding two_reads loud
at_start = spawned two_reads loud pair

-- The first thread has read its message and writes it, and the second one waits for its lock.
abbrev busy : List Turn
busy = first ∷ first ∷ first ∷ first ∷ second ∷ clear ∷ []

abbrev in_the_write : Option (Binding two_reads loud)
in_the_write = run two_reads loud 3 busy at_start

abbrev mid_write : Binding two_reads loud
mid_write = record {
  left = record { inner = (3 ∷ []) ∷ []; locked = false; poisoned = false; refs = 2 };
  right = record { inner = []; locked = true; poisoned = false; refs = 2 };
  running = false;
  point1 = writing (1 ∷ 2 ∷ []);
  point2 = locking_source;
  over = none;
  log = [];
}

busy_result : in_the_write ≡ some mid_write
unfolding run turn live_turn thread_turn read_all read_all_loop generic_read read_loop mul_usize
    elements bind
busy_result = refl

run-exclusive_example :
    (calls two_reads loud second right_sock mid_write ≡ 0)
    × Each (Untouched two_reads loud right_sock mid_write) (turn two_reads loud 3 second mid_write)
run-exclusive_example =
    run-exclusive two_reads loud 3 busy pair mid_write first right_sock busy_result refl

run-progress_example :
    CanTurn two_reads loud 3 first mid_write
    ⊎ CanTurn two_reads loud 3 second mid_write
    ⊎ BothEnded two_reads loud mid_write
run-progress_example = run-progress two_reads loud 3 busy pair mid_write busy_result refl

-- A socket that hands out two messages and takes every message.
abbrev quiet : ComplexSock
quiet = record two_reads { write = λ buf n. pure tt }

abbrev quiet_start : Binding quiet loud
quiet_start = spawned quiet loud pair

abbrev quiet_write : Binding quiet loud
quiet_write = record {
  left = record { inner = (3 ∷ []) ∷ []; locked = false; poisoned = false; refs = 2 };
  right = record { inner = []; locked = true; poisoned = false; refs = 2 };
  running = false;
  point1 = writing (1 ∷ 2 ∷ []);
  point2 = locking_source;
  over = none;
  log = [];
}

quiet_result : run quiet loud 3 busy quiet_start ≡ some quiet_write
unfolding run turn live_turn thread_turn read_all read_all_loop generic_read read_loop mul_usize
    elements bind
quiet_result = refl

-- What the quiet socket may still have to hand out.
abbrev Remains : List (List ℕ) → Type 0
Remains s = (s ≡ pair.0) ⊎ (s ≡ (3 ∷ []) ∷ []) ⊎ (s ≡ [])

quiet_reads :
    (s : List (List ℕ))
    → Remains s
    → IsSettled (read_all quiet u8 3 s).out × Remains (read_all quiet u8 3 s).state
unfolding read_all read_all_loop generic_read read_loop mul_usize elements
quiet_reads s (inl e) = rw e (tt, inr (inl refl))
quiet_reads s (inr (inl e)) = rw e (tt, inr (inr refl))
quiet_reads s (inr (inr e)) = rw e (tt, inr (inr refl))

write_memory-enough :
    (K : ComplexSock) (n : ℕ) (memory : List ℕ)
    → n ≤ length memory
    → write_memory K n memory ≡ K.write (write_at (replicate n 0) 0 (take n memory)) n
unfolding write_memory
write_memory-enough K n memory le = rw (le→ltb (length memory) n le, write_memory)

generic_write-IsSettled :
    (K : ComplexSock) (P : K.State → Type 0) (buf : List ℕ) (s : K.State)
    → ((bytes : List ℕ) (n : ℕ) → IsSettled (K.write bytes n s).out × P (K.write bytes n s).state)
    → let r = generic_write K u8 buf (length buf) s in IsSettled r.out × P r.state
unfolding generic_write mul_usize
generic_write-IsSettled K P buf s takes =
    subst (λ m. IsSettled (m s).out × P (m s).state)
      (sym (write_memory-enough K (mul_usize 1 (length buf)) (encode u8 buf) fits)) (takes _ _)
  where
    fits : mul_usize 1 (length buf) ≤ length (encode u8 buf)
    fits = omega (arith, ap length (encode-u8 buf), mod-le (1 * length buf) (2 ^ 64))

quiet_answers : Answers quiet 3 Remains
quiet_answers = record {
  reads = quiet_reads;
  writes = λ buf s p. generic_write-IsSettled quiet Remains buf s (λ bytes n. (tt, p));
  drops = λ s p. (tt, p);
}

loud_reads : (s : List (List ℕ)) → IsSettled (read_all loud u8 3 s).out × Unit {0}
unfolding read_all read_all_loop generic_read read_loop mul_usize elements
loud_reads s = (tt, tt)

loud_answers : Answers loud 3 (λ s. Unit {0})
loud_answers = record {
  reads = λ s p. loud_reads s;
  writes = λ buf s p. generic_write-IsSettled loud (λ s. Unit {0}) buf s (λ bytes n. (tt, tt));
  drops = λ s p. (tt, tt);
}

run-ends_example :
    (turns : List Turn) × (b' : Binding quiet loud) × (run quiet loud 3 turns quiet_write ≡ some b')
    × IsOver quiet loud b'
    × (length turns ≤ 16)
run-ends_example =
    run-ends quiet loud 3 Remains (λ s. Unit {0}) quiet_answers loud_answers busy pair quiet_write
      (inl refl) tt quiet_result refl

-- The same up to the end of the write.
abbrev written : List Turn
written = busy ++ (first ∷ [])

abbrev after_the_write : Binding two_reads loud
after_the_write = record mid_write {
  right = record { inner = (1 ∷ 2 ∷ []) ∷ []; locked = false; poisoned = false; refs = 2 };
  point1 = sleeping;
}

written_result : run two_reads loud 3 written at_start ≡ some after_the_write
unfolding run turn live_turn thread_turn read_all read_all_loop generic_read read_loop mul_usize
    elements bind generic_write write_memory encode
written_result = refl

run-forwards_example :
    ((held_back : Messages) × (received_by two_reads loud 3 first written at_start
        ≡ sent_by two_reads loud 3 first written at_start ++ held_back)
      × (length held_back ≤ 1))
    × HandsOn two_reads loud 3 first written at_start
run-forwards_example =
    run-forwards two_reads loud 3 first written pair after_the_write written_result

-- What is read by then, and not yet handed on.
busy_received : received_by two_reads loud 3 first busy at_start ≡ (1 ∷ 2 ∷ []) ∷ []
unfolding received_by turn live_turn thread_turn read_all read_all_loop generic_read read_loop
    mul_usize elements
busy_received = refl

busy_sent : sent_by two_reads loud 3 first busy at_start ≡ []
unfolding sent_by turn live_turn thread_turn read_all read_all_loop generic_read read_loop mul_usize
    elements
busy_sent = refl

-- A socket whose reads panic: the lock is poisoned, and the other thread panics at it.
abbrev panics : ComplexSock
panics = record sink { read = λ buffer n. lift panic }

abbrev poisoned : Option (Binding panics loud)
poisoned =
    run panics loud 3
      (first ∷ first ∷ first ∷ second ∷ second ∷ second ∷ second ∷ first ∷ first ∷ second ∷ second
        ∷ [])
      (spawned panics loud ([], []))

poisoned_result :
    poisoned
    ≡ some (record {
      left = record { inner = []; locked = false; poisoned = true; refs = 0 };
      right = record { inner = []; locked = false; poisoned = false; refs = 0 };
      running = true;
      point1 = ended panic;
      point2 = ended panic;
      over = none;
      log = println (lit "closed" ∷ []) ∷ [];
    })
unfolding run turn live_turn thread_turn read_all read_all_loop generic_read read_loop mul_usize
    elements bind
poisoned_result = refl
