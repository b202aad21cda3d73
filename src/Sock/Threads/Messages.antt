-- ===== src/Sock/Threads/Messages.antt =====
-- src/sock/mod.rs: the message that a thread of a binding holds.
use polysock.Base.{
  after_drop, ℕ, ◌≤◌, ◌≡◌, refl, sym, ap, ◌∙◌, Bool, true, false, Option, none, some, List, [], ◌∷◌,
  ◌++◌, append_assoc, append-nil, Outcome, ok, err, panic, undefined, exit, no_fuel, arith, length,
  Event,
}
use polysock.Sock.{ComplexSock}
use polysock.Sock.Wrapper.{u8, read_all, generic_write}
use polysock.Sock.Threads.{
  Point, loading, locking_source, reading, sleeping, locking_target, writing, dropping_source,
  dropping_target, ended, Shared, Moved, stopped, drop_arc, acquire, after_read, after_write,
  thread_turn,
}
use polysock.Sock.Threads.Counts.{Each}

abbrev pub Messages : Type 0
Messages = List (List ℕ)

abbrev if_ok : Outcome (List ℕ) → Messages
if_ok (ok buf) = buf ∷ []
if_ok (err e) = []
if_ok panic = []
if_ok undefined = []
if_ok (exit n) = []
if_ok no_fuel = []

-- The message that a turn from a place reads, and the one that it calls `generic_write` with.
abbrev pub now_received : (K : ComplexSock) → ℕ → Point → Shared K.State → Messages
now_received K fuel reading s = if_ok (read_all K u8 fuel s.inner).out
now_received K fuel loading s = []
now_received K fuel locking_source s = []
now_received K fuel sleeping s = []
now_received K fuel (locking_target buf) s = []
now_received K fuel (writing buf) s = []
now_received K fuel (dropping_source o) s = []
now_received K fuel (dropping_target o) s = []
now_received K fuel (ended o) s = []

abbrev pub sent : Point → Messages
sent (writing buf) = buf ∷ []
sent reading = []
sent loading = []
sent locking_source = []
sent sleeping = []
sent (locking_target buf) = []
sent (dropping_source o) = []
sent (dropping_target o) = []
sent (ended o) = []

-- What a thread holds that it has read and not handed on.
abbrev pub Carries : Option (Outcome (Unit {0})) → Point → Messages → Type 0
Carries (some o) p msgs = length msgs ≤ 1
Carries none loading msgs = msgs ≡ []
Carries none locking_source msgs = msgs ≡ []
Carries none reading msgs = msgs ≡ []
Carries none sleeping msgs = msgs ≡ []
Carries none (locking_target buf) msgs = msgs ≡ buf ∷ []
Carries none (writing buf) msgs = msgs ≡ buf ∷ []
Carries none (dropping_source o) msgs = length msgs ≤ 1
Carries none (dropping_target o) msgs = length msgs ≤ 1
Carries none (ended o) msgs = length msgs ≤ 1

pub length-Carries :
    (over : Option (Outcome (Unit {0}))) (p : Point) (msgs : Messages)
    → Carries over p msgs
    → length msgs ≤ 1
length-Carries (some o) p msgs c = c
length-Carries none loading msgs c = omega (arith, ap length c)
length-Carries none locking_source msgs c = omega (arith, ap length c)
length-Carries none reading msgs c = omega (arith, ap length c)
length-Carries none sleeping msgs c = omega (arith, ap length c)
length-Carries none (locking_target buf) msgs c = omega (arith, ap length c)
length-Carries none (writing buf) msgs c = omega (arith, ap length c)
length-Carries none (dropping_source o) msgs c = c
length-Carries none (dropping_target o) msgs c = c
length-Carries none (ended o) msgs c = c

pub over-Carries :
    (over : Option (Outcome (Unit {0}))) (p : Point) (msgs : Messages)
    → Carries none p msgs
    → Carries over p msgs
over-Carries none p msgs c = c
over-Carries (some o) p msgs c = length-Carries none p msgs c

pub Each-any : {A : Type 0} (o : Option A) → Each (λ a. Unit {0}) o
Each-any none = tt
Each-any (some a) = tt

-- Two accounts in a row.
pub account :
    (held now later held' out out' held'' : Messages)
    → held ++ now ≡ out ++ held'
    → held' ++ later ≡ out' ++ held''
    → held ++ (now ++ later) ≡ (out ++ out') ++ held''
account held now later held' out out' held'' e f =
    sym (append_assoc held now later)
    ∙ ap (λ l. l ++ later) e
    ∙ append_assoc out held' later
    ∙ ap (◌++◌ out) f
    ∙ sym (append_assoc out out' held'')

-- A turn keeps the account of what is read, handed on and held.
abbrev pub Accounts : Messages → Messages → Option (Outcome (Unit {0})) → Point → Type 0
Accounts before after over p = (msgs : Messages) × Carries over p msgs × (before ≡ after ++ msgs)

module _ (source target : ComplexSock) where
  abbrev pub Kept : Messages → Messages → Moved source.State target.State → Type 0
  Kept before after m = Accounts before after m.over m.point

  after_read-Kept :
      (o : Outcome (List ℕ)) (s' : source.State) (log : List Event) (s : Shared source.State)
      (t : Shared target.State)
      → Kept (if_ok o) [] (after_read source target o s' log s t)
  after_read-Kept (ok buf) s' log s t = (buf ∷ [], refl, refl)
  after_read-Kept (err x) s' log s t = ([], omega arith, refl)
  after_read-Kept panic s' log s t = ([], omega arith, refl)
  after_read-Kept undefined s' log s t = ([], omega arith, refl)
  after_read-Kept (exit n) s' log s t = ([], omega arith, refl)
  after_read-Kept no_fuel s' log s t = ([], omega arith, refl)

  after_write-Kept :
      (buf : List ℕ) (o : Outcome (Unit {0})) (t' : target.State) (log : List Event)
      (s : Shared source.State) (t : Shared target.State)
      → Kept (buf ∷ []) (buf ∷ []) (after_write source target buf o t' log s t)
  after_write-Kept buf (ok done) t' log s t = ([], refl, refl)
  after_write-Kept buf (err x) t' log s t = ([], omega arith, refl)
  after_write-Kept buf panic t' log s t = ([], omega arith, refl)
  after_write-Kept buf undefined t' log s t = ([], omega arith, refl)
  after_write-Kept buf (exit n) t' log s t = ([], omega arith, refl)
  after_write-Kept buf no_fuel t' log s t = ([], omega arith, refl)

  acquire-Kept :
      (before after : Messages) (locked poisoned : Bool)
      (taken failed : Moved source.State target.State)
      → Kept before after taken
      → Kept before after failed
      → Each (Kept before after) (acquire source target locked poisoned taken failed)
  acquire-Kept before after true poisoned taken failed f g = tt
  acquire-Kept before after false true taken failed f g = g
  acquire-Kept before after false false taken failed f g = f

  pub thread_turn-Kept :
      (fuel : ℕ) (running : Bool) (p : Point) (s : Shared source.State) (t : Shared target.State)
      (msgs : Messages)
      → Carries none p msgs
      → Each
          (Kept (msgs ++ now_received source fuel p s) (sent p))
          (thread_turn source target fuel running p s t)
  unfolding thread_turn
  thread_turn-Kept fuel true loading s t msgs c = ([], refl, append-nil msgs ∙ c)
  thread_turn-Kept fuel false loading s t msgs c = ([], omega arith, append-nil msgs ∙ c)
  thread_turn-Kept fuel running locking_source s t msgs c =
      acquire-Kept (msgs ++ []) [] s.locked s.poisoned _ _ ([], refl, append-nil msgs ∙ c)
        ([], omega arith, append-nil msgs ∙ c)
  thread_turn-Kept fuel running reading s t msgs c = rw c (after_read-Kept _ _ _ s t)
  thread_turn-Kept fuel running (locking_target buf) s t msgs c =
      acquire-Kept (msgs ++ []) [] t.locked t.poisoned _ _ (buf ∷ [], refl, append-nil msgs ∙ c)
        (buf ∷ [], omega arith, append-nil msgs ∙ c)
  thread_turn-Kept fuel running (writing buf) s t msgs c = rw c (after_write-Kept buf _ _ _ s t)
  thread_turn-Kept fuel running sleeping s t msgs c = ([], refl, append-nil msgs ∙ c)
  thread_turn-Kept fuel running (dropping_source o) s t msgs c =
      let o' = after_drop o (drop_arc source s).out in
      (msgs, over-Carries (stopped o') (dropping_target o') msgs c, append-nil msgs)
  thread_turn-Kept fuel running (dropping_target o) s t msgs c =
      let o' = after_drop o (drop_arc target t).out in
      (msgs, over-Carries (stopped o') (ended o') msgs c, append-nil msgs)
  thread_turn-Kept fuel running (ended o) s t msgs c = tt

  -- What a turn does with the message of a thread that is in `generic_write`: the call gets the
  -- whole message, under the lock, and the state of the socket and what is seen are those of the call.
  abbrev pub Hands : Point → Shared target.State → Moved source.State target.State → Type 0
  Hands (writing buf) t m =
      let call = generic_write target u8 buf (length buf) t.inner in
      (m.target.inner ≡ call.state) × (m.log ≡ call.log)
  Hands loading t m = Unit {0}
  Hands locking_source t m = Unit {0}
  Hands reading t m = Unit {0}
  Hands sleeping t m = Unit {0}
  Hands (locking_target buf) t m = Unit {0}
  Hands (dropping_source o) t m = Unit {0}
  Hands (dropping_target o) t m = Unit {0}
  Hands (ended o) t m = Unit {0}

  after_write-call :
      (buf : List ℕ) (o : Outcome (Unit {0})) (t' : target.State) (log : List Event)
      (s : Shared source.State) (t : Shared target.State)
      → let m = after_write source target buf o t' log s t in (m.target.inner ≡ t') × (m.log ≡ log)
  after_write-call buf (ok done) t' log s t = (refl, refl)
  after_write-call buf (err x) t' log s t = (refl, refl)
  after_write-call buf panic t' log s t = (refl, refl)
  after_write-call buf undefined t' log s t = (refl, refl)
  after_write-call buf (exit n) t' log s t = (refl, refl)
  after_write-call buf no_fuel t' log s t = (refl, refl)

  pub thread_turn-Hands :
      (fuel : ℕ) (running : Bool) (p : Point) (s : Shared source.State) (t : Shared target.State)
      → Each (Hands p t) (thread_turn source target fuel running p s t)
  unfolding thread_turn
  thread_turn-Hands fuel running (writing buf) s t = after_write-call buf _ _ _ s t
  thread_turn-Hands fuel running loading s t = tt
  thread_turn-Hands fuel running locking_source s t = Each-any _
  thread_turn-Hands fuel running reading s t = tt
  thread_turn-Hands fuel running sleeping s t = tt
  thread_turn-Hands fuel running (locking_target buf) s t = Each-any _
  thread_turn-Hands fuel running (dropping_source o) s t = tt
  thread_turn-Hands fuel running (dropping_target o) s t = tt
  thread_turn-Hands fuel running (ended o) s t = tt
