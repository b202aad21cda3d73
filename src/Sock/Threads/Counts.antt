-- ===== src/Sock/Threads/Counts.antt =====
-- src/sock/mod.rs: the locks that the threads of a binding hold, and their shares of the sockets.
use polysock.Base.{
  ℕ, ◌+◌, ◌≤◌, ◌==◌, ◌≡◌, refl, inl, inr, [], Bool, true, false, Option, none, some, List, arith,
}
use polysock.Base.{
  sym, ap, ◌∙◌, Bool-cases, Outcome, Event, ok, err, panic, undefined, exit, no_fuel, ==_iff,
}
use polysock.Sock.{ComplexSock}
use polysock.Sock.Threads.{
  Point, loading, locking_source, reading, sleeping, locking_target, writing, dropping_source,
  dropping_target, ended, Shared, drop_arc, Moved, moved, after_read, after_write, thread_turn,
  acquire,
}

-- How many locks on the socket it reads a thread holds, and on the one it writes.
abbrev pub holds_source : Point → ℕ
holds_source reading = 1
holds_source loading = 0
holds_source locking_source = 0
holds_source sleeping = 0
holds_source (locking_target buf) = 0
holds_source (writing buf) = 0
holds_source (dropping_source o) = 0
holds_source (dropping_target o) = 0
holds_source (ended o) = 0

abbrev pub holds_target : Point → ℕ
holds_target (writing buf) = 1
holds_target loading = 0
holds_target locking_source = 0
holds_target reading = 0
holds_target sleeping = 0
holds_target (locking_target buf) = 0
holds_target (dropping_source o) = 0
holds_target (dropping_target o) = 0
holds_target (ended o) = 0

-- How many of the `Arc`s a thread has.
abbrev pub keeps_source : Point → ℕ
keeps_source (dropping_target o) = 0
keeps_source (ended o) = 0
keeps_source loading = 1
keeps_source locking_source = 1
keeps_source reading = 1
keeps_source sleeping = 1
keeps_source (locking_target buf) = 1
keeps_source (writing buf) = 1
keeps_source (dropping_source o) = 1

abbrev pub keeps_target : Point → ℕ
keeps_target (ended o) = 0
keeps_target loading = 1
keeps_target locking_source = 1
keeps_target reading = 1
keeps_target sleeping = 1
keeps_target (locking_target buf) = 1
keeps_target (writing buf) = 1
keeps_target (dropping_source o) = 1
keeps_target (dropping_target o) = 1

abbrev pub held : Bool → ℕ
held true = 1
held false = 0

-- A thread has a share of the socket it is in a call of.
pub holds_le_source : (p : Point) → holds_source p ≤ keeps_source p
holds_le_source loading = omega arith
holds_le_source locking_source = omega arith
holds_le_source reading = omega arith
holds_le_source sleeping = omega arith
holds_le_source (locking_target buf) = omega arith
holds_le_source (writing buf) = omega arith
holds_le_source (dropping_source o) = omega arith
holds_le_source (dropping_target o) = omega arith
holds_le_source (ended o) = omega arith

-- A thread has a share of the socket it is in a call of.
pub holds_le_target : (p : Point) → holds_target p ≤ keeps_target p
holds_le_target loading = omega arith
holds_le_target locking_source = omega arith
holds_le_target reading = omega arith
holds_le_target sleeping = omega arith
holds_le_target (locking_target buf) = omega arith
holds_le_target (writing buf) = omega arith
holds_le_target (dropping_source o) = omega arith
holds_le_target (dropping_target o) = omega arith
holds_le_target (ended o) = omega arith

-- What an optional value satisfies, if it is there.
abbrev pub Each : {A : Type 0} → (A → Type 0) → Option A → Type 0
Each P none = Unit {0}
Each P (some a) = P a

-- A turn takes and frees a lock as the place of its thread says, and likewise the shares.
pub record IsBalanced {A B : Type 0} (p : Point) (s : Shared A) (t : Shared B) (m : Moved A B)
    : Type 0 where
  pub source_lock : held m.source.locked + holds_source p ≡ held s.locked + holds_source m.point
  pub target_lock : held m.target.locked + holds_target p ≡ held t.locked + holds_target m.point
  pub source_refs : m.source.refs + keeps_source p ≡ s.refs + keeps_source m.point
  pub target_refs : m.target.refs + keeps_target p ≡ t.refs + keeps_target m.point

balanced :
    {A B : Type 0} {p : Point} {s : Shared A} {t : Shared B} {m : Moved A B}
    → held m.source.locked + holds_source p ≡ held s.locked + holds_source m.point
    → held m.target.locked + holds_target p ≡ held t.locked + holds_target m.point
    → m.source.refs + keeps_source p ≡ s.refs + keeps_source m.point
    → m.target.refs + keeps_target p ≡ t.refs + keeps_target m.point
    → IsBalanced p s t m
balanced a b c d = record { source_lock = a; target_lock = b; source_refs = c; target_refs = d }

held_iff : (b : Bool) → 1 ≤ held b → b ≡ true
held_iff true h = refl
held_iff false h = absurd (omega (arith, h))

-- The drop of a share.
drop_arc-refs :
    (K : ComplexSock) (m : Shared K.State) → 1 ≤ m.refs → (drop_arc K m).state.refs + 1 ≡ m.refs
drop_arc-refs K m h = elim (Bool-cases (m.refs == 1)) [
  | inl one ↦ rw (one, drop_arc) (sym ((==_iff m.refs 1).0 one))
  | inr more ↦ rw (more, drop_arc) (omega (arith, h))
]

drop_arc-locked : (K : ComplexSock) (m : Shared K.State) → (drop_arc K m).state.locked ≡ m.locked
drop_arc-locked K m = elim (Bool-cases (m.refs == 1)) [
  | inl one ↦ rw (one, drop_arc)
  | inr more ↦ rw (more, drop_arc)
]

module _ (source target : ComplexSock) where
  after_read-IsBalanced :
      (o : Outcome (List ℕ)) (s' : source.State) (log : List Event) (s : Shared source.State)
      (t : Shared target.State)
      → s.locked ≡ true
      → IsBalanced reading s t (after_read source target o s' log s t)
  after_read-IsBalanced (ok buf) s' log s t e =
      balanced (ap held (sym e) ∙ omega arith) refl refl refl
  after_read-IsBalanced (err x) s' log s t e =
      balanced (ap held (sym e) ∙ omega arith) refl refl refl
  after_read-IsBalanced panic s' log s t e = balanced (ap held (sym e) ∙ omega arith) refl refl refl
  after_read-IsBalanced undefined s' log s t e = balanced refl refl refl refl
  after_read-IsBalanced (exit n) s' log s t e = balanced refl refl refl refl
  after_read-IsBalanced no_fuel s' log s t e = balanced refl refl refl refl

  after_write-IsBalanced :
      (buf : List ℕ) (o : Outcome (Unit {0})) (t' : target.State) (log : List Event)
      (s : Shared source.State) (t : Shared target.State)
      → t.locked ≡ true
      → IsBalanced (writing buf) s t (after_write source target buf o t' log s t)
  after_write-IsBalanced buf (ok done) t' log s t e =
      balanced refl (ap held (sym e) ∙ omega arith) refl refl
  after_write-IsBalanced buf (err x) t' log s t e =
      balanced refl (ap held (sym e) ∙ omega arith) refl refl
  after_write-IsBalanced buf panic t' log s t e =
      balanced refl (ap held (sym e) ∙ omega arith) refl refl
  after_write-IsBalanced buf undefined t' log s t e = balanced refl refl refl refl
  after_write-IsBalanced buf (exit n) t' log s t e = balanced refl refl refl refl
  after_write-IsBalanced buf no_fuel t' log s t e = balanced refl refl refl refl

  -- A lock that is free is taken, or found poisoned.
  acquire-Each :
      (P : Moved source.State target.State → Type 0) (locked poisoned : Bool)
      (taken failed : Moved source.State target.State)
      → (locked ≡ false → P taken)
      → P failed
      → Each P (acquire source target locked poisoned taken failed)
  acquire-Each P true poisoned taken failed f g = tt
  acquire-Each P false true taken failed f g = g
  acquire-Each P false false taken failed f g = f refl

  -- A turn keeps the balance of the locks and the shares.
  pub thread_turn-IsBalanced :
      (fuel : ℕ) (running : Bool) (p : Point) (s : Shared source.State) (t : Shared target.State)
      → holds_source p ≤ held s.locked
      → holds_target p ≤ held t.locked
      → keeps_source p ≤ s.refs
      → keeps_target p ≤ t.refs
      → Each (IsBalanced p s t) (thread_turn source target fuel running p s t)
  unfolding thread_turn
  thread_turn-IsBalanced fuel true loading s t hs ht ks kt = balanced refl refl refl refl
  thread_turn-IsBalanced fuel false loading s t hs ht ks kt = balanced refl refl refl refl
  thread_turn-IsBalanced fuel running locking_source s t hs ht ks kt =
      acquire-Each (IsBalanced locking_source s t) s.locked s.poisoned
        (moved reading (record s { locked = true }) t []) (moved (dropping_source panic) s t [])
        (λ free. balanced (ap (λ b. held b + 1) (sym free)) refl refl refl)
        (balanced refl refl refl refl)
  thread_turn-IsBalanced fuel running reading s t hs ht ks kt =
      after_read-IsBalanced _ _ _ s t (held_iff s.locked hs)
  thread_turn-IsBalanced fuel running (locking_target buf) s t hs ht ks kt =
      acquire-Each (IsBalanced (locking_target buf) s t) t.locked t.poisoned
        (moved (writing buf) s (record t { locked = true }) [])
        (moved (dropping_source panic) s t [])
        (λ free. balanced refl (ap (λ b. held b + 1) (sym free)) refl refl)
        (balanced refl refl refl refl)
  thread_turn-IsBalanced fuel running (writing buf) s t hs ht ks kt =
      after_write-IsBalanced buf _ _ _ s t (held_iff t.locked ht)
  thread_turn-IsBalanced fuel running sleeping s t hs ht ks kt = balanced refl refl refl refl
  thread_turn-IsBalanced fuel running (dropping_source o) s t hs ht ks kt =
      balanced (ap (λ b. held b + 0) (drop_arc-locked source s)) refl
        (drop_arc-refs source s ks ∙ omega arith) refl
  thread_turn-IsBalanced fuel running (dropping_target o) s t hs ht ks kt =
      balanced refl (ap (λ b. held b + 0) (drop_arc-locked target t)) refl
        (drop_arc-refs target t kt ∙ omega arith)
  thread_turn-IsBalanced fuel running (ended o) s t hs ht ks kt = tt
