-- ===== src/Base/Io.antt =====
-- What an operation of the program does: its outcome, the state after it, and what it lets the
-- outside see, in order.
use mathlib.Core.Path.{◌≡◌, ap, sym}
use mathlib.Core.List.{List, [], ◌∷◌, ◌++◌, append_assoc}
use Prim.Native.Nat.{ℕ}
use Prim.Native.String.{String}

-- `std::io::ErrorKind`, as far as the program names it; `other` is any other kind.
pub data ErrorKind : Type 0 where
  not_connected would_block invalid_data invalid_input invalid_filename : ErrorKind
  broken_pipe resource_busy : ErrorKind
  other : ℕ → ErrorKind

-- `std::io::Error`: `Error::from(kind)` and `Error::new(kind, message)`.
pub data Error : Type 0 where
  from_kind : ErrorKind → Error
  new : ErrorKind → String → Error

abbrev pub kind : Error → ErrorKind
kind (from_kind k) = k
kind (new k message) = k

-- How an operation ends: `Ok`, `Err`, a panic, undefined behaviour of an `unsafe` block, the end of
-- the process, or a loop that has not ended within the fuel of the model.
pub data Outcome (A : Type 0) : Type 0 where
  ok : A → Outcome A
  err : Error → Outcome A
  panic : Outcome A
  undefined : Outcome A
  exit : ℕ → Outcome A
  no_fuel : Outcome A

abbrev pub map_outcome : {A B : Type 0} → (A → B) → Outcome A → Outcome B
map_outcome f (ok a) = ok (f a)
map_outcome f (err e) = err e
map_outcome f panic = panic
map_outcome f undefined = undefined
map_outcome f (exit n) = exit n
map_outcome f no_fuel = no_fuel

abbrev pub bind_outcome : {A B : Type 0} → Outcome A → (A → Outcome B) → Outcome B
bind_outcome (ok a) f = f a
bind_outcome (err e) f = err e
bind_outcome panic f = panic
bind_outcome undefined f = undefined
bind_outcome (exit n) f = exit n
bind_outcome no_fuel f = no_fuel

-- The pieces of a formatted text: `{}` of a text and of a number, `{:?}` of bytes, a hex dump.
pub data Piece : Type 0 where
  lit : String → Piece
  num : ℕ → Piece
  debug : List ℕ → Piece
  hex_dump : List ℕ → Piece

abbrev pub Text : Type 0
Text = List Piece

-- Lines printed, sleeps, and the shutdown of the connection to an address.
pub data Event : Type 0 where
  println : Text → Event
  eprintln : Text → Event
  sleep_micros : ℕ → Event
  shutdown_both : String → Event

pub record Ret (S A : Type 0) : Type 0 where
  pub out : Outcome A
  pub state : S
  pub log : List Event

abbrev pub M : Type 0 → Type 0 → Type 0
M S A = S → Ret S A

abbrev pub returns : {S A : Type 0} → A → S → List Event → Ret S A
returns a s l = record { out = ok a; state = s; log = l }

abbrev pub prepend : {S A : Type 0} → List Event → Ret S A → Ret S A
prepend l r = record r { log = l ++ r.log }

-- `?` and the sequence of statements: what is not `Ok` ends the function.
abbrev pub chain : {S A B : Type 0} → Outcome A → S → List Event → (A → S → Ret S B) → Ret S B
chain (ok a) s l f = prepend l (f a s)
chain (err e) s l f = record { out = err e; state = s; log = l }
chain panic s l f = record { out = panic; state = s; log = l }
chain undefined s l f = record { out = undefined; state = s; log = l }
chain (exit n) s l f = record { out = exit n; state = s; log = l }
chain no_fuel s l f = record { out = no_fuel; state = s; log = l }

pub prepend-prepend :
    {S A : Type 0} (l l' : List Event) (r : Ret S A)
    → prepend l (prepend l' r) ≡ prepend (l ++ l') r
prepend-prepend l l' r = ap (λ t. record r { log = t }) (sym (append_assoc l l' r.log))

infixl 5 ◌>>=◌ ◌>>◌
abbrev pub ◌>>=◌ : {S A B : Type 0} → M S A → (A → M S B) → M S B
◌>>=◌ m f s = let r = m s in chain r.out r.state r.log f

abbrev pub ◌>>◌ : {S A B : Type 0} → M S A → M S B → M S B
m >> k = m >>= λ _. k

abbrev pub pure : {S A : Type 0} → A → M S A
pure a s = record { out = ok a; state = s; log = [] }

abbrev pub lift : {S A : Type 0} → Outcome A → M S A
lift o s = record { out = o; state = s; log = [] }

abbrev pub emit : {S : Type 0} → Event → M S (Unit {0})
emit e s = record { out = ok tt; state = s; log = e ∷ [] }

-- The rest of a sequence after a step that is known to succeed.
pub chain-returns :
    {S A B : Type 0} (m : M S A) (f : A → M S B) (s : S) {a : A} {s' : S} {l : List Event}
    → m s ≡ returns a s' l
    → (m >>= f) s ≡ prepend l (f a s')
chain-returns m f s h = rw h

-- What the drop of a value makes of an outcome: a panic in it takes the place of the outcome, and
-- while a panic unwinds it aborts the process, whose status is then that of SIGABRT.
abbrev pub after_drop : {A : Type 0} → Outcome A → Outcome (Unit {0}) → Outcome A
after_drop o (ok done) = o
after_drop o (err e) = o
after_drop panic panic = exit 134
after_drop o panic = panic
after_drop o undefined = undefined
after_drop o (exit code) = exit code
after_drop o no_fuel = no_fuel

-- The drop of a value, which `d` is, where a function returns or unwinds.
abbrev pub unwound : {S A : Type 0} → M S (Unit {0}) → Outcome A → S → List Event → Ret S A
unwound d undefined s l = record { out = undefined; state = s; log = l }
unwound d (exit code) s l = record { out = exit code; state = s; log = l }
unwound d no_fuel s l = record { out = no_fuel; state = s; log = l }
unwound d o s l =
    let c = d s in record { out = after_drop o c.out; state = c.state; log = l ++ c.log }

abbrev pub unwind : {S A : Type 0} → M S (Unit {0}) → Ret S A → Ret S A
unwind d r = unwound d r.out r.state r.log

-- The drop of a value that a function returns if it succeeds.
abbrev pub unwound_failed : {S A : Type 0} → M S (Unit {0}) → Outcome A → S → List Event → Ret S A
unwound_failed d (ok a) s l = returns a s l
unwound_failed d o s l = unwound d o s l

abbrev pub unwind_failed : {S A : Type 0} → M S (Unit {0}) → Ret S A → Ret S A
unwind_failed d r = unwound_failed d r.out r.state r.log
