-- ===== src/Base/Outcomes.antt =====
-- Statements on the result of an operation, if it has one.
use mathlib.Core.Path.{◌≡◌}
use mathlib.Core.List.{List}
use polysock.Base.Io.{
  Outcome, ok, err, panic, undefined, exit, no_fuel, Ret, Event, chain, map_outcome, bind_outcome,
}

-- What an outcome holds, if it is a result.
abbrev pub Holds : {A : Type 0} → (A → Type 0) → Outcome A → Type 0
Holds P (ok a) = P a
Holds P (err e) = Unit {0}
Holds P panic = Unit {0}
Holds P undefined = Unit {0}
Holds P (exit code) = Unit {0}
Holds P no_fuel = Unit {0}

pub Holds-ok : {A : Type 0} (P : A → Type 0) (o : Outcome A) {a : A} → Holds P o → o ≡ ok a → P a
Holds-ok P o {a} h e = rw e at h

pub Holds-map :
    {A B : Type 0} (P : A → Type 0) (Q : B → Type 0) (f : A → B) (o : Outcome A)
    → Holds P o
    → ((a : A) → P a → Q (f a))
    → Holds Q (map_outcome f o)
Holds-map P Q f (ok a) h k = k a h
Holds-map P Q f (err e) h k = tt
Holds-map P Q f panic h k = tt
Holds-map P Q f undefined h k = tt
Holds-map P Q f (exit code) h k = tt
Holds-map P Q f no_fuel h k = tt

pub Holds-bind :
    {A B : Type 0} (P : A → Type 0) (Q : B → Type 0) (f : A → Outcome B) (o : Outcome A)
    → Holds P o
    → ((a : A) → P a → Holds Q (f a))
    → Holds Q (bind_outcome o f)
Holds-bind P Q f (ok a) h k = k a h
Holds-bind P Q f (err e) h k = tt
Holds-bind P Q f panic h k = tt
Holds-bind P Q f undefined h k = tt
Holds-bind P Q f (exit code) h k = tt
Holds-bind P Q f no_fuel h k = tt

pub Holds-chain :
    {S A B : Type 0} (P : A → Type 0) (Q : B → Type 0) (o : Outcome A) (s : S) (l : List Event)
    (f : A → S → Ret S B)
    → Holds P o
    → ((a : A) (s : S) → P a → Holds Q (f a s).out)
    → Holds Q (chain o s l f).out
Holds-chain P Q (ok a) s l f h k = k a s h
Holds-chain P Q (err e) s l f h k = tt
Holds-chain P Q panic s l f h k = tt
Holds-chain P Q undefined s l f h k = tt
Holds-chain P Q (exit code) s l f h k = tt
Holds-chain P Q no_fuel s l f h k = tt

-- Nothing is asked of an outcome.
pub Holds-any : {A : Type 0} (o : Outcome A) → Holds (λ a. Unit {0}) o
Holds-any (ok a) = tt
Holds-any (err e) = tt
Holds-any panic = tt
Holds-any undefined = tt
Holds-any (exit code) = tt
Holds-any no_fuel = tt
