-- ===== src/Base/Lists.antt =====
-- Lists measured by native numbers, and writes into the middle of a buffer.
use Prim.Native.Nat.{ℕ, zero, suc, ◌+◌, ◌-◌, ◌≤◌, min}
use mathlib.Core.Path.{◌≡◌, refl, sym, ap, ◌∙◌}
use mathlib.Core.List.{List, [], ◌∷◌, ◌++◌, append_assoc}
use mathlib.Core.Option.{Option, none, some}
use native.Mathlib.Omega.{arith}

module _ {ℓ} {A : Type ℓ} where
  abbrev pub length : List A → ℕ
  length [] = 0
  length (x ∷ xs) = suc (length xs)

  abbrev pub get_elem? : List A → ℕ → Option A
  get_elem? [] i = none
  get_elem? (x ∷ xs) zero = some x
  get_elem? (x ∷ xs) (suc i) = get_elem? xs i

  abbrev pub take : ℕ → List A → List A
  take zero xs = []
  take (suc n) [] = []
  take (suc n) (x ∷ xs) = x ∷ take n xs

  abbrev pub drop : ℕ → List A → List A
  drop zero xs = xs
  drop (suc n) [] = []
  drop (suc n) (x ∷ xs) = drop n xs

  abbrev pub replicate : ℕ → A → List A
  replicate zero a = []
  replicate (suc n) a = a ∷ replicate n a

  -- The buffer `xs` after `bs` has been copied to the places from `i` on.
  abbrev pub write_at : List A → ℕ → List A → List A
  write_at xs zero bs = bs ++ drop (length bs) xs
  write_at [] (suc i) bs = []
  write_at (x ∷ xs) (suc i) bs = x ∷ write_at xs i bs

module _ {ℓ} {A : Type ℓ} where
  pub length-append : (xs ys : List A) → length (xs ++ ys) ≡ length xs + length ys
  length-append [] ys = omega arith
  length-append (x ∷ xs) ys = omega (arith, length-append xs ys)

  pub length-take : (n : ℕ) (xs : List A) → length (take n xs) ≡ min n (length xs)
  length-take zero xs = omega arith
  length-take (suc n) [] = omega arith
  length-take (suc n) (x ∷ xs) = omega (arith, length-take n xs)

  pub length-drop : (n : ℕ) (xs : List A) → length (drop n xs) ≡ length xs - n
  length-drop zero xs = omega arith
  length-drop (suc n) [] = omega arith
  length-drop (suc n) (x ∷ xs) = omega (arith, length-drop n xs)

  pub length-replicate : (n : ℕ) (a : A) → length (replicate n a) ≡ n
  length-replicate zero a = refl
  length-replicate (suc n) a = ap suc (length-replicate n a)

  pub take-append-drop : (n : ℕ) (xs : List A) → take n xs ++ drop n xs ≡ xs
  take-append-drop zero xs = refl
  take-append-drop (suc n) [] = refl
  take-append-drop (suc n) (x ∷ xs) = ap (◌∷◌ x) (take-append-drop n xs)

  pub take-all : (n : ℕ) (xs : List A) → length xs ≤ n → take n xs ≡ xs
  take-all zero [] h = refl
  take-all zero (x ∷ xs) h = absurd (omega arith)
  take-all (suc n) [] h = refl
  take-all (suc n) (x ∷ xs) h = ap (◌∷◌ x) (take-all n xs (omega arith))

  pub drop-all : (n : ℕ) (xs : List A) → length xs ≤ n → drop n xs ≡ []
  drop-all zero [] h = refl
  drop-all zero (x ∷ xs) h = absurd (omega arith)
  drop-all (suc n) [] h = refl
  drop-all (suc n) (x ∷ xs) h = drop-all n xs (omega arith)

  pub drop-nil : (n : ℕ) → drop {A = A} n [] ≡ []
  drop-nil zero = refl
  drop-nil (suc n) = refl

  pub take-nil : (n : ℕ) → take {A = A} n [] ≡ []
  take-nil zero = refl
  take-nil (suc n) = refl

  pub write_at-nil : (xs : List A) (i : ℕ) → write_at xs i [] ≡ xs
  write_at-nil xs zero = refl
  write_at-nil [] (suc i) = refl
  write_at-nil (x ∷ xs) (suc i) = ap (◌∷◌ x) (write_at-nil xs i)

  pub drop-drop : (m n k : ℕ) (xs : List A) → m + n ≡ k → drop n (drop m xs) ≡ drop k xs
  drop-drop zero n k xs e = ap (λ j. drop j xs) (omega arith)
  drop-drop (suc m) n zero xs e = absurd (omega arith)
  drop-drop (suc m) n (suc k) [] e = drop-nil n
  drop-drop (suc m) n (suc k) (x ∷ xs) e = drop-drop m n k xs (omega arith)

  pub take-append_left : (n : ℕ) (xs ys : List A) → n ≤ length xs → take n (xs ++ ys) ≡ take n xs
  take-append_left zero xs ys h = refl
  take-append_left (suc n) [] ys h = absurd (omega arith)
  take-append_left (suc n) (x ∷ xs) ys h = ap (◌∷◌ x) (take-append_left n xs ys (omega arith))

  pub take-append_right :
      (n k : ℕ) (xs ys : List A) → length xs + k ≡ n → take n (xs ++ ys) ≡ xs ++ take k ys
  take-append_right n k [] ys e = ap (λ j. take j ys) (omega arith)
  take-append_right zero k (x ∷ xs) ys e = absurd (omega arith)
  take-append_right (suc n) k (x ∷ xs) ys e = ap (◌∷◌ x) (take-append_right n k xs ys (omega arith))

  pub drop-append_right :
      (n k : ℕ) (xs ys : List A) → length xs + k ≡ n → drop n (xs ++ ys) ≡ drop k ys
  drop-append_right n k [] ys e = ap (λ j. drop j ys) (omega arith)
  drop-append_right zero k (x ∷ xs) ys e = absurd (omega arith)
  drop-append_right (suc n) k (x ∷ xs) ys e = drop-append_right n k xs ys (omega arith)

  pub drop-append_left :
      (n : ℕ) (xs ys : List A) → n ≤ length xs → drop n (xs ++ ys) ≡ drop n xs ++ ys
  drop-append_left zero xs ys h = refl
  drop-append_left (suc n) [] ys h = absurd (omega arith)
  drop-append_left (suc n) (x ∷ xs) ys h = drop-append_left n xs ys (omega arith)

  pub take-replicate : (n k : ℕ) (a : A) → n ≤ k → take n (replicate k a) ≡ replicate n a
  take-replicate zero k a h = refl
  take-replicate (suc n) zero a h = absurd (omega arith)
  take-replicate (suc n) (suc k) a h = ap (◌∷◌ a) (take-replicate n k a (omega arith))

  pub drop-replicate : (n k : ℕ) (a : A) → drop n (replicate k a) ≡ replicate (k - n) a
  drop-replicate zero k a = ap (λ j. replicate j a) (omega arith)
  drop-replicate (suc n) zero a = ap (λ j. replicate j a) {x = 0} {y = 0 - suc n} (omega arith)
  drop-replicate (suc n) (suc k) a = drop-replicate n k a ∙ ap (λ j. replicate j a) (omega arith)

module _ {ℓ} {A : Type ℓ} where
  pub length-write_at :
      (xs : List A) (i : ℕ) (bs : List A)
      → i + length bs ≤ length xs
      → length (write_at xs i bs) ≡ length xs
  length-write_at xs zero bs h =
      omega (arith, length-append bs (drop (length bs) xs), length-drop (length bs) xs)
  length-write_at [] (suc i) bs h = refl
  length-write_at (x ∷ xs) (suc i) bs h = ap suc (length-write_at xs i bs (omega arith))

  pub take-write_at : (xs bs : List A) (n : ℕ) → length bs ≡ n → take n (write_at xs 0 bs) ≡ bs
  take-write_at xs bs n e =
      take-append_left n bs (drop (length bs) xs) (omega arith) ∙ take-all n bs (omega arith)

  -- A write behind a prefix leaves the prefix alone.
  pub write_at-append :
      (bs ys cs : List A) (j : ℕ)
      → length bs ≡ j
      → write_at (bs ++ ys) j cs ≡ bs ++ (cs ++ drop (length cs) ys)
  write_at-append [] ys cs zero e = refl
  write_at-append [] ys cs (suc j) e = absurd (omega arith)
  write_at-append (b ∷ bs) ys cs zero e = absurd (omega arith)
  write_at-append (b ∷ bs) ys cs (suc j) e = ap (◌∷◌ b) (write_at-append bs ys cs j (omega arith))

  write_at-write_at_zero :
      (xs bs cs : List A) (j : ℕ)
      → length bs ≡ j
      → write_at (write_at xs 0 bs) j cs ≡ write_at xs 0 (bs ++ cs)
  write_at-write_at_zero xs bs cs j e =
      write_at-append bs (drop (length bs) xs) cs j e
      ∙ ap (λ t. bs ++ (cs ++ t))
          (drop-drop (length bs) (length cs) (length (bs ++ cs)) xs (sym (length-append bs cs)))
      ∙ sym (append_assoc bs cs (drop (length (bs ++ cs)) xs))

  -- Two adjacent writes are one.
  pub write_at-write_at :
      (xs : List A) (i : ℕ) (bs cs : List A) (j : ℕ)
      → i + length bs ≡ j
      → write_at (write_at xs i bs) j cs ≡ write_at xs i (bs ++ cs)
  write_at-write_at xs zero bs cs j e = write_at-write_at_zero xs bs cs j (omega arith)
  write_at-write_at [] (suc i) bs cs zero e = absurd (omega arith)
  write_at-write_at [] (suc i) bs cs (suc j) e = refl
  write_at-write_at (x ∷ xs) (suc i) bs cs zero e = absurd (omega arith)
  write_at-write_at (x ∷ xs) (suc i) bs cs (suc j) e =
      ap (◌∷◌ x) (write_at-write_at xs i bs cs j (omega arith))
