-- ===== src/Prelude/Lists.antt =====
-- Lists measured by native numbers, and predicates on their elements by recursion.
use Prim.Native.Nat.{ℕ, zero, suc, ◌+◌, ◌≤◌}
use mathlib.Core.Bool.{Bool, true, false, not, ◌||◌}
use mathlib.Core.Option.{Option, none, some}
use patrizio_bot.Prelude.Tests.{◌==◌, if◌then◌else◌}
use mathlib.Core.Path.{◌≡◌, refl}
use mathlib.Core.List.{List, [], ◌∷◌, ◌++◌}
use native.Mathlib.Omega.{arith}

module _ {ℓ} {A : Type ℓ} where
  abbrev pub length : List A → ℕ
  length [] = 0
  length (x ∷ xs) = suc (length xs)

  pub length-append : (xs ys : List A) → length (xs ++ ys) ≡ length xs + length ys
  length-append [] ys = omega arith
  length-append (x ∷ xs) ys = omega (arith, length-append xs ys)

module _ {ℓ κ} {A : Type ℓ} where
  abbrev pub All : (A → Type κ) → List A → Type κ
  All P [] = Unit
  All P (x ∷ xs) = P x × All P xs

  pub All-append : (P : A → Type κ) (xs ys : List A) → All P xs → All P ys → All P (xs ++ ys)
  All-append P [] ys h k = k
  All-append P (x ∷ xs) ys h k = (h.0, All-append P xs ys h.1 k)

-- Tables: rows kept, found and counted by a Boolean test.
module _ {ℓ} {A : Type ℓ} where
  abbrev pub keep : (A → Bool) → List A → List A
  keep p [] = []
  keep p (x ∷ xs) = let rest = keep p xs in if p x then x ∷ rest else rest

  abbrev pub any : (A → Bool) → List A → Bool
  any p [] = false
  any p (x ∷ xs) = p x || any p xs

  abbrev pub find : (A → Bool) → List A → Option A
  find p [] = none
  find p (x ∷ xs) = let rest = find p xs in if p x then some x else rest

  abbrev pub count_if : (A → Bool) → List A → ℕ
  count_if p [] = 0
  count_if p (x ∷ xs) = (if p x then 1 else 0) + count_if p xs

  pub any-imp :
      (p q : A → Bool) (xs : List A)
      → ((x : A) → p x ≡ true → q x ≡ true)
      → any q xs ≡ false
      → any p xs ≡ false
  any-imp p q [] h e = refl
  any-imp p q (x ∷ xs) h e = ground (arith, h x, any-imp p q xs h)

  pub any_mono :
      (p q : A → Bool) (xs : List A)
      → ((x : A) → p x ≡ true → q x ≡ true)
      → any p xs ≡ true
      → any q xs ≡ true
  any_mono p q [] h e = e
  any_mono p q (x ∷ xs) h e = ground (arith, h x, any_mono p q xs h)

  pub count_if-none : (p : A → Bool) (xs : List A) → any p xs ≡ false → count_if p xs ≡ 0
  count_if-none p [] e = refl
  count_if-none p (x ∷ xs) e = ground (arith, count_if-none p xs)

  pub count_if-congr :
      (p q : A → Bool) (xs : List A) → All (λ x. p x ≡ q x) xs → count_if p xs ≡ count_if q xs
  count_if-congr p q [] h = refl
  count_if-congr p q (x ∷ xs) h = ground (arith, count_if-congr p q xs h.1)

  pub count_if-keep : (p q : A → Bool) (xs : List A) → count_if p (keep q xs) ≤ count_if p xs
  count_if-keep p q [] = omega arith
  count_if-keep p q (x ∷ xs) = ground (arith, count_if-keep p q xs)

  pub any-keep :
      (p q : A → Bool) (xs : List A)
      → ((x : A) → p x ≡ true → q x ≡ true)
      → any p (keep q xs) ≡ any p xs
  any-keep p q [] h = refl
  any-keep p q (x ∷ xs) h = ground (arith, h x, any-keep p q xs h)

  pub count_if-keep_imp :
      (p p' q : A → Bool) (xs : List A)
      → ((x : A) → q x ≡ true → p x ≡ true → p' x ≡ true)
      → count_if p (keep q xs) ≤ count_if p' xs
  count_if-keep_imp p p' q [] h = omega arith
  count_if-keep_imp p p' q (x ∷ xs) h = ground (arith, h x, count_if-keep_imp p p' q xs h)

  -- The row that was found is one that a removal takes out.
  pub count_if-find :
      (p q : A → Bool) (xs : List A) (r : A)
      → find p xs ≡ some r
      → q r ≡ true
      → count_if q (keep (λ x. not (p x)) xs) + 1 ≤ count_if q xs
  count_if-find p q [] r h k = cc
  count_if-find p q (x ∷ xs) r h k =
      ground (arith, count_if-find p q xs r, count_if-keep q (λ y. not (p y)) xs)

  pub All-keep {κ₁ κ₂} :
      (P : A → Type κ₁) (R : A → Type κ₂) (q : A → Bool) (xs : List A)
      → ((x : A) → q x ≡ true → P x → R x)
      → All P xs
      → All R (keep q xs)
  All-keep P R q [] f h = tt
  All-keep P R q (x ∷ xs) f h = go (All-keep P R q xs f h.1) (q x) refl
    where
      go : All R (keep q xs) → (b : Bool) → q x ≡ b → All R (if b then x ∷ keep q xs else keep q xs)
      go ih true e = (f x e h.0, ih)
      go ih false e = ih

module _ {ℓ} {A : Type ℓ} where
  -- one element more or less in the middle
  pub count_if-middle :
      (p : A → Bool) (xs ys : List A) (x : A)
      → count_if p (xs ++ x ∷ ys) ≡ (if p x then 1 else 0) + count_if p (xs ++ ys)
  count_if-middle p [] ys x = refl
  count_if-middle p (y ∷ xs) ys x = omega (arith, count_if-middle p xs ys x)

  pub any-count_if : (p : A → Bool) (xs : List A) → any p xs ≡ not (count_if p xs == 0)
  any-count_if p [] = refl
  any-count_if p (x ∷ xs) = ground (arith, any-count_if p xs)

  pub any-congr : (p q : A → Bool) (xs : List A) → All (λ x. p x ≡ q x) xs → any p xs ≡ any q xs
  any-congr p q [] h = refl
  any-congr p q (x ∷ xs) h = ground (arith, any-congr p q xs h.1)

  pub keep-All : (q : A → Bool) (xs : List A) → All (λ x. q x ≡ true) xs → keep q xs ≡ xs
  keep-All q [] h = refl
  keep-All q (x ∷ xs) h = ground (arith, keep-All q xs h.1)

  pub All-count_if : (p : A → Bool) (xs : List A) → count_if p xs ≡ 0 → All (λ x. p x ≡ false) xs
  All-count_if p [] h = tt
  All-count_if p (x ∷ xs) h = (ground arith, All-count_if p xs (ground arith))

pub All-mono {ℓ κ₁ κ₂} :
    {A : Type ℓ} (P : A → Type κ₁) (Q : A → Type κ₂) (xs : List A)
    → ((x : A) → P x → Q x)
    → All P xs
    → All Q xs
All-mono P Q [] f h = tt
All-mono P Q (x ∷ xs) f h = (f x h.0, All-mono P Q xs f h.1)

pub All-middle {ℓ κ} :
    {A : Type ℓ} (P : A → Type κ) (xs ys : List A) (x : A) → All P (xs ++ x ∷ ys) → All P (xs ++ ys)
All-middle P [] ys x h = h.1
All-middle P (y ∷ xs) ys x h = (h.0, All-middle P xs ys x h.1)

pub All-both {ℓ κ₁ κ₂} :
    {A : Type ℓ} (P : A → Type κ₁) (Q : A → Type κ₂) (xs : List A)
    → All P xs
    → All Q xs
    → All (λ x. P x × Q x) xs
All-both P Q [] h k = tt
All-both P Q (x ∷ xs) h k = ((h.0, k.0), All-both P Q xs h.1 k.1)

module _ {ℓ} {A : Type ℓ} where
  abbrev pub take : ℕ → List A → List A
  take zero xs = []
  take (suc n) [] = []
  take (suc n) (x ∷ xs) = x ∷ take n xs
