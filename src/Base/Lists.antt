-- ===== src/Base/Lists.antt =====
-- Lists measured by native numbers, predicates on lists by recursion, and filters by a test.
use Prim.Native.Nat.{ℕ, suc, ◌+◌, ◌≤◌}
use mathlib.Core.Path.{◌≡◌, refl}
use mathlib.Core.Option.{Option, none, some}
use mathlib.Core.Bool.{Bool, true, false, ◌||◌}
use mathlib.Core.List.{List, [], ◌∷◌, ◌++◌}
use native.Mathlib.Omega.{arith}
use mintzy_plugin_kelly_opt.Base.Tests.{if◌then◌else◌}

module _ {ℓ} {A : Type ℓ} where
  abbrev pub length : List A → ℕ
  length [] = 0
  length (x ∷ xs) = suc (length xs)

  abbrev pub is_empty : List A → Bool
  is_empty [] = true
  is_empty (x ∷ xs) = false

  -- `[x for x in xs if p(x)]`
  abbrev pub keep : (A → Bool) → List A → List A
  keep p [] = []
  keep p (x ∷ xs) = let rest = keep p xs in if p x then x ∷ rest else rest

  -- `any(p(x) for x in xs)`
  abbrev pub any : (A → Bool) → List A → Bool
  any p [] = false
  any p (x ∷ xs) = p x || any p xs

  pub length-append : (xs ys : List A) → length (xs ++ ys) ≡ length xs + length ys
  length-append [] ys = omega arith
  length-append (x ∷ xs) ys = omega (arith, length-append xs ys)

  pub length-keep : (p : A → Bool) (xs : List A) → length (keep p xs) ≤ length xs
  length-keep p [] = omega arith
  length-keep p (x ∷ xs) = ground (arith, length-keep p xs)

module _ {ℓ κ} {A : Type ℓ} (P : A → Type κ) where
  -- Every element satisfies the predicate.
  abbrev pub All : List A → Type κ
  All [] = Unit
  All (x ∷ xs) = P x × All xs

  pub All-append : (xs ys : List A) → All xs → All ys → All (xs ++ ys)
  All-append [] ys h k = k
  All-append (x ∷ xs) ys h k = (h.0, All-append xs ys h.1 k)

  pub All-keep : (p : A → Bool) (xs : List A) → All xs → All (keep p xs)
  All-keep p [] h = h
  All-keep p (x ∷ xs) h = ground (arith, All-keep p xs h.1)

module _ {ℓ κ} {A : Type ℓ} (P : A → Type κ) where
  -- What every element has, given for each one.
  pub All-intro : ((x : A) → P x) → (xs : List A) → All P xs
  All-intro h [] = tt
  All-intro h (x ∷ xs) = (h x, All-intro h xs)

  -- A list whose kept elements satisfy `P` because they pass the test.
  pub All-keep_test :
      (p : A → Bool) → ((x : A) → p x ≡ true → P x) → (xs : List A) → All P (keep p xs)
  All-keep_test p h [] = tt
  All-keep_test p h (x ∷ xs) = ground (arith, h x, All-keep_test p h xs)

-- A value in front of a list, where there is one.
abbrev pub push {ℓ} : {B : Type ℓ} → Option B → List B → List B
push none ys = ys
push (some y) ys = y ∷ ys

-- `[f(x) for x in xs]`, without the elements for which the loop body takes `continue`.
abbrev pub collect {ℓ κ} : {A : Type ℓ} {B : Type κ} → (A → Option B) → List A → List B
collect f [] = []
collect f (x ∷ xs) = push (f x) (collect f xs)

pub All-push {ℓ κ} :
    {B : Type ℓ} (P : B → Type κ) (o : Option B) (ys : List B)
    → ((y : B) → o ≡ some y → P y)
    → All P ys
    → All P (push o ys)
All-push P none ys h k = k
All-push P (some y) ys h k = (h y refl, k)

module _ {ℓ κ υ} {A : Type ℓ} {B : Type κ} (P : B → Type υ) where
  pub All-collect :
      (f : A → Option B)
      → ((x : A) (y : B) → f x ≡ some y → P y)
      → (xs : List A) → All P (collect f xs)
  All-collect f h [] = tt
  All-collect f h (x ∷ xs) = All-push P (f x) (collect f xs) (h x) (All-collect f h xs)
