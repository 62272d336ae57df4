-- ===== src/Base/SymbolSet.antt =====
-- Python sets of symbols, kept as the list that `sorted` gives: ascending in code-point order and
-- without repetition.
use mathlib.Core.Path.{◌≡◌, refl}
use mathlib.Core.Bool.{Bool, true, false, ◌||◌}
use mathlib.Core.List.{List, [], ◌∷◌}
use native.Mathlib.Omega.{arith}
use mintzy_plugin_kelly_opt.Base.Tests.{if◌then◌else◌, ltb}
use mintzy_plugin_kelly_opt.Base.Text.{Text, text_eq, text_eq_iff}

-- Code-point order, as Python compares strings.
unfoldable pub text_lt : Text → Text → Bool
text_lt [] [] = false
text_lt [] (b ∷ bs) = true
text_lt (a ∷ as') [] = false
text_lt (a ∷ as') (b ∷ bs) =
    let rest = text_lt as' bs in if ltb a b then true else if ltb b a then false else rest

pub text_lt_trans : (a b c : Text) → text_lt a b ≡ true → text_lt b c ≡ true → text_lt a c ≡ true
unfolding text_lt
text_lt_trans [] [] c h k = ground arith
text_lt_trans [] (y ∷ b) [] h k = ground arith
text_lt_trans [] (y ∷ b) (z ∷ c) h k = refl
text_lt_trans (x ∷ a) [] c h k = ground arith
text_lt_trans (x ∷ a) (y ∷ b) [] h k = ground arith
text_lt_trans (x ∷ a) (y ∷ b) (z ∷ c) h k = ground (arith, text_lt_trans a b c)

-- Two different texts are in order one way or the other.
pub text_lt_total : (a b : Text) → text_eq a b ≡ false → text_lt a b ≡ false → text_lt b a ≡ true
unfolding text_lt text_eq
text_lt_total [] [] h k = ground arith
text_lt_total [] (y ∷ b) h k = ground arith
text_lt_total (x ∷ a) [] h k = refl
text_lt_total (x ∷ a) (y ∷ b) h k = ground (arith, text_lt_total a b)

pub text_lt_irrefl : (a : Text) → text_lt a a ≡ false
unfolding text_lt
text_lt_irrefl [] = refl
text_lt_irrefl (x ∷ a) = ground (arith, text_lt_irrefl a)

-- `s.add(x)`
unfoldable pub add : Text → List Text → List Text
add x [] = x ∷ []
add x (y ∷ s) =
    let rest = add x s in if text_eq x y then y ∷ s else if text_lt x y then x ∷ y ∷ s else y ∷ rest

-- `set(xs)`
unfoldable pub of_list : List Text → List Text
of_list [] = []
of_list (x ∷ xs) = add x (of_list xs)

-- `s | t`
unfoldable pub union : List Text → List Text → List Text
union [] t = t
union (x ∷ s) t = add x (union s t)

-- `x in s`
unfoldable pub member : Text → List Text → Bool
member x [] = false
member x (y ∷ s) = text_eq y x || member x s

pub member-add : (x y : Text) (s : List Text) → member y (add x s) ≡ (text_eq x y || member y s)
unfolding member add
member-add x y [] = refl
member-add x y (z ∷ s) =
    ground (arith, member-add x y s, text_eq_iff x z, text_eq_iff x y, text_eq_iff z y)

pub member-of_list : (y : Text) (xs : List Text) → member y (of_list xs) ≡ member y xs
unfolding member of_list
member-of_list y [] = refl
member-of_list y (x ∷ xs) = ground (arith, member-add x y (of_list xs), member-of_list y xs)

pub member-union : (y : Text) (s t : List Text) → member y (union s t) ≡ (member y s || member y t)
unfolding member union
member-union y [] t = refl
member-union y (x ∷ s) t = ground (arith, member-add x y (union s t), member-union y s t)

-- Every element of the list comes after `x`.
abbrev pub AllAfter : Text → List Text → Type 0
AllAfter x [] = Unit
AllAfter x (y ∷ s) = (text_lt x y ≡ true) × AllAfter x s

-- Strictly ascending, so without repetition.
abbrev pub IsSorted : List Text → Type 0
IsSorted [] = Unit
IsSorted (x ∷ s) = AllAfter x s × IsSorted s

AllAfter-trans : (x y : Text) (s : List Text) → text_lt x y ≡ true → AllAfter y s → AllAfter x s
AllAfter-trans x y [] h k = tt
AllAfter-trans x y (z ∷ s) h k = (text_lt_trans x y z h k.0, AllAfter-trans x y s h k.1)

add-AllAfter :
    (x y : Text) (s : List Text) → text_lt y x ≡ true → AllAfter y s → AllAfter y (add x s)
unfolding add
add-AllAfter x y [] h k = (h, tt)
add-AllAfter x y (z ∷ s) h k = ground (arith, add-AllAfter x y s h)

add-IsSorted : (x : Text) (s : List Text) → IsSorted s → IsSorted (add x s)
unfolding add
add-IsSorted x [] h = (tt, tt)
add-IsSorted x (y ∷ s) h =
    ground
      (arith, add-IsSorted x s h.1, add-AllAfter x y s, text_lt_total x y, AllAfter-trans x y s)

pub of_list-IsSorted : (xs : List Text) → IsSorted (of_list xs)
unfolding of_list
of_list-IsSorted [] = tt
of_list-IsSorted (x ∷ xs) = add-IsSorted x (of_list xs) (of_list-IsSorted xs)

pub union-IsSorted : (s t : List Text) → IsSorted t → IsSorted (union s t)
unfolding union
union-IsSorted [] t h = h
union-IsSorted (x ∷ s) t h = add-IsSorted x (union s t) (union-IsSorted s t h)

-- What comes after every element is none of them.
pub member-AllAfter : (x : Text) (s : List Text) → AllAfter x s → member x s ≡ false
unfolding member
member-AllAfter x [] h = refl
member-AllAfter x (y ∷ s) h =
    ground (arith, member-AllAfter x s h.1, text_eq_iff y x, text_lt_irrefl x)

pub ruleset set_laws = (member-add, member-of_list, member-union)
