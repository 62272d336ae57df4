-- ===== src/Base/Text.antt =====
-- Python strings as lists of code points: equality, code-point order, and the methods that the
-- program calls on them (`upper`, `lower`, `replace` of a fixed piece, `strip`), on ASCII text.
use mintzy_plugin_kelly_opt.Base.Tests.{leb, ◌==◌, if◌then◌else◌}
use Prim.Native.Nat.{ℕ, ◌+◌, ◌-◌}
use Prim.Native.String.{String}
use Prim.Native.Char.{code}
use mathlib.Core.Path.{◌≡◌, refl}
use mathlib.Core.Logic.{◌↔◌}
use mathlib.Core.Bool.{Bool, true, false, ◌&&◌, ◌||◌}
use mathlib.Core.List.{List, [], ◌∷◌, map, reverse}
use native.Mathlib.Omega.{arith}

abbrev pub Text : Type 0
Text = List ℕ

-- The code points of a literal.
abbrev pub codes : String → Text
codes String.[] = []
codes (String.◌∷◌ c s) = code c ∷ codes s

unfoldable pub text_eq : Text → Text → Bool
text_eq [] [] = true
text_eq [] (b ∷ bs) = false
text_eq (a ∷ as') [] = false
text_eq (a ∷ as') (b ∷ bs) = (a == b) && text_eq as' bs

pub text_eq_iff : (a b : Text) → (text_eq a b ≡ true) ↔ (a ≡ b)
unfolding text_eq
text_eq_iff [] [] = ground arith
text_eq_iff [] (b ∷ bs) = ground arith
text_eq_iff (a ∷ as') [] = ground arith
text_eq_iff (a ∷ as') (b ∷ bs) = ground (arith, text_eq_iff as' bs)

pub text_eq_refl : (a : Text) → text_eq a a ≡ true
text_eq_refl a = (text_eq_iff a a).1 refl

-- `s.upper()` and `s.lower()` on a code point.
unfoldable pub upper_code : ℕ → ℕ
upper_code c = if leb 97 c && leb c 122 then c - 32 else c

unfoldable pub lower_code : ℕ → ℕ
lower_code c = if leb 65 c && leb c 90 then c + 32 else c

unfoldable pub upper : Text → Text
unfolding upper_code
upper = map upper_code

unfoldable pub lower : Text → Text
unfolding lower_code
lower = map lower_code

-- `str.isspace` on ASCII: tab, newline, vertical tab, form feed, return, 28 to 31, and space.
unfoldable pub is_space : ℕ → Bool
is_space c = (c == 32) || (leb 9 c && leb c 13) || (leb 28 c && leb c 31)

-- The text without its leading white space.
unfoldable pub strip_left : Text → Text
unfolding is_space
strip_left [] = []
strip_left (c ∷ s) = let rest = strip_left s in if is_space c then rest else c ∷ s

-- `s.strip()`
unfoldable pub strip : Text → Text
unfolding strip_left
strip s = reverse (strip_left (reverse (strip_left s)))

-- `s.replace("-EQ", "")`: each occurrence from the left goes, and the search goes on behind it.
unfoldable pub drop_eq_suffix : Text → Text
drop_eq_suffix (a ∷ b ∷ c ∷ s) =
    let rest = drop_eq_suffix s in
    let kept = drop_eq_suffix (b ∷ c ∷ s) in
    if (a == 45) && ((b == 69) && (c == 81)) then rest else a ∷ kept
drop_eq_suffix s = s
