-- ===== src/Decimals.antt =====
-- What the capital pyramid asks of Python's numbers beyond Number: literals, rounding, and the
-- conversions `int(x)` and `float(x)` of the values that a JSON document holds.
use mintzy_plugin_kelly_opt.Base.{
  ℕ, ◌∷◌, [], Bool, true, false, none, some, Call, returned, raised, if◌then◌else◌,
}
use mintzy_plugin_kelly_opt.Base.Int.{ℤ, pos, is_zero}
use mintzy_plugin_kelly_opt.Base.Text.{Text}
use mintzy_plugin_kelly_opt.Base.Dict.{Dict, lookup}
use mintzy_plugin_kelly_opt.Number.{Number}

pub record Decimals (N : Number) : Type 0 where
  -- The literal n / 10 ^ k.
  pub decimal : ℕ → ℕ → N.Float
  -- `round(x, 2)`, `x < y` and `x == 0`.
  pub round2 : N.Float → N.Float
  pub less : N.Float → N.Float → Bool
  pub eq_zero : N.Float → Bool
  -- `int(x)` of a float, `int(s)` and `float(s)` of a text.
  pub truncate : N.Float → Call ℤ
  pub parse_int : Text → Call ℤ
  pub parse_float : Text → Call N.Float

-- A value in a document: None, a Boolean, an int, a float, a text, or a list or dictionary, of
-- which the code only asks whether it is empty.
pub data Field (F : Type 0) : Type 0 where
  null : Field F
  flag : Bool → Field F
  whole : ℤ → Field F
  real : F → Field F
  text : Text → Field F
  container : Bool → Field F

-- `d.get(k)`
abbrev pub get : {F : Type 0} → Text → Dict (Field F) → Field F
get k d = elim (lookup k d) [ none ↦ null | some v ↦ v ]

abbrev pub is_null : {F : Type 0} → Field F → Bool
is_null null = true
is_null v = false

module _ (N : Number) (D : Decimals N) where
  open N use {Float, zero, one, of_int}
  open D use {eq_zero, truncate, parse_int, parse_float}

  -- `int(x)`
  unfoldable pub int_of : Field Float → Call ℤ
  int_of null = raised
  int_of (flag true) = returned (pos 1)
  int_of (flag false) = returned (pos 0)
  int_of (whole n) = returned n
  int_of (real x) = truncate x
  int_of (text s) = parse_int s
  int_of (container e) = raised

  -- `float(x)`
  unfoldable pub float_of : Field Float → Call Float
  float_of null = raised
  float_of (flag true) = returned one
  float_of (flag false) = returned zero
  float_of (whole n) = returned (of_int n)
  float_of (real x) = returned x
  float_of (text s) = parse_float s
  float_of (container e) = raised

  -- `bool(x)`; the flag of a container tells whether it is empty.
  unfoldable pub is_truthy : Field Float → Bool
  is_truthy null = false
  is_truthy (flag b) = b
  is_truthy (whole n) = if is_zero n then false else true
  is_truthy (real x) = if eq_zero x then false else true
  is_truthy (text []) = false
  is_truthy (text (c ∷ s)) = true
  is_truthy (container e) = if e then false else true

  -- `float(x or d)`
  unfoldable pub float_or : Field Float → Float → Call Float
  unfolding is_truthy float_of
  float_or v d = if is_truthy v then float_of v else returned d
