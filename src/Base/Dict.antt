-- ===== src/Base/Dict.antt =====
-- Python dictionaries keyed by text, in insertion order.
use mathlib.Core.Path.{◌≡◌, refl}
use mathlib.Core.Bool.{Bool}
use mathlib.Core.Option.{Option, none, some}
use mathlib.Core.List.{List, [], ◌∷◌}
use native.Mathlib.Omega.{arith}
use mintzy_plugin_kelly_opt.Base.Tests.{if◌then◌else◌, is_some}
use mintzy_plugin_kelly_opt.Base.Text.{Text, text_eq, text_eq_iff}

abbrev pub Dict {ℓ} : Type ℓ → Type ℓ
Dict V = List (Text × V)

module _ {ℓ} {V : Type ℓ} where
  -- `d.get(k)`
  unfoldable pub lookup : Text → Dict V → Option V
  lookup k [] = none
  lookup k ((j, v) ∷ d) = if text_eq j k then some v else lookup k d

  -- `d[k] = v`: in place where the key is there, else at the end.
  unfoldable pub insert : Text → V → Dict V → Dict V
  insert k v [] = (k, v) ∷ []
  insert k v ((j, w) ∷ d) = if text_eq j k then (j, v) ∷ d else (j, w) ∷ insert k v d

  -- `d.pop(k, None)`
  unfoldable pub pop : Text → Dict V → Dict V
  pop k [] = []
  pop k ((j, v) ∷ d) = let rest = pop k d in if text_eq j k then rest else (j, v) ∷ rest

  -- `d.keys()`
  unfoldable pub keys : Dict V → List Text
  keys [] = []
  keys ((j, v) ∷ d) = j ∷ keys d

  -- `d.values()`
  unfoldable pub values : Dict V → List V
  values [] = []
  values ((j, v) ∷ d) = v ∷ values d

  -- `k in d`
  abbrev pub contains : Text → Dict V → Bool
  contains k d = is_some (lookup k d)

  pub lookup-insert :
      (k j : Text) (v : V) (d : Dict V)
      → lookup j (insert k v d) ≡ (if text_eq k j then some v else lookup j d)
  unfolding lookup insert
  lookup-insert k j v [] = refl
  lookup-insert k j v ((i, w) ∷ d) =
      ground (arith, text_eq_iff k j, text_eq_iff i k, text_eq_iff i j, lookup-insert k j v d)

  pub lookup-pop :
      (k j : Text) (d : Dict V) → lookup j (pop k d) ≡ (if text_eq k j then none else lookup j d)
  unfolding lookup pop
  lookup-pop k j [] = ground arith
  lookup-pop k j ((i, w) ∷ d) =
      ground (arith, text_eq_iff k j, text_eq_iff i k, text_eq_iff i j, lookup-pop k j d)

  -- No key is listed twice.
  abbrev pub HasUniqueKeys : Dict V → Type ℓ
  HasUniqueKeys [] = Unit
  HasUniqueKeys ((j, v) ∷ d) = (lookup j d ≡ none) × HasUniqueKeys d

  pub insert-HasUniqueKeys :
      (k : Text) (v : V) (d : Dict V) → HasUniqueKeys d → HasUniqueKeys (insert k v d)
  unfolding insert lookup
  insert-HasUniqueKeys k v [] h = (refl, tt)
  insert-HasUniqueKeys k v ((i, w) ∷ d) h = ground (
    arith,
    text_eq_iff i k,
    text_eq_iff k i,
    lookup-insert k i v d,
    insert-HasUniqueKeys k v d h.1,
  )

  pub pop-HasUniqueKeys : (k : Text) (d : Dict V) → HasUniqueKeys d → HasUniqueKeys (pop k d)
  unfolding pop
  pop-HasUniqueKeys k [] h = h
  pop-HasUniqueKeys k ((i, w) ∷ d) h = ground (arith, lookup-pop k i d, pop-HasUniqueKeys k d h.1)

pub ruleset dict_laws = (lookup-insert, lookup-pop)
