-- ===== src/Pyramid/Merge/Preserves.antt =====
-- What the merge keeps, changes and removes, and which lists reach the database.
use mintzy_plugin_kelly_opt.Base.{
  Bool, true, false, Bool-cases, subst, sym as p_sym, Option, none, some, List, [], ◌∷◌, map,
  collect, keep, is_empty, if◌then◌else◌, ◌≡◌, refl, arith, inl, inr, Option-cases,
}
use mintzy_plugin_kelly_opt.Base.Text.{Text, text_eq, text_eq_iff}
use mintzy_plugin_kelly_opt.Base.Dict.{Dict, lookup, insert, lookup-insert, HasUniqueKeys}
use mintzy_plugin_kelly_opt.Base.SymbolSet.{of_list, member, member-of_list}
use mintzy_plugin_kelly_opt.Symbols.{normalize_symbol}
use mintzy_plugin_kelly_opt.Decimals.{Field}
use mintzy_plugin_kelly_opt.Pyramid.Document.{
  SetPath, alpha_at, updated_with, Entry, Item, dict, not_dict, key_of, update_entry,
}
use mintzy_plugin_kelly_opt.Pyramid.Merge.{merge_item, merge_pyramid_symbol_list}

module _ {F : Type 0} where
  abbrev pub entries_of : Text → List (Entry F) → List (Entry F)
  entries_of s = keep (λ e. text_eq (key_of e) s)

  abbrev pub entry_in : Item F → Option (Entry F)
  entry_in not_dict = none
  entry_in (dict e) = some e

  -- The updates name the symbols under which they stand.
  abbrev pub AreKeyed : Dict (Entry F) → Type 0
  AreKeyed updated = (k : Text) (u : Entry F) → lookup k updated ≡ some u → key_of u ≡ k

  -- What the merge makes of an entry of the symbol `s`.
  abbrev updated_entry : Dict (Entry F) → Text → Entry F → Entry F
  updated_entry updated s e = elim (lookup s updated) [ none ↦ e | some u ↦ update_entry e u ]

  -- An entry after the update of its symbol, where there is one: every key that the update has has
  -- the update's value, and every other key has the old value.
  abbrev pub IsUpdated : Option (Entry F) → Entry F → Entry F → Type 0
  IsUpdated none e m = m ≡ e
  IsUpdated (some u) e m =
      (m.symbol ≡ elim u.symbol [ none ↦ e.symbol | some s ↦ some s ])
      × ((k : Text)
          → lookup k m.fields
            ≡ elim (lookup k u.fields) [ none ↦ lookup k e.fields | some v ↦ some v ])

  -- The same with the entries of two lists, in their order.
  abbrev pub AllUpdated : Option (Entry F) → List (Entry F) → List (Entry F) → Type 0
  AllUpdated u [] [] = Unit
  AllUpdated u (e ∷ es) (m ∷ ms) = IsUpdated u e m × AllUpdated u es ms
  AllUpdated u es ms = true ≡ false

  key_of-update : (e u : Entry F) → key_of u ≡ key_of e → key_of (update_entry e u) ≡ key_of e
  unfolding key_of update_entry
  key_of-update e u h = elim (Option-cases u.symbol) [
    | inl q ↦ ground arith
    | inr (s, q) ↦ ground arith
  ]

  -- Of each symbol, the merged list holds the entries that the old list holds, in their order: none
  -- of them if the symbol is removed, else each with its update.
  merge_items_by_symbol :
      (s : Text) (updated : Dict (Entry F)) (removed : List Text) (l : List (Item F))
      → is_empty s ≡ false
      → AreKeyed updated
      → entries_of s (collect (merge_item updated removed) l) ≡ (
          if member s removed
          then []
          else map (updated_entry updated s) (entries_of s (collect entry_in l)))
  unfolding merge_item
  merge_items_by_symbol s updated removed [] h k = ground arith
  merge_items_by_symbol s updated removed (not_dict ∷ l) h k =
      merge_items_by_symbol s updated removed l h k
  merge_items_by_symbol s updated removed (dict e ∷ l) h k =
      elim (Option-cases (lookup (key_of e) updated)) [
        | inl q ↦
            ground (arith, text_eq_iff (key_of e) s, merge_items_by_symbol s updated removed l h k)
        | inr (u, q) ↦ ground (
          arith,
          text_eq_iff (key_of e) s,
          text_eq_iff (key_of (update_entry e u)) s,
          key_of-update e u (k (key_of e) u q),
          merge_items_by_symbol s updated removed l h k,
        )
      ]

  lookup-updated_with :
      (k : Text) (d e : Dict (Field F))
      → HasUniqueKeys e
      → lookup k (updated_with d e) ≡ elim (lookup k e) [ none ↦ lookup k d | some v ↦ some v ]
  unfolding updated_with lookup
  lookup-updated_with k d [] h = refl
  lookup-updated_with k d ((j, v) ∷ e) h =
      ground
        (arith, lookup-updated_with k (insert j v d) e h.1, lookup-insert j k v d, text_eq_iff j k)

  map-AllUpdated :
      (u : Option (Entry F)) (f : Entry F → Entry F)
      → ((e : Entry F) → IsUpdated u e (f e))
      → (es : List (Entry F)) → AllUpdated u es (map f es)
  map-AllUpdated u f h [] = tt
  map-AllUpdated u f h (e ∷ es) = (h e, map-AllUpdated u f h es)

  updated_entry-IsUpdated :
      (updated : Dict (Entry F)) (s : Text)
      → ((u : Entry F) → lookup s updated ≡ some u → HasUniqueKeys u.fields)
      → (e : Entry F) → IsUpdated (lookup s updated) e (updated_entry updated s e)
  unfolding update_entry
  updated_entry-IsUpdated updated s h e = elim (Option-cases (lookup s updated)) [
    | inl q ↦ rw (q, IsUpdated, updated_entry) refl
    | inr (u, q) ↦
        rw (q, IsUpdated, updated_entry)
          (refl, λ k. lookup-updated_with k e.fields u.fields (h u q))
  ]

  -- For a symbol that is not empty, if every update names the symbol under which it stands and the
  -- symbol's update has no key twice, the merged list has no entry of the symbol where it is
  -- removed; otherwise it has the entries of the old list in their order, unchanged where there is
  -- no update, and else with the update's value for every key that the update has, its name where
  -- it has one, and the old value for every other key.
  pub merge_by_symbol :
      (s : Text) (updated : Dict (Entry F)) (removed : List Text) (l : List (Item F))
      → is_empty s ≡ false
      → AreKeyed updated
      → ((u : Entry F) → lookup s updated ≡ some u → HasUniqueKeys u.fields)
      → let merged = entries_of s (merge_pyramid_symbol_list l updated removed) in
        let old = entries_of s (collect entry_in l) in
        if member s (map normalize_symbol removed)
        then merged ≡ []
        else AllUpdated (lookup s updated) old merged
  unfolding merge_pyramid_symbol_list
  merge_by_symbol s updated removed l h k uniq =
      let gone = of_list (map normalize_symbol removed) in
      let old = entries_of s (collect entry_in l) in
      let same = merge_items_by_symbol s updated gone l h k in
      let removal = member-of_list s (map normalize_symbol removed) in
      elim (Bool-cases (member s (map normalize_symbol removed))) [
        | inl q ↦ rw q (ground (arith, same, removal))
        | inr q ↦ rw q (
            subst (AllUpdated (lookup s updated) old) (p_sym (ground (arith, same, removal))) (
              map-AllUpdated (lookup s updated) (updated_entry updated s)
                (updated_entry-IsUpdated updated s uniq) old))
      ]

-- A path of an alpha in a list.
abbrev pub is_indexed : SetPath → Bool
is_indexed (alpha_at idx) = true
is_indexed path = false

abbrev pub path_of : {A : Type 0} → SetPath × A → SetPath
path_of (path, l) = path
