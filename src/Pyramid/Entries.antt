-- ===== src/Pyramid/Entries.antt =====
-- The entries that the pyramid evaluates: `_get_pyramid_active_symbol_keys`,
-- `_resolve_symbol_capital` and `_build_pyramid_config_entries` of pyramid_config.py.
use mintzy_plugin_kelly_opt.Base.{
  not, Option, none, some, List, [], ◌∷◌, ◌++◌, map, keep, collect, is_empty, Call, returned,
  raised, if◌then◌else◌,
}
use mintzy_plugin_kelly_opt.Base.Int.{ℤ}
use mintzy_plugin_kelly_opt.Base.Text.{Text, codes}
use mintzy_plugin_kelly_opt.Base.Dict.{Dict, lookup, insert, keys}
use mintzy_plugin_kelly_opt.Base.SymbolSet.{of_list}
use mintzy_plugin_kelly_opt.Symbols.{normalize_symbol}
use mintzy_plugin_kelly_opt.Number.{Number}
use mintzy_plugin_kelly_opt.Decimals.{
  Decimals, Field, null, whole, real, get, is_null, float_of, float_or,
}
use mintzy_plugin_kelly_opt.Pyramid.Document.{
  Entry, Item, dict, not_dict, Root, key_of, build_configuration_entry_templates,
}
use mintzy_plugin_kelly_opt.Pyramid.Simulator.{Simulator, Alloc, sized, plain}

module _ {F S P : Type 0} where
  unfoldable pub get_pyramid_active_symbol_keys : Simulator F S P → List Text
  get_pyramid_active_symbol_keys t = of_list (
      keep (λ s. not (is_empty s))
        (map normalize_symbol
          (keys t.symbol_allocations ++ (keys t.initial_allocations ++ keys t.paper_positions))))

-- `entry_by_sym`, from the entries on.
unfoldable pub entries_by_symbol : {F : Type 0} → List (Item F) → Dict (Entry F) → Dict (Entry F)
unfolding key_of
entries_by_symbol [] found = found
entries_by_symbol (not_dict ∷ entries) found = entries_by_symbol entries found
entries_by_symbol (dict e ∷ entries) found =
    entries_by_symbol entries (if is_empty (key_of e) then found else insert (key_of e) e found)

module _ (N : Number) (D : Decimals N) where
  open N use {Float, zero, is_pos, le}

  -- A call's value, or 0 where it raises.
  abbrev pub or_zero : Call Float → Float
  or_zero raised = zero
  or_zero (returned x) = x

  -- The capital of an allocation: `none` where it is missing or None.
  unfoldable pub allocated : Option (Alloc Float) → Option Float
  allocated none = none
  allocated (some (sized capital stop_loss)) = some (or_zero (float_or N D capital zero))
  allocated (some (plain v)) = if is_null v then none else some (or_zero (float_of N D v))

  unfoldable pub initially_allocated : Option (Alloc Float) → Float
  initially_allocated none = zero
  initially_allocated (some (sized capital stop_loss)) = or_zero (float_or N D capital zero)
  initially_allocated (some (plain v)) = zero

  module _ {S P : Type 0} where
    unfoldable pub resolve_symbol_capital :
        Text → Option (Entry Float) → Simulator Float S P → Float
    unfolding allocated initially_allocated
    resolve_symbol_capital sym_key entry t =
        let given : Field Float = elim entry [
          | none ↦ null
          | some e ↦ get (codes "capital") e.fields
        ] in
        let cap = or_zero (float_or N D given zero) in
        if is_pos cap then cap else elim (allocated (lookup sym_key t.symbol_allocations)) [
          | some capital ↦ capital
          | none ↦ initially_allocated (lookup sym_key t.initial_allocations)
        ]

    -- The loop body: the key, its entry and its capital, unless it has none.
    unfoldable pub config_entry :
        Dict (Entry Float)
        → Dict (Entry Float)
        → Dict ℤ
        → Simulator Float S P
        → Text
        → Option (Text × (Entry Float × Float))
    config_entry templates entry_by_sym rank_map t sym_key =
        let found : Option (Entry Float) = elim (lookup sym_key templates) [
          | some e ↦ some e
          | none ↦ lookup sym_key entry_by_sym
        ] in
        let cap = resolve_symbol_capital sym_key found t in
        let old : Dict (Field Float) = elim found [ none ↦ [] | some e ↦ e.fields ] in
        let with_capital = insert (codes "capital") (real cap) old in
        let ranked : Dict (Field Float) = elim (lookup sym_key rank_map) [
          | none ↦ with_capital
          | some r ↦ insert (codes "rank") (whole r) with_capital
        ] in
        if le cap zero
        then none
        else some (
          sym_key,
          (
            record {
              symbol = some sym_key;
              fields = if is_null (get (codes "rank") with_capital) then ranked else with_capital;
            },
            cap,
          ),
        )

    unfoldable pub build_pyramid_config_entries :
        Root Float
        → List (Item Float)
        → Dict ℤ
        → Simulator Float S P
        → List (Text × (Entry Float × Float))
    unfolding config_entry
    build_pyramid_config_entries root symbols_list rank_map t =
        let entry_by_sym = entries_by_symbol symbols_list [] in
        let active = get_pyramid_active_symbol_keys t in
        let symbols = if is_empty active then of_list (keys entry_by_sym) else active in
        collect (config_entry (build_configuration_entry_templates root) entry_by_sym rank_map t)
          symbols
