-- ===== src/Pyramid/Document.antt =====
-- auto_trader_exposure_expansion/pyramid_config.py: the saved trading configuration, its symbol
-- lists, and the ranks and templates that are read from them.
use mintzy_plugin_kelly_opt.Base.{
  ℕ, suc, ◌+◌, ◌||◌, Option, none, some, List, [], ◌∷◌, is_empty, get_or, Call, returned, raised,
  if◌then◌else◌,
}
use mintzy_plugin_kelly_opt.Base.Int.{ℤ, pos}
use mintzy_plugin_kelly_opt.Base.Text.{Text, codes}
use mintzy_plugin_kelly_opt.Base.Dict.{Dict, lookup, insert, contains}
use mintzy_plugin_kelly_opt.Symbols.{normalize_symbol}
use mintzy_plugin_kelly_opt.Number.{Number}
use mintzy_plugin_kelly_opt.Decimals.{Decimals, Field, whole, get, is_null, int_of, null}

-- An entry of a symbol list: its symbol, which is a text, or missing or None, and its other keys.
pub record Entry (F : Type 0) : Type 0 where
  pub symbol : Option Text
  pub fields : Dict (Field F)

-- An element of a symbol list.
pub data Item (F : Type 0) : Type 0 where
  dict : Entry F → Item F
  not_dict : Item F

-- The `alphas` of a configuration: missing or of another type, a dictionary, or a list, each with
-- the symbol list of a dictionary, where it has one.
pub data Alphas (F : Type 0) : Type 0 where
  no_alphas : Alphas F
  one_alpha : Option (List (Item F)) → Alphas F
  alpha_list : List (Option (List (Item F))) → Alphas F

-- The keys of a configuration that the code reads; `symbols` is there where it is a list.
pub record Root (F : Type 0) : Type 0 where
  pub symbols : Option (List (Item F))
  pub alphas : Alphas F
  pub leverage_multiplier : Field F
  pub leverage : Field F
  pub pyramid_leverage_multiplier : Field F

-- The value under a document's key `configuration`: a dictionary, a text, or something else.
pub data Configuration (F : Type 0) : Type 0 where
  object : Root F → Configuration F
  json : Text → Configuration F
  neither : Configuration F

-- A document of the collection: its `_id`, the value under `configuration` where the key is there,
-- and its own keys.
pub record ConfigDoc (F : Type 0) : Type 0 where
  pub id : Text
  pub configuration : Option (Configuration F)
  pub own : Root F

-- A dotted path to a symbol list.
pub data SetPath : Type 0 where
  master : SetPath
  alpha : SetPath
  alpha_at : ℕ → SetPath

abbrev pub empty_root : {F : Type 0} → Root F
empty_root = record {
  symbols = none;
  alphas = no_alphas;
  leverage_multiplier = null;
  leverage = null;
  pyramid_leverage_multiplier = null;
}

-- `{"symbol": None}` and a missing symbol have the empty key.
unfoldable pub key_of : {F : Type 0} → Entry F → Text
key_of e = normalize_symbol (get_or e.symbol [])

-- `d.update(e)`
unfoldable pub updated_with : {V : Type 0} → Dict V → Dict V → Dict V
updated_with d [] = d
updated_with d ((k, v) ∷ e) = updated_with (insert k v d) e

unfoldable pub update_entry : {F : Type 0} → Entry F → Entry F → Entry F
update_entry e new = record {
  symbol = elim new.symbol [ none ↦ e.symbol | some s ↦ some s ];
  fields = updated_with e.fields new.fields;
}

module _ {F : Type 0} where
  -- What `json.loads` gives: an error, a dictionary, or something else.
  module _ (json_loads : Text → Call (Option (Root F))) where
    unfoldable pub normalize_configuration_root : ConfigDoc F → Root F
    normalize_configuration_root config_doc = elim config_doc.configuration [
      | none ↦ config_doc.own
      | some (object root) ↦ root
      | some neither ↦ empty_root
      | some (json raw) ↦ elim (json_loads raw) [
        | raised ↦ empty_root
        | returned none ↦ empty_root
        | returned (some root) ↦ root
      ]
    ]

  -- The paths of the alphas in a list, from the index on.
  unfoldable pub alpha_paths : ℕ → List (Option (List (Item F))) → List SetPath
  alpha_paths idx [] = []
  alpha_paths idx (none ∷ alphas) = alpha_paths (suc idx) alphas
  alpha_paths idx (some l ∷ alphas) = alpha_at idx ∷ alpha_paths (suc idx) alphas

  unfoldable pub configuration_symbol_set_paths : Root F → List SetPath
  unfolding alpha_paths
  configuration_symbol_set_paths root =
      let rest : List SetPath = elim root.alphas [
        | no_alphas ↦ []
        | one_alpha none ↦ []
        | one_alpha (some l) ↦ alpha ∷ []
        | alpha_list alphas ↦ alpha_paths 0 alphas
      ] in
      elim root.symbols [ none ↦ rest | some l ↦ master ∷ rest ]

  -- The first alpha of a list that has symbols, from the index on.
  unfoldable pub first_alpha : ℕ → List (Option (List (Item F))) → Option (List (Item F) × SetPath)
  first_alpha idx [] = none
  first_alpha idx (none ∷ alphas) = first_alpha (suc idx) alphas
  first_alpha idx (some l ∷ alphas) = some (l, alpha_at idx)

  unfoldable pub get_configuration_symbols_ref : Root F → Option (List (Item F) × SetPath)
  unfolding first_alpha
  get_configuration_symbols_ref root =
      let own : Option (List (Item F) × SetPath) = elim root.symbols [
        | none ↦ none
        | some l ↦ some (l, master)
      ] in
      elim root.alphas [
        | no_alphas ↦ own
        | one_alpha none ↦ own
        | one_alpha (some l) ↦ some (l, alpha)
        | alpha_list alphas ↦ elim (first_alpha 0 alphas) [ none ↦ own | some found ↦ some found ]
      ]

  unfoldable pub alpha_lists : List (Option (List (Item F))) → List (List (Item F))
  alpha_lists [] = []
  alpha_lists (none ∷ alphas) = alpha_lists alphas
  alpha_lists (some l ∷ alphas) = l ∷ alpha_lists alphas

  unfoldable pub iter_configuration_symbol_lists : Root F → List (List (Item F))
  unfolding alpha_lists
  iter_configuration_symbol_lists root =
      let rest : List (List (Item F)) = elim root.alphas [
        | no_alphas ↦ []
        | one_alpha none ↦ []
        | one_alpha (some l) ↦ l ∷ []
        | alpha_list alphas ↦ alpha_lists alphas
      ] in
      elim root.symbols [ none ↦ rest | some l ↦ l ∷ rest ]

  -- The templates after the entries of one list.
  unfoldable pub add_templates : List (Item F) → Dict (Entry F) → Dict (Entry F)
  unfolding key_of update_entry
  add_templates [] templates = templates
  add_templates (not_dict ∷ entries) templates = add_templates entries templates
  add_templates (dict e ∷ entries) templates =
      let sym_key = key_of e in
      let merged : Entry F = elim (lookup sym_key templates) [
        | none ↦ e
        | some t ↦ update_entry t e
      ] in
      add_templates entries
        (if is_empty sym_key then templates else insert sym_key merged templates)

  unfoldable pub add_all_templates : List (List (Item F)) → Dict (Entry F) → Dict (Entry F)
  unfolding add_templates
  add_all_templates [] templates = templates
  add_all_templates (l ∷ ls) templates = add_all_templates ls (add_templates l templates)

  unfoldable pub build_configuration_entry_templates : Root F → Dict (Entry F)
  build_configuration_entry_templates root =
      add_all_templates (iter_configuration_symbol_lists root) []

module _ (N : Number) (D : Decimals N) where
  open N use {Float}

  -- The rank of the entry at an index: `none` where it is neither missing nor a number.
  unfoldable pub entry_rank : ℕ → Entry Float → Option ℤ
  entry_rank idx e =
      let given : Field Float = get (codes "rank") e.fields in
      let rank : Field Float = if is_null given then whole (pos (idx + 1)) else given in
      elim (int_of N D rank) [ raised ↦ none | returned r ↦ some r ]

  -- The two loops of the rank map, from the index on. That of the alphas keeps what the master
  -- list has set.
  unfoldable pub master_ranks : ℕ → List (Item Float) → Dict ℤ → Dict ℤ
  unfolding entry_rank
  master_ranks idx [] rank_map = rank_map
  master_ranks idx (not_dict ∷ entries) rank_map = master_ranks (suc idx) entries rank_map
  master_ranks idx (dict e ∷ entries) rank_map =
      let after : Dict ℤ = elim (entry_rank idx e) [
        | none ↦ rank_map
        | some r ↦ insert (key_of e) r rank_map
      ] in
      master_ranks (suc idx) entries (if is_empty (key_of e) then rank_map else after)

  unfoldable pub alpha_ranks : ℕ → List (Item Float) → Dict ℤ → Dict ℤ
  unfolding entry_rank
  alpha_ranks idx [] rank_map = rank_map
  alpha_ranks idx (not_dict ∷ entries) rank_map = alpha_ranks (suc idx) entries rank_map
  alpha_ranks idx (dict e ∷ entries) rank_map =
      let after : Dict ℤ = elim (entry_rank idx e) [
        | none ↦ rank_map
        | some r ↦ insert (key_of e) r rank_map
      ] in
      alpha_ranks (suc idx) entries
        (if is_empty (key_of e) || contains (key_of e) rank_map then rank_map else after)

  unfoldable pub build_configuration_rank_map : Root Float → Dict ℤ
  build_configuration_rank_map root =
      let from_master : Dict ℤ = elim root.symbols [ none ↦ [] | some l ↦ master_ranks 0 l [] ] in
      elim root.alphas [
        | no_alphas ↦ from_master
        | one_alpha none ↦ from_master
        | one_alpha (some l) ↦ alpha_ranks 0 l from_master
        | alpha_list alphas ↦ from_master
      ]
