-- ===== src/Pyramid/Merge.antt =====
-- The merge of the pyramid's results into the saved configuration, and its write to Mongo, of
-- auto_trader_exposure_expansion/pyramid_config.py. The database is outside: an interface.
pub mod Preserves
use mintzy_plugin_kelly_opt.Base.{
  ℕ, ◌==◌, Bool, true, false, ◌||◌, not, Option, none, some, List, [], ◌∷◌, map, collect, is_empty,
  get_or, Call, returned, raised, if◌then◌else◌,
}
use mintzy_plugin_kelly_opt.Base.Text.{Text, codes}
use mintzy_plugin_kelly_opt.Base.Dict.{Dict, lookup}
use mintzy_plugin_kelly_opt.Base.SymbolSet.{of_list, member}
use mintzy_plugin_kelly_opt.Symbols.{normalize_symbol}
use mintzy_plugin_kelly_opt.Decimals.{Field}
use mintzy_plugin_kelly_opt.Pyramid.Document.{
  Entry, Item, dict, not_dict, Alphas, no_alphas, one_alpha, alpha_list, Root, ConfigDoc, SetPath,
  master, alpha, alpha_at, key_of, update_entry, normalize_configuration_root,
  configuration_symbol_set_paths,
}

-- The queries that find a configuration.
pub data Query : Type 0 where
  by_id : Text → Query
  by_configuration_id : Text → Query

-- `{"$set": update_doc}`: the time, and a symbol list for each path.
pub record Update (F : Type 0) : Type 0 where
  pub pyramid_updated_at : ℕ
  pub lists : List (SetPath × List (Entry F))

-- A document of exited_symbols, as far as it is read; a missing status is the empty text.
pub record ExitDoc (F : Type 0) : Type 0 where
  pub status : Text
  pub exit_reason : Option Text
  pub realized_pnl : F

-- What the pyramid's report says of a symbol.
pub record PnlRow (F : Type 0) : Type 0 where
  pub symbol : Text
  pub rank : Field F
  pub is_exited : Bool
  pub exit_reason : Option Text
  pub capital_allocated : F
  pub realized_pnl : F
  pub unrealized_pnl : F
  pub total_pnl : F
  pub profit_threshold : Option F
  pub is_profitable : Bool

-- The document that `_persist_pyramid_pnls` writes, but for its time and the configuration id.
pub record Report (F : Type 0) : Type 0 where
  pub session_id : Text
  pub pyramid_applied : Bool
  pub reason : Text
  pub symbols : List (PnlRow F)

-- Mongo and its driver: the state of the database, `ObjectId` (the canonical text of a valid id),
-- and the calls of the collections. A call that raises may have changed the state; the caller of
-- the report's write swallows what it raises.
pub record Mongo (F : Type 0) : Type 1 where
  pub Store : Type 0
  pub object_id : Text → Call (Option Text)
  pub find_one : Text → Query → Store → Call (Option (ConfigDoc F))
  pub update_one : Text → Query → Update F → Store → Call (ℕ × ℕ) × Store
  pub find_exited : Text → Text → Store → Call (Option (ExitDoc F))
  pub replace_report : Report F → Store → Store

-- A part of a dotted path: a key, or the decimal digits of an index.
pub data Part : Type 0 where
  symbols_part alphas_part : Part
  index_part : ℕ → Part

-- `set_path.split(".")[1:]`
unfoldable pub path_parts : SetPath → List Part
path_parts master = symbols_part ∷ []
path_parts alpha = alphas_part ∷ symbols_part ∷ []
path_parts (alpha_at idx) = alphas_part ∷ index_part idx ∷ symbols_part ∷ []

-- What the walk along a path is at: the configuration, an alpha, the list of the alphas, a symbol
-- list, or anything else.
pub data Node (F : Type 0) : Type 0 where
  root_dict : Root F → Node F
  alpha_dict : Option (List (Item F)) → Node F
  alphas_list : List (Option (List (Item F))) → Node F
  symbol_list : List (Item F) → Node F
  other_node : Node F

module _ {F : Type 0} where
  -- The loop body: what an element of the old list becomes.
  unfoldable pub merge_item : Dict (Entry F) → List Text → Item F → Option (Entry F)
  merge_item updated removed_set not_dict = none
  merge_item updated removed_set (dict e) =
      if is_empty (key_of e) || member (key_of e) removed_set
      then none
      else some (elim (lookup (key_of e) updated) [ none ↦ e | some new ↦ update_entry e new ])

  unfoldable pub merge_pyramid_symbol_list :
      List (Item F) → Dict (Entry F) → List Text → List (Entry F)
  merge_pyramid_symbol_list original_list updated_by_symbol removed_active_symbols =
      collect (merge_item updated_by_symbol (of_list (map normalize_symbol removed_active_symbols)))
        original_list

  -- `isinstance(node, dict)`
  abbrev pub is_dict : Node F → Bool
  is_dict (root_dict root) = true
  is_dict (alpha_dict symbols) = true
  is_dict node = false

  abbrev pub list_node : Option (List (Item F)) → Node F
  list_node none = other_node
  list_node (some l) = symbol_list l

  -- `node.get(part)` of a dictionary; the two keys are all that a path asks for by name.
  unfoldable pub get_part : Part → Node F → Node F
  get_part symbols_part (root_dict root) = list_node root.symbols
  get_part alphas_part (root_dict root) = elim root.alphas [
    | no_alphas ↦ other_node
    | one_alpha symbols ↦ alpha_dict symbols
    | alpha_list alphas ↦ alphas_list alphas
  ]
  get_part symbols_part (alpha_dict symbols) = list_node symbols
  get_part part node = other_node

  -- The loop over the parts, which ends where the node is no dictionary.
  unfoldable pub walk_parts : List Part → Node F → Node F
  unfolding get_part
  walk_parts [] node = node
  walk_parts (part ∷ parts) node =
      let rest = walk_parts parts (get_part part node) in if is_dict node then rest else other_node

  -- The list at a path, where the walk ends at one.
  unfoldable pub walk : Root F → SetPath → Option (List (Item F))
  unfolding walk_parts
  walk root set_path = elim (walk_parts (path_parts set_path) (root_dict root)) [
    | symbol_list l ↦ some l
    | root_dict r ↦ none
    | alpha_dict symbols ↦ none
    | alphas_list alphas ↦ none
    | other_node ↦ none
  ]

  -- `update_doc[set_path] = merged_list`, where the walk finds a list.
  unfoldable pub merged_at :
      Root F → Dict (Entry F) → List Text → SetPath → Option (SetPath × List (Entry F))
  unfolding walk
  merged_at root updated removed set_path = elim (walk root set_path) [
    | none ↦ none
    | some node ↦ some (set_path, merge_pyramid_symbol_list node updated removed)
  ]

module _ {F : Type 0} (M : Mongo F) (json_loads : Text → Call (Option (Root F))) where
  open M use {Store, update_one}

  -- What the collection is asked to write.
  unfoldable pub update_lists :
      ConfigDoc F → Dict (Entry F) → List Text → List (SetPath × List (Entry F))
  update_lists config_doc updated removed =
      let root = normalize_configuration_root json_loads config_doc in
      collect (merged_at root updated removed) (configuration_symbol_set_paths root)

  -- `result.matched_count == 0`
  unfoldable pub was_saved : Call (ℕ × ℕ) → Call Bool
  was_saved raised = raised
  was_saved (returned (matched_count, modified_count)) = returned (not (matched_count == 0))

  -- `has_collection` tells whether the handle is there, and `config_filter` and `collection` are
  -- what the lookup of the document has stored.
  unfoldable pub persist_pyramid_merged_updates :
      Bool
      → Option Query
      → Option Text
      → ℕ
      → ConfigDoc F
      → Dict (Entry F)
      → List Text
      → Store
      → Call Bool × Store
  unfolding update_lists was_saved
  persist_pyramid_merged_updates false config_filter collection now doc updated removed st =
      (returned false, st)
  persist_pyramid_merged_updates true config_filter collection now doc updated removed st =
      let lists = update_lists doc updated removed in
      let query : Query = get_or config_filter (by_id doc.id) in
      let name = get_or collection (codes "savedtradingconfigurations") in
      let (result, st') =
        update_one name query (record { pyramid_updated_at = now; lists = lists }) st in
      if is_empty (configuration_symbol_set_paths (normalize_configuration_root json_loads doc))
        || is_empty lists
      then (returned false, st)
      else (was_saved result, st')
