-- ===== src/Pyramid/Lookup.antt =====
-- auto_trader_exposure_expansion/leverage.py: the lookup of the saved trading configuration, and the
-- leverage that it or the session sets. The log of a failed lookup is left out.
pub mod Found
use mintzy_plugin_kelly_opt.Base.{
  ℕ, Bool, true, false, ◌||◌, not, Option, none, some, List, [], ◌∷◌, any, is_empty, get_or, Call,
  returned, raised, if◌then◌else◌,
}
use mintzy_plugin_kelly_opt.Base.Text.{Text, codes, text_eq}
use mintzy_plugin_kelly_opt.Symbols.{present}
use mintzy_plugin_kelly_opt.Number.{Number}
use mintzy_plugin_kelly_opt.Decimals.{Decimals, Field, real, float_of}
use mintzy_plugin_kelly_opt.Pyramid.Document.{Root, ConfigDoc, normalize_configuration_root}
use mintzy_plugin_kelly_opt.Pyramid.Merge.{Query, by_id, by_configuration_id, Mongo}
use mintzy_plugin_kelly_opt.Pyramid.Simulator.{Simulator}

-- `SAVED_TRADING_CONFIGURATION_COLLECTION_CANDIDATES`
unfoldable pub collection_candidates : List Text
collection_candidates = codes "savedtradingconfigurations" ∷ codes "SavedTradingConfiguration" ∷ []

-- The keys under which the lookup sees two queries as the same.
unfoldable pub query_eq : Query → Query → Bool
query_eq (by_id a) (by_id b) = text_eq a b
query_eq (by_id a) (by_configuration_id b) = false
query_eq (by_configuration_id a) (by_id b) = false
query_eq (by_configuration_id a) (by_configuration_id b) = text_eq a b

-- Each query once, in order, without those that were seen.
unfoldable pub unique : List Query → List Query → List Query
unfolding query_eq
unique seen [] = []
unique seen (q ∷ qs) = if any (query_eq q) seen then unique seen qs else q ∷ unique (q ∷ seen) qs

module _ {F : Type 0} (M : Mongo F) where
  open M use {Store, object_id, find_one}

  unfoldable pub pyramid_lookup_filters : Text → List Query
  unfolding unique
  pyramid_lookup_filters configuration_id = elim (object_id configuration_id) [
    | raised ↦ unique [] (by_configuration_id configuration_id ∷ [])
    | returned none ↦ unique [] (by_configuration_id configuration_id ∷ [])
    | returned (some oid) ↦
        unique [] (by_id oid ∷ by_configuration_id configuration_id ∷ by_configuration_id oid ∷ [])
  ]

  -- The loop over the queries of one collection, and that over the collections. A query that raises
  -- is passed over.
  unfoldable pub find_in : Store → Text → List Query → Option (Query × ConfigDoc F)
  find_in st coll_name [] = none
  find_in st coll_name (query ∷ queries) =
      let rest = find_in st coll_name queries in
      elim (find_one coll_name query st) [
        | raised ↦ rest
        | returned none ↦ rest
        | returned (some doc) ↦ some (query, doc)
      ]

  unfoldable pub find_any : Store → List Query → List Text → Option (Text × (Query × ConfigDoc F))
  find_any st queries [] = none
  find_any st queries (coll_name ∷ names) =
      let rest = find_any st queries names in
      elim (find_in st coll_name queries) [ none ↦ rest | some found ↦ some (coll_name, found) ]

  module _ {S P : Type 0} where
    unfoldable pub fetch_saved_trading_configuration :
        Option Text → Simulator F S P → Store → Option (ConfigDoc F) × Simulator F S P
    fetch_saved_trading_configuration configuration_id t st = elim (present configuration_id) [
      | none ↦ (none, t)
      | some cid ↦
          if not t.has_collection
          then (none, t)
          else elim (find_any st (pyramid_lookup_filters cid) collection_candidates) [
            | none ↦ (none, t)
            | some (coll_name, (query, doc)) ↦ (
              some doc,
              record t { config_filter = some query; config_collection = some coll_name },
            )
          ]
    ]

module _ (N : Number) (D : Decimals N) (json_loads : Text → Call (Option (Root N.Float))) where
  open N use {Float, is_pos}

  unfoldable pub coerce_leverage_multiplier : Field Float → Option Float
  coerce_leverage_multiplier value = elim (float_of N D value) [
    | raised ↦ none
    | returned mult ↦ if is_pos mult then some mult else none
  ]

  -- The first of the three keys that has a multiplier.
  unfoldable pub leverage_of : Root Float → Option Float
  leverage_of root = elim (coerce_leverage_multiplier root.leverage_multiplier) [
    | some mult ↦ some mult
    | none ↦ elim (coerce_leverage_multiplier root.leverage) [
      | some mult ↦ some mult
      | none ↦ coerce_leverage_multiplier root.pyramid_leverage_multiplier
    ]
  ]

  unfoldable pub leverage_from_config_doc : ConfigDoc Float → Option Float
  unfolding leverage_of
  leverage_from_config_doc config_doc = elim (leverage_of config_doc.own) [
    | some mult ↦ some mult
    | none ↦ leverage_of (normalize_configuration_root json_loads config_doc)
  ]

  module _ (M : Mongo Float) {S P : Type 0} where
    open M use {Store}

    -- The multiplier of a document, or the default.
    unfoldable pub leverage_or :
        Option (ConfigDoc Float) → Float → Simulator Float S P → Float × Simulator Float S P
    leverage_or doc default t =
        let found : Option Float = elim doc [ none ↦ none | some d ↦ leverage_from_config_doc d ] in
        let mult = get_or found default in (mult, record t { leverage_multiplier = real mult })

    unfoldable pub resolve_leverage_multiplier :
        Option (ConfigDoc Float) → Float → Simulator Float S P → Store → Float × Simulator Float S P
    unfolding leverage_or
    resolve_leverage_multiplier config_doc default t st =
        elim (coerce_leverage_multiplier t.leverage_multiplier) [
          | some mult ↦ (mult, record t { leverage_multiplier = real mult })
          | none ↦ elim config_doc [
            | some doc ↦ leverage_or (some doc) default t
            | none ↦
                let (doc, t') = fetch_saved_trading_configuration M t.configuration_id t st in
                leverage_or doc default t'
          ]
        ]
