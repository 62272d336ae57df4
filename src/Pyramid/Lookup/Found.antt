-- ===== src/Pyramid/Lookup/Found.antt =====
-- A configuration is saved where the lookup found it.
use mintzy_plugin_kelly_opt.Base.{
  ℕ, true, false, Option, some, List, [], ◌∷◌, is_empty, Call, returned, ◌≡◌, arith, inl, inr,
  Option-cases, Call-cases,
}
use mintzy_plugin_kelly_opt.Base.Text.{Text}
use mintzy_plugin_kelly_opt.Base.Dict.{Dict}
use mintzy_plugin_kelly_opt.Symbols.{present}
use mintzy_plugin_kelly_opt.Pyramid.Document.{Entry, Root, ConfigDoc}
use mintzy_plugin_kelly_opt.Pyramid.Merge.{
  Query, Update, Mongo, update_lists, was_saved, persist_pyramid_merged_updates,
}
use mintzy_plugin_kelly_opt.Pyramid.Simulator.{Simulator}
use mintzy_plugin_kelly_opt.Pyramid.Lookup.{
  find_in, find_any, fetch_saved_trading_configuration, pyramid_lookup_filters,
  collection_candidates,
}

module _ {F : Type 0} (M : Mongo F) where
  open M use {Store, find_one, update_one}

  find_in-found :
      (st : Store) (name : Text) (queries : List Query) (q : Query) (doc : ConfigDoc F)
      → find_in M st name queries ≡ some (q, doc)
      → find_one name q st ≡ returned (some doc)
  unfolding find_in
  find_in-found st name [] q doc h = ground arith
  find_in-found st name (query ∷ queries) q doc h = elim (Call-cases (find_one name query st)) [
    | inl e ↦ find_in-found st name queries q doc (ground arith)
    | inr (o, e) ↦ elim (Option-cases o) [
      | inl n ↦ find_in-found st name queries q doc (ground arith)
      | inr (d, n) ↦ ground arith
    ]
  ]

  find_any-found :
      (st : Store) (queries : List Query) (names : List Text) (name : Text) (q : Query)
      (doc : ConfigDoc F)
      → find_any M st queries names ≡ some (name, (q, doc))
      → find_one name q st ≡ returned (some doc)
  unfolding find_any
  find_any-found st queries [] name q doc h = ground arith
  find_any-found st queries (n ∷ names) name q doc h =
      elim (Option-cases (find_in M st n queries)) [
        | inl e ↦ find_any-found st queries names name q doc (ground arith)
        | inr ((q', d), e) ↦ ground (arith, find_in-found st n queries q' d e)
      ]

  module _ {S P : Type 0} where
    -- A document that is found was found by the query and in the collection that are kept.
    fetch-found :
        (cid : Option Text) (t : Simulator F S P) (st : Store) (doc : ConfigDoc F)
        → (fetch_saved_trading_configuration M cid t st).0 ≡ some doc
        → (let u = (fetch_saved_trading_configuration M cid t st).1 in
            (q : Query) × (name : Text) × (u.has_collection ≡ true)
            × (u.config_filter ≡ some q)
            × (u.config_collection ≡ some name)
            × (find_one name q st ≡ returned (some doc)))
    unfolding fetch_saved_trading_configuration
    fetch-found cid t st doc h = elim (Option-cases (present cid)) [
      | inl e ↦ ground arith
      | inr (c, e) ↦
          elim (Option-cases (find_any M st (pyramid_lookup_filters M c) collection_candidates)) [
            | inl n ↦ ground arith
            | inr ((name, (q, d)), n) ↦
                let found =
                  find_any-found st (pyramid_lookup_filters M c) collection_candidates name q d n in
                (q, name, ground arith, ground arith, ground arith, ground arith)
          ]
    ]

    -- Where the lookup finds a document and at least one list is merged, the save writes the
    -- merged lists with a query and into a collection that give this document, and answers as that
    -- write does.
    saved_where_found :
        (json_loads : Text → Call (Option (Root F))) (now : ℕ) (cid : Option Text)
        (t : Simulator F S P) (st st' : Store) (doc : ConfigDoc F) (updated : Dict (Entry F))
        (removed : List Text)
        → (fetch_saved_trading_configuration M cid t st).0 ≡ some doc
        → is_empty (update_lists M json_loads doc updated removed) ≡ false
        → (let u = (fetch_saved_trading_configuration M cid t st).1 in
            let update : Update F = record {
              pyramid_updated_at = now;
              lists = update_lists M json_loads doc updated removed;
            } in
            (q : Query) × (name : Text) × (find_one name q st ≡ returned (some doc))
            × (persist_pyramid_merged_updates M json_loads u.has_collection u.config_filter
                  u.config_collection now doc updated removed st'
                ≡ (
                  was_saved M json_loads (update_one name q update st').0,
                  (update_one name q update st').1,
                )))
    unfolding persist_pyramid_merged_updates update_lists
    saved_where_found json_loads now cid t st st' doc updated removed h k =
        let (q, name, a, b, c, d) = fetch-found cid t st doc h in (q, name, d, ground arith)
