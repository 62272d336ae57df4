-- ===== src/Pyramid/Stop/Released.antt =====
-- What a stop of a simulation releases for live trading, and what a second stop does.
use mintzy_plugin_kelly_opt.Base.{
  ◌∷◌, ℕ, true, false, Option, some, List, [], is_empty, Call, returned, ◌≡◌, refl, ◌∙◌, subst,
  arith, inl, inr, ◌⊎◌, All, All-intro, Option-cases, Call-cases,
}
use mintzy_plugin_kelly_opt.Base.Int.{ℤ}
use mintzy_plugin_kelly_opt.Base.Text.{Text, codes, text_eq}
use mintzy_plugin_kelly_opt.Base.Dict.{Dict}
use mintzy_plugin_kelly_opt.Symbols.{present}
use mintzy_plugin_kelly_opt.Number.{Number}
use mintzy_plugin_kelly_opt.Decimals.{Decimals}
use mintzy_plugin_kelly_opt.Pyramid.Document.{
  Item, SetPath, Entry, Root, ConfigDoc, normalize_configuration_root,
  get_configuration_symbols_ref, build_configuration_rank_map,
}
use mintzy_plugin_kelly_opt.Pyramid.Merge.{Mongo}
use mintzy_plugin_kelly_opt.Pyramid.Simulator.{Simulator, Broker, PyramidHandoff}
use mintzy_plugin_kelly_opt.Pyramid.Lookup.{
  fetch_saved_trading_configuration, resolve_leverage_multiplier,
}
use mintzy_plugin_kelly_opt.Pyramid.Cash.{get_pyramid_free_cash}
use mintzy_plugin_kelly_opt.Pyramid.Entries.{build_pyramid_config_entries}
use mintzy_plugin_kelly_opt.Pyramid.Apply.{evaluate_all}
use mintzy_plugin_kelly_opt.Pyramid.Handoff.{is_winner, Result, blocked}
use mintzy_plugin_kelly_opt.Pyramid.Stop.{
  evaluate_and_allocate, with_document, cached_handoff, apply_capital_pyramid_on_stop, shutdown,
}
use mintzy_plugin_kelly_opt.Pyramid.Stop.Backed.{is_dead, IsBacked, Gives, allocate-IsBacked}
use mintzy_plugin_kelly_opt.Pyramid.Rows.{IsLive}
use mintzy_plugin_kelly_opt.Pyramid.Stop.Seen.{books, IsOrdered}
use mintzy_plugin_kelly_opt.Pyramid.Stop.Won.{
  Won, books-fetch, books-cash, books-leverage, winners-Won, evaluate_all-HasMultiplier,
}

module _ (N : Number) (D : Decimals N) (M : Mongo N.Float) (B : Broker N.Float)
    (json_loads : Text → Call (Option (Root N.Float))) (now : ℕ) where
  open N use {Float, one, times}
  open M use {Store}
  open B use {Session, Payload}

  -- A symbol that won in the evaluation of the entries that the found configuration gives.
  abbrev pub Winner : Simulator Float Session Payload → Store → Text → Type 0
  Winner t st s =
      let (found, t1) = fetch_saved_trading_configuration M t.configuration_id t st in
      (doc : ConfigDoc Float) × (l : List (Item Float)) × (path : SetPath) × (found ≡ some doc)
      × (get_configuration_symbols_ref (normalize_configuration_root json_loads doc)
          ≡ some (l, path))
      × (let root = normalize_configuration_root json_loads doc in
          let rank_map = build_configuration_rank_map N D root in
          Won N D json_loads M rank_map (build_pyramid_config_entries N D root l rank_map t1) t st
            s)

  abbrev Released : (Text → Type 0) → Result N D M B → Type 0
  Released P = Gives N D M B (IsBacked N D P)

  returned-Released :
      (P : Text → Type 0) (why : Text) (removed : List Text)
      (rest : Simulator Float Session Payload × Store)
      → is_dead why ≡ false
      → Released P (returned (blocked why removed), rest)
  unfolding Gives
  returned-Released P why removed rest k h e =
      let same : blocked why removed ≡ h = ground arith in
      subst (IsBacked N D P) same (k, λ bad. ground arith)

  All-weaken :
      {A : Type 0} (Q R : A → Type 0) → ((x : A) → Q x → R x) → (xs : List A) → All Q xs → All R xs
  All-weaken Q R f [] h = tt
  All-weaken Q R f (x ∷ xs) h = (f x h.0, All-weaken Q R f xs h.1)

  -- Either the floats are ordered, or there is nothing to show of a symbol.
  abbrev AtHand : (Text → Type 0) → Type 0
  AtHand P = IsOrdered N D ⊎ ((s : Text) → P s)

  evaluated-Released :
      (P : Text → Type 0) (doc : ConfigDoc Float) (rank_map : Dict ℤ)
      (entries : List (Text × (Entry Float × Float))) (t u : Simulator Float Session Payload)
      (st : Store)
      → AtHand P
      → ((s : Text) → Won N D json_loads M rank_map entries t st s → P s)
      → books u ≡ books t
      → Released P (evaluate_and_allocate N D M B json_loads now doc rank_map entries u st)
  unfolding evaluate_and_allocate is_dead text_eq
  evaluated-Released P doc rank_map entries t u st hand won h =
      let (cash, t1) = get_pyramid_free_cash N D B u in
      elim (Option-cases cash) [
        | inl q ↦ ground (
          arith,
          returned-Released P (codes "broker_cash_timeout") [] (t1, st) refl,
          returned-Released P (codes "broker_cash_unavailable") [] (t1, st) refl,
        )
        | inr (c, q) ↦
            let (mult, t2) = resolve_leverage_multiplier N D json_loads M (some doc) one t1 st in
            let (verdicts, t3) = evaluate_all N D M rank_map st entries t2 in
            let same = books-leverage N D json_loads M doc one t1 st ∙ (books-cash N D B u ∙ h) in
            let wins : All (λ v. is_winner v ≡ true → P v.symbol) verdicts = elim hand [
              | inl ordered ↦
                  All-weaken
                    (λ v. is_winner v ≡ true → Won N D json_loads M rank_map entries t st v.symbol)
                    (λ v. is_winner v ≡ true → P v.symbol) (λ v f w. won v.symbol (f w)) verdicts
                    (winners-Won N D json_loads M ordered rank_map st entries t t2 same)
              | inr all ↦
                  All-intro (λ v. is_winner v ≡ true → P v.symbol) (λ v w. all v.symbol) verdicts
            ] in
            ground (
              arith,
              allocate-IsBacked N D M B json_loads now P doc (times c mult) verdicts t3 st wins
                  (evaluate_all-HasMultiplier N D json_loads M rank_map st entries t2),
            )
      ]

  document-Released :
      (P : Text → Type 0) (doc : ConfigDoc Float) (t u : Simulator Float Session Payload)
      (st : Store)
      → AtHand P
      → ((l : List (Item Float)) (path : SetPath) (s : Text)
          → get_configuration_symbols_ref (normalize_configuration_root json_loads doc)
            ≡ some (l, path)
          → (let root = normalize_configuration_root json_loads doc in
              let rank_map = build_configuration_rank_map N D root in
              Won N D json_loads M rank_map
                (build_pyramid_config_entries N D root l rank_map u)
                t
                st
                s)
          → P s)
      → books u ≡ books t
      → Released P (with_document N D M B json_loads now doc u st)
  unfolding with_document is_dead text_eq
  document-Released P doc t u st hand won h =
      let root = normalize_configuration_root json_loads doc in
      elim (Option-cases (get_configuration_symbols_ref root)) [
        | inl q ↦
            ground
              (arith, returned-Released P (codes "configuration_symbols_missing") [] (u, st) refl)
        | inr ((l, p), q) ↦
            let rank_map = build_configuration_rank_map N D root in
            let entries = build_pyramid_config_entries N D root l rank_map u in
            ground (
              arith,
              returned-Released P (codes "no_symbols_to_evaluate") [] (u, st) refl,
              evaluated-Released P doc rank_map entries t u st hand (λ s w. won l p s q w) h,
            )
      ]

  apply-Released :
      (P : Text → Type 0) (t : Simulator Float Session Payload) (st : Store)
      → AtHand P
      → ((s : Text) → Winner t st s → P s)
      → t.pyramid_applied ≡ false
      → Released P (apply_capital_pyramid_on_stop N D M B json_loads now t st)
  unfolding apply_capital_pyramid_on_stop is_dead text_eq
  apply-Released P t st hand into h =
      let (found, t1) = fetch_saved_trading_configuration M t.configuration_id t st in
      elim (Option-cases (present t.configuration_id)) [
        | inl p ↦
            ground (arith, returned-Released P (codes "configuration_id_missing") [] (t, st) refl)
        | inr (cid, p) ↦ elim (Option-cases found) [
          | inl q ↦
              ground (arith, returned-Released P (codes "configuration_not_found") [] (t1, st) refl)
          | inr (doc, q) ↦ ground (
            arith,
            document-Released P doc t t1 st hand (λ l path s e w. into s (doc, l, path, q, e, w))
                (books-fetch M t.configuration_id t st),
          )
        ]
      ]

  -- If x > 0 is false wherever x <= 0 is true, and the first stop of a simulation stores a handoff
  -- that allows live trading, the configuration was saved, at least one symbol is released, and
  -- each of them has capital, is not exited, and is among the entries of the configuration that
  -- the stop found, with a profit above the threshold of the entry's rank and capital; the exit
  -- and the profit are those of the trader's books and the database as the stop found them.
  pub stop_releases_winners :
      IsOrdered N D
      → (t : Simulator Float Session Payload) (st : Store) (h : PyramidHandoff Float)
      → t.pyramid_applied ≡ false
      → (shutdown N D M B json_loads now t st).0.handoff_result ≡ some h
      → h.live_allowed ≡ true
      → (h.applied ≡ true)
        × (is_empty h.symbols_for_live ≡ false)
        × All (IsLive N D (Winner t st)) h.symbols_for_live
  unfolding shutdown Gives
  stop_releases_winners ordered t st h fresh e live =
      elim (Call-cases (apply_capital_pyramid_on_stop N D M B json_loads now t st).0) [
        | inl q ↦ ground arith
        | inr (r, q) ↦
            let same : r ≡ h = ground arith in
            let backed =
              subst (IsBacked N D (Winner t st)) same
                (apply-Released (Winner t st) t st (inl ordered) (λ s w. w) fresh r q) in
            backed.1 live
      ]

  -- The first stop never gives one of the reasons no_profitable_with_valid_rank and
  -- no_symbols_updated: a symbol with a threshold has a multiplier, so that the two branches are
  -- never taken.
  pub every_winner_has_a_rank :
      (t : Simulator Float Session Payload) (st : Store) (h : PyramidHandoff Float)
      → t.pyramid_applied ≡ false
      → (shutdown N D M B json_loads now t st).0.handoff_result ≡ some h
      → is_dead h.reason ≡ false
  unfolding shutdown Gives is_dead text_eq
  every_winner_has_a_rank t st h fresh e =
      elim (Call-cases (apply_capital_pyramid_on_stop N D M B json_loads now t st).0) [
        | inl q ↦
            let same : blocked (codes "pyramid_exception") [] ≡ h = ground arith in
            subst (λ r. is_dead r.reason ≡ false) same refl
        | inr (r, q) ↦
            let same : r ≡ h = ground arith in
            subst (λ r. is_dead r.reason ≡ false) same
              (apply-Released (λ s. Unit {0}) t st (inr (λ s. tt)) (λ s w. tt) fresh r q).0
      ]

  -- After a stop that applied the pyramid, another stop leaves the trader and the database as they
  -- are.
  second_stop_changes_nothing :
      (t : Simulator Float Session Payload) (st : Store)
      → (shutdown N D M B json_loads now t st).0.pyramid_applied ≡ true
      → (let (u, st1) = shutdown N D M B json_loads now t st in
          shutdown N D M B json_loads now u st1 ≡ (u, st1))
  unfolding shutdown apply_capital_pyramid_on_stop cached_handoff
  second_stop_changes_nothing t st h =
      elim (Call-cases (apply_capital_pyramid_on_stop N D M B json_loads now t st).0) [
        | inl q ↦ ground arith
        | inr (r, q) ↦ ground arith
      ]
