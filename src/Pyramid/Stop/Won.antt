-- ===== src/Pyramid/Stop/Won.antt =====
-- What the evaluation says of a symbol that wins, and that the steps before it leave the books alone.
use mathlib.Core.List.{Memᴰ}
use mintzy_plugin_kelly_opt.Base.{
  refl, true, false, Option, none, some, List, [], ◌∷◌, Call, ◌≡◌, sym as p_sym, ◌∙◌, arith, inl,
  inr, All, Option-cases,
}
use mintzy_plugin_kelly_opt.Base.Int.{ℤ}
use mintzy_plugin_kelly_opt.Base.Text.{Text}
use mintzy_plugin_kelly_opt.Base.Dict.{Dict}
use mintzy_plugin_kelly_opt.Number.{Number}
use mintzy_plugin_kelly_opt.Decimals.{Decimals}
use mintzy_plugin_kelly_opt.Pyramid.Ranks.{pyramid_profit_threshold_for_rank, threshold-multiplier}
use mintzy_plugin_kelly_opt.Pyramid.Document.{Entry, Root, ConfigDoc}
use mintzy_plugin_kelly_opt.Pyramid.Merge.{Mongo}
use mintzy_plugin_kelly_opt.Pyramid.Simulator.{Simulator, Broker}
use mintzy_plugin_kelly_opt.Pyramid.Lookup.{
  fetch_saved_trading_configuration, leverage_or, resolve_leverage_multiplier,
}
use mintzy_plugin_kelly_opt.Pyramid.Cash.{
  restored_session, resolve_live_broker_session, fetch_broker_free_cash, get_pyramid_free_cash,
}
use mintzy_plugin_kelly_opt.Pyramid.Unrealized.{get_exited_symbol_doc, get_symbol_unrealized_pnl}
use mintzy_plugin_kelly_opt.Pyramid.Apply.{rank_of, evaluate, evaluate_all}
use mintzy_plugin_kelly_opt.Pyramid.Handoff.{is_winner}
use mintzy_plugin_kelly_opt.Pyramid.Stop.Seen.{
  books, IsOrdered, Seen, books-Seen, exited-Seen, pnl-Seen, evaluate-Seen,
}
use mintzy_plugin_kelly_opt.Pyramid.Rows.{HasMultiplier}

module _ {F S P : Type 0} (M : Mongo F) where
  open M use {Store}

  pub books-fetch :
      (cid : Option Text) (t : Simulator F S P) (st : Store)
      → books (fetch_saved_trading_configuration M cid t st).1 ≡ books t
  unfolding fetch_saved_trading_configuration
  books-fetch cid t st = ground arith

module _ (N : Number) (D : Decimals N) where
  open N use {Float}

  module _ (B : Broker Float) where
    open B use {Session, Payload}

    books-restored :
        (t : Simulator Float Session Payload) → books (restored_session N D B t).1 ≡ books t
    unfolding restored_session
    books-restored t = ground arith

    books-session :
        (t : Simulator Float Session Payload)
        → books (resolve_live_broker_session N D B t).1 ≡ books t
    unfolding resolve_live_broker_session
    books-session t = ground (arith, books-restored t)

    pub books-cash :
        (t : Simulator Float Session Payload) → books (get_pyramid_free_cash N D B t).1 ≡ books t
    unfolding get_pyramid_free_cash fetch_broker_free_cash
    books-cash t = ground (arith, books-session (record t { cash_fetch_timed_out = false }))

  module _ (json_loads : Text → Call (Option (Root Float))) (M : Mongo Float) {S P : Type 0} where
    open M use {Store}

    pub books-leverage :
        (doc : ConfigDoc Float) (default : Float) (t : Simulator Float S P) (st : Store)
        → books (resolve_leverage_multiplier N D json_loads M (some doc) default t st).1 ≡ books t
    unfolding resolve_leverage_multiplier leverage_or
    books-leverage doc default t st = ground arith

    -- The symbol is not exited, and its profit exceeds the threshold of the rank and the capital of
    -- an entry of the symbol.
    abbrev pub Won :
        Dict ℤ → List (Text × (Entry Float × Float)) → Simulator Float S P → Store → Text → Type 0
    Won rank_map entries t st s =
        (get_exited_symbol_doc M s t st ≡ none)
        × (entry : Entry Float) × (capital : Float) × (threshold : Float) × Memᴰ
            (s, (entry, capital)) entries
        × (pyramid_profit_threshold_for_rank N D (rank_of N D s entry rank_map) capital
            ≡ some threshold)
        × (D.less threshold (get_symbol_unrealized_pnl N D M s t st).0 ≡ true)

    evaluate-Won :
        IsOrdered N D
        → (rank_map : Dict ℤ) (st : Store) (entries : List (Text × (Entry Float × Float)))
          (e : Text × (Entry Float × Float)) (t u : Simulator Float S P)
        → Memᴰ e entries
        → Seen N D M t u
        → is_winner (evaluate N D M rank_map st e u).0 ≡ true
        → Won rank_map entries t st (evaluate N D M rank_map st e u).0.symbol
    unfolding evaluate
    evaluate-Won ordered rank_map st entries (s, (entry, cap)) t u m h w =
        let pnl = pnl-Seen N D M ordered s t u st h in
        elim (Option-cases (get_exited_symbol_doc M s u st)) [
          | inr (doc, q) ↦ ground arith
          | inl q ↦
              let rank = rank_of N D s entry rank_map in
              elim (Option-cases (pyramid_profit_threshold_for_rank N D rank cap)) [
                | inl r ↦ ground arith
                | inr (x, r) ↦ (
                  p_sym (exited-Seen N D M s t u st h) ∙ q,
                  entry,
                  cap,
                  x,
                  m,
                  r,
                  ground (arith, pnl),
                )
              ]
        ]

    -- The entries from some point on are among all.
    evaluate_all-Won :
        IsOrdered N D
        → (rank_map : Dict ℤ) (st : Store) (entries rest : List (Text × (Entry Float × Float)))
          (t u : Simulator Float S P)
        → ((e : Text × (Entry Float × Float)) → Memᴰ e rest → Memᴰ e entries)
        → Seen N D M t u
        → All
            (λ v. is_winner v ≡ true → Won rank_map entries t st v.symbol)
            (evaluate_all N D M rank_map st rest u).0
    unfolding evaluate_all
    evaluate_all-Won ordered rank_map st entries [] t u m h = tt
    evaluate_all-Won ordered rank_map st entries (e ∷ rest) t u m h = (
      evaluate-Won ordered rank_map st entries e t u (m e (Memᴰ.head refl)) h,
      evaluate_all-Won ordered rank_map st entries rest t (evaluate N D M rank_map st e u).1
          (λ e' k. m e' (Memᴰ.tail k)) (evaluate-Seen N D M ordered rank_map st e t u h),
    )

    pub winners-Won :
        IsOrdered N D
        → (rank_map : Dict ℤ) (st : Store) (entries : List (Text × (Entry Float × Float)))
          (t u : Simulator Float S P)
        → books u ≡ books t
        → All
            (λ v. is_winner v ≡ true → Won rank_map entries t st v.symbol)
            (evaluate_all N D M rank_map st entries u).0
    winners-Won ordered rank_map st entries t u h =
        evaluate_all-Won ordered rank_map st entries entries t u (λ e k. k) (books-Seen N D M t u h)

    -- A winner has a threshold, and so a multiplier.
    evaluate-HasMultiplier :
        (rank_map : Dict ℤ) (st : Store) (e : Text × (Entry Float × Float))
        (u : Simulator Float S P)
        → is_winner (evaluate N D M rank_map st e u).0 ≡ true
        → HasMultiplier N D (evaluate N D M rank_map st e u).0
    unfolding evaluate
    evaluate-HasMultiplier rank_map st (s, (entry, cap)) u w =
        let rank = rank_of N D s entry rank_map in
        elim (Option-cases (pyramid_profit_threshold_for_rank N D rank cap)) [
          | inl r ↦ ground arith
          | inr (x, r) ↦ threshold-multiplier N D rank cap x r
        ]

    pub evaluate_all-HasMultiplier :
        (rank_map : Dict ℤ) (st : Store) (entries : List (Text × (Entry Float × Float)))
        (u : Simulator Float S P)
        → All
            (λ v. is_winner v ≡ true → HasMultiplier N D v)
            (evaluate_all N D M rank_map st entries u).0
    unfolding evaluate_all
    evaluate_all-HasMultiplier rank_map st [] u = tt
    evaluate_all-HasMultiplier rank_map st (e ∷ entries) u = (
      evaluate-HasMultiplier rank_map st e u,
      evaluate_all-HasMultiplier rank_map st entries (evaluate N D M rank_map st e u).1,
    )
