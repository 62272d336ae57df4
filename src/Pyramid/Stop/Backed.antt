-- ===== src/Pyramid/Stop/Backed.antt =====
-- The symbols that a handoff releases for live trading are backed by the evaluation.
use mintzy_plugin_kelly_opt.Base.{
  ℕ, Bool, true, false, ◌||◌, Option, List, [], map, keep, collect, is_empty, Call, returned,
  raised, if◌then◌else◌, ◌≡◌, refl, subst, arith, inl, inr, All, Bool-cases,
}
use mintzy_plugin_kelly_opt.Base.Text.{Text, codes, text_eq}
use mintzy_plugin_kelly_opt.Number.{Number}
use mintzy_plugin_kelly_opt.Decimals.{Decimals}
use mintzy_plugin_kelly_opt.Pyramid.Document.{Root, ConfigDoc}
use mintzy_plugin_kelly_opt.Pyramid.Merge.{Mongo, PnlRow, persist_pyramid_merged_updates}
use mintzy_plugin_kelly_opt.Pyramid.Simulator.{Simulator, PyramidHandoff, LiveRow, Broker}
use mintzy_plugin_kelly_opt.Pyramid.Apply.{
  Verdict, Static, static_of, sum_static, updated_entries, symbols_for_live_from_entries,
}
use mintzy_plugin_kelly_opt.Pyramid.Handoff.{
  Result, blocked, is_winner, before_parenthesis, removed_of, rows_of, hand_off,
  finish_pyramid_handoff,
}
use mintzy_plugin_kelly_opt.Pyramid.Stop.{distribute, allocate}
use mintzy_plugin_kelly_opt.Pyramid.Rows.{
  IsLive-All, updated-AllKeys, updated-full, statics-All, winners-All, statics-full, HasMultiplier,
  IsLive,
}

returned-injective : {A : Type 0} {a b : A} → returned a ≡ returned b → a ≡ b
returned-injective e = ground arith

-- The reasons of the branches that the ranks' tables leave out.
unfoldable pub is_dead : Text → Bool
is_dead reason =
    text_eq reason (codes "no_profitable_with_valid_rank")
    || text_eq reason (codes "no_symbols_updated")

module _ (N : Number) (D : Decimals N) where
  open N use {Float, zero, divide, is_pos}

  -- Live trading is allowed only by a handoff that was applied, for at least one symbol, and each
  -- of its symbols satisfies the predicate and has capital.
  -- Nor is the reason one of the two dead ones.
  abbrev pub IsBacked {κ} : (Text → Type κ) → PyramidHandoff Float → Type κ
  IsBacked P h =
      (is_dead h.reason ≡ false)
      × (h.live_allowed ≡ true
          → (h.applied ≡ true)
            × (is_empty h.symbols_for_live ≡ false)
            × All (IsLive N D P) h.symbols_for_live)

  module _ (M : Mongo Float) (B : Broker Float) where
    open M use {Store}
    open B use {Session, Payload}

    -- A handoff that a step gives satisfies the predicate.
    unfoldable pub Gives {κ} : (PyramidHandoff Float → Type κ) → Result N D M B → Type κ
    Gives R r = (h : PyramidHandoff Float) → r.0 ≡ returned h → R h

    finish-IsBacked {κ} :
        (P : Text → Type κ) (result : PyramidHandoff Float) (rows : List (PnlRow Float))
        (t : Simulator Float Session Payload) (st : Store)
        → IsBacked P result
        → Gives (IsBacked P) (finish_pyramid_handoff N D M B result rows t st)
    unfolding finish_pyramid_handoff Gives
    finish-IsBacked P result rows t st k h e =
        let same : result ≡ h = ground arith in subst (IsBacked P) same k

    if-alive : (b : Bool) → is_dead (if b then codes "no_symbols_for_live" else codes "ok") ≡ false
    unfolding is_dead text_eq
    if-alive true = refl
    if-alive false = refl

    hand_off-IsBacked {κ} :
        (P : Text → Type κ) (saved : Call Bool) (live : Call (List (LiveRow Float)))
        (removed : List Text) (rows : List (PnlRow Float)) (t : Simulator Float Session Payload)
        (st : Store)
        → ((l : List (LiveRow Float)) → live ≡ returned l → All (IsLive N D P) l)
        → Gives (IsBacked P) (hand_off N D M B saved live removed rows t st)
    unfolding hand_off finish_pyramid_handoff Gives is_dead text_eq
    hand_off-IsBacked P raised live removed rows t st k h e = ground arith
    hand_off-IsBacked P (returned saved) raised removed rows t st k h e = ground arith
    hand_off-IsBacked P (returned false) (returned live) removed rows t st k h e =
        let same : _ ≡ h = returned-injective e in
        subst (IsBacked P) same (refl, λ bad. ground arith)
    hand_off-IsBacked P (returned true) (returned live) removed rows t st k h e =
        let same : _ ≡ h = returned-injective e in
        subst (IsBacked P) same (if-alive (is_empty live), λ yes. (refl, ground arith, k live refl))

    finish-blocked {κ} :
        (P : Text → Type κ) (why : Text) (removed : List Text) (rows : List (PnlRow Float))
        (t : Simulator Float Session Payload) (st : Store)
        → is_dead why ≡ false
        → Gives (IsBacked P) (finish_pyramid_handoff N D M B (blocked why removed) rows t st)
    finish-blocked P why removed rows t st h =
        finish-IsBacked P (blocked why removed) rows t st (h, λ bad. ground arith)

    module _ (json_loads : Text → Call (Option (Root N.Float))) (now : ℕ) where
      pub distribute-IsBacked {κ} :
          (P : Text → Type κ) (doc : ConfigDoc Float) (m : Float) (statics : List (Static Float))
          (verdicts : List (Verdict Float)) (t : Simulator Float Session Payload) (st : Store)
          → is_empty statics ≡ false
          → All (λ p. P p.symbol) statics
          → Gives (IsBacked P) (distribute N D M B json_loads now doc m statics verdicts t st)
      unfolding distribute is_dead text_eq
      distribute-IsBacked P doc m statics verdicts t st some_static h =
          let updated = updated_entries N D m statics [] in
          let saved =
            persist_pyramid_merged_updates M json_loads t.has_collection t.config_filter
              t.config_collection now doc updated (removed_of verdicts) st in
          ground (
            arith,
            finish-blocked P (codes "dynamic_multiplier_non_positive") [] (rows_of verdicts) t st
                refl,
            updated-full N D m statics some_static,
            hand_off-IsBacked P saved.0
                (symbols_for_live_from_entries N D t.symbol_allocations updated)
                (removed_of verdicts) (rows_of verdicts) t saved.1
                (λ l e.
                  IsLive-All N D P t.symbol_allocations updated l
                    (updated-AllKeys N D P m statics [] h tt) e),
          )

      -- The verdicts decide: what winning gives holds of the symbols released for live trading.
      pub allocate-IsBacked {κ} :
          (P : Text → Type κ) (doc : ConfigDoc Float) (cash : Float)
          (verdicts : List (Verdict Float)) (t : Simulator Float Session Payload) (st : Store)
          → All (λ v. is_winner v ≡ true → P v.symbol) verdicts
          → All (λ v. is_winner v ≡ true → HasMultiplier N D v) verdicts
          → Gives (IsBacked P) (allocate N D M B json_loads now doc cash verdicts t st)
      unfolding allocate is_dead text_eq
      allocate-IsBacked P doc cash verdicts t st h k =
          let winners = keep is_winner verdicts in
          let statics = collect (static_of N D) winners in
          let rows = rows_of verdicts in
          let losers = map before_parenthesis (removed_of verdicts) in
          elim (Bool-cases (is_empty winners)) [
            | inl q ↦
                ground
                  (arith, finish-blocked P (codes "no_profitable_symbols") losers rows t st refl)
            | inr q ↦
                let full =
                  statics-full N D winners (winners-All N D (HasMultiplier N D) verdicts k) q in
                ground (
                  arith,
                  finish-blocked P (codes "capital_after_static_non_positive") [] rows t st refl,
                  distribute-IsBacked P doc (divide cash (sum_static N D zero statics)) statics
                      verdicts t st full
                      (statics-All N D P winners (winners-All N D (λ v. P v.symbol) verdicts h)),
                )
          ]
