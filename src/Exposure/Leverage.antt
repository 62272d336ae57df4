-- ===== src/Exposure/Leverage.antt =====
-- The leverage that the live trader settles on.
use mintzy_plugin_kelly_opt.Base.{
  ◌≡◌, inl, inr, Bool, true, Option, none, some, Call, returned, Option-cases, Call-cases, arith,
}
use mintzy_plugin_kelly_opt.Base.Text.{Text}
use mintzy_plugin_kelly_opt.Number.{Number}
use mintzy_plugin_kelly_opt.Decimals.{Decimals, Field, real, float_of}
use mintzy_plugin_kelly_opt.Pyramid.Document.{Root, ConfigDoc, normalize_configuration_root}
use mintzy_plugin_kelly_opt.Pyramid.Merge.{Mongo}
use mintzy_plugin_kelly_opt.Pyramid.Lookup.{
  coerce_leverage_multiplier, leverage_of, leverage_from_config_doc,
}
use mintzy_plugin_kelly_opt.Exposure.{
  Desk, fetch_saved_trading_configuration_for_leverage, resolve_leverage_multiplier,
}

module _ (N : Number) (D : Decimals N) (json_loads : Text → Call (Option (Root N.Float))) where
  open N use {Float, is_pos}

  -- A multiplier, where there is one, is positive.
  abbrev Lifts : Option Float → Type 0
  Lifts none = Unit
  Lifts (some mult) = is_pos mult ≡ true

  coerce-Lifts : (v : Field Float) → Lifts (coerce_leverage_multiplier N D json_loads v)
  unfolding coerce_leverage_multiplier
  coerce-Lifts v = ground arith

  leverage_of-Lifts : (root : Root Float) → Lifts (leverage_of N D json_loads root)
  unfolding leverage_of
  leverage_of-Lifts root = ground (
    arith,
    coerce-Lifts root.leverage_multiplier,
    coerce-Lifts root.leverage,
    coerce-Lifts root.pyramid_leverage_multiplier,
  )

  from_doc-Lifts : (doc : ConfigDoc Float) → Lifts (leverage_from_config_doc N D json_loads doc)
  unfolding leverage_from_config_doc
  from_doc-Lifts doc = ground (
    arith,
    leverage_of-Lifts doc.own,
    leverage_of-Lifts (normalize_configuration_root json_loads doc),
  )

  coerce_real :
      (mult : Float)
      → is_pos mult ≡ true
      → coerce_leverage_multiplier N D json_loads (real mult) ≡ some mult
  unfolding coerce_leverage_multiplier float_of
  coerce_real mult h = ground arith

  module _ (M : Mongo Float) (has_name : Text → M.Store → Call Bool) {S : Type 0} where
    resolved_is_pos :
        (default : Float) (d : Desk Float S) (st : M.Store) {mult : Float} {d' : Desk Float S}
        → is_pos default ≡ true
        → resolve_leverage_multiplier N D json_loads M has_name default d st ≡ returned (mult, d')
        → (is_pos mult ≡ true) × (d' ≡ record d { leverage_multiplier = real mult })
    unfolding resolve_leverage_multiplier
    resolved_is_pos default d st h e =
        elim (Call-cases
          (fetch_saved_trading_configuration_for_leverage N D json_loads M has_name d st)) [
            | inl fails ↦ ground (arith, fails, coerce-Lifts d.leverage_multiplier)
            | inr (doc, found) ↦ elim (Option-cases doc) [
              | inl missing ↦ ground (arith, found, missing, coerce-Lifts d.leverage_multiplier)
              | inr (doc', is_doc) ↦
                  ground
                    (arith, found, is_doc, coerce-Lifts d.leverage_multiplier, from_doc-Lifts doc')
            ]
          ]

    -- If the default is positive, the leverage that the live trader resolves is positive, and
    -- every later resolution gives the same leverage and leaves the trader, whatever the default
    -- and the configurations are then.
    pub leverage_is_settled :
        (default : Float) (d : Desk Float S) (st : M.Store) {mult : Float} {d' : Desk Float S}
        → is_pos default ≡ true
        → resolve_leverage_multiplier N D json_loads M has_name default d st ≡ returned (mult, d')
        → (later_default : Float) (later : M.Store)
        → (is_pos mult ≡ true)
          × (resolve_leverage_multiplier N D json_loads M has_name later_default d' later
              ≡ returned (mult, d'))
    unfolding resolve_leverage_multiplier
    leverage_is_settled default d st h e later_default later =
        let (lifts, kept) = resolved_is_pos default d st h e in
        (lifts, ground (arith, kept, coerce_real _ lifts))
