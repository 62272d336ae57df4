-- ===== src/Cycle/Symbols.antt =====
-- What the cycle does for a symbol, on each of its paths.
use mintzy_plugin_kelly_opt.Base.{
  ◌≡◌, refl, sym as path_sym, ◌∙◌, subst, ◌⊎◌, inl, inr, ◌==◌, Bool, true, ◌&&◌, not, Option, none,
  some, Call, Bool-cases, and_parts, arith, if◌then◌else◌,
}
use mintzy_plugin_kelly_opt.Base.Int.{ℤ, pos_part, is_zero}
use mintzy_plugin_kelly_opt.Base.Text.{Text, codes, text_eq, text_eq_iff}
use mintzy_plugin_kelly_opt.Base.Dict.{contains}
use mintzy_plugin_kelly_opt.Base.SymbolSet.{member}
use mintzy_plugin_kelly_opt.Symbols.{normalize_symbol}
use mintzy_plugin_kelly_opt.Ledger.{buy, sell}
use mintzy_plugin_kelly_opt.Number.{Number}
use mintzy_plugin_kelly_opt.Decimals.{Decimals}
use mintzy_plugin_kelly_opt.Pyramid.Document.{Root}
use mintzy_plugin_kelly_opt.Pyramid.Merge.{Mongo}
use mintzy_plugin_kelly_opt.Exposure.{CachedRow}
use mintzy_plugin_kelly_opt.Analysis.{Info, cached_row}
use mintzy_plugin_kelly_opt.Cycle.{
  queue_flip, Cycle, StopCheck, left_alone, not_hit, hit, held_row, check_stop,
}
use mintzy_plugin_kelly_opt.Cycle.Trade.{
  expand_position, expand_same_side, follow_signal, stop_or_follow, follow_broker, trade_symbol,
}
use mintzy_plugin_kelly_opt.Cycle.Effects.{Slate, slate, Enters, Leaves}
use mintzy_plugin_kelly_opt.Cycle.Orders.{
  open_position_lem, expand_position_lem, queue_flip_lem, queue_stop_lem,
}

abbrev pub opposite : Text → Text
opposite side = if text_eq side buy then sell else buy

StopCheck-cases :
    (s : StopCheck)
    → (s ≡ left_alone) ⊎ ((s ≡ not_hit) ⊎ ((side : Text) × (qty : ℤ) × (s ≡ hit side qty)))
StopCheck-cases left_alone = inl refl
StopCheck-cases not_hit = inr (inl refl)
StopCheck-cases (hit side qty) = inr (inr (side, qty, refl))

-- An entry takes the signal's side where nothing is held, or expands a position of that side.
abbrev pub Joins : {F : Type 0} → Info F → Option (CachedRow F) → Type 0
Joins info none = Unit
Joins info (some p) = (p.row.side ≡ info.signal) × (pos_part info.risk_regime ≡ 2)

opposite-sell : (side : Text) → text_eq side sell ≡ true → buy ≡ opposite side
unfolding text_eq
opposite-sell side e = rw ((text_eq_iff side sell).0 e) refl

opposite-buy : (side : Text) → text_eq side buy ≡ true → sell ≡ opposite side
opposite-buy side e = rw e refl

module _ (N : Number) (D : Decimals N) (json_loads : Text → Call (Option (Root N.Float)))
    (M : Mongo N.Float) (has_name : Text → M.Store → Call Bool) (st : M.Store) {S : Type 0}
    (sym : Text) (info : Info N.Float) where
  open N use {Float}

  -- No order; an order that enters on the signal's side; or one that leaves a held position.
  abbrev pub Outcome : Option (CachedRow Float) → Slate Float → Cycle Float S → Type 0
  Outcome held before c =
      (slate c ≡ before)
      ⊎ ((Enters N D json_loads sym info.signal before c × Joins info held)
          ⊎ ((p : CachedRow Float) × (held ≡ some p)
              × Leaves N D json_loads sym (opposite p.row.side) before c))

  entered :
      (held : Option (CachedRow Float)) (side : Text) (before : Slate Float) (c : Cycle Float S)
      → info.signal ≡ side
      → Joins info held
      → (slate c ≡ before) ⊎ Enters N D json_loads sym side before c
      → Outcome held before c
  entered held side before c e j (inl same) = inl same
  entered held side before c e j (inr enters) =
      inr (inl (subst (λ (x : Text). Enters N D json_loads sym x before c) (path_sym e) enters, j))

  left :
      (p : CachedRow Float) (side : Text) (before : Slate Float) (c : Cycle Float S)
      → side ≡ opposite p.row.side
      → Leaves N D json_loads sym side before c
      → Outcome (some p) before c
  left p side before c e leaves =
      inr (inr (p, refl, subst (λ (x : Text). Leaves N D json_loads sym x before c) e leaves))

  -- The two sides of an expansion.
  expanded :
      (p : CachedRow Float) (action_type side : Text) (c : Cycle Float S)
      → (text_eq info.signal side && text_eq p.row.side side) ≡ true
      → pos_part info.risk_regime ≡ 2
      → Outcome
          (some p)
          (slate c)
          (expand_position N D json_loads M has_name st sym action_type side info.curr_price c)
  expanded p action_type side c both two =
      let (signals, holds) = and_parts _ _ both in
      let signal_eq = (text_eq_iff info.signal side).0 signals in
      entered (some p) side (slate c) _ signal_eq
        ((text_eq_iff p.row.side side).0 holds ∙ path_sym signal_eq, two)
        (expand_position_lem N D json_loads M has_name st sym action_type side info.curr_price c)

  flipped :
      (p : CachedRow Float) (action_type side : Text) (c : Cycle Float S)
      → side ≡ opposite p.row.side
      → Outcome (some p) (slate c) (queue_flip N D sym action_type side info.curr_price p c)
  flipped p action_type side c e =
      left p side (slate c) _ e
        (queue_flip_lem N D json_loads M has_name st sym action_type side info.curr_price p c)

  expand_same_side_lem :
      (p : CachedRow Float) (c : Cycle Float S)
      → Outcome (some p) (slate c) (expand_same_side N D json_loads M has_name st sym info p c)
  unfolding expand_same_side text_eq
  expand_same_side_lem p c = elim (Bool-cases (not (pos_part info.risk_regime == 2))) [
    | inl h ↦ rw (h, expand_same_side) (inl refl)
    | inr two ↦ elim (Bool-cases (text_eq info.signal buy && text_eq p.row.side buy)) [
      | inl h ↦
          rw (two, h, expand_same_side)
            (expanded p (codes "EXPAND_LONG") buy c h (ground (arith, two)))
      | inr h2 ↦ elim (Bool-cases (text_eq info.signal sell && text_eq p.row.side sell)) [
        | inl h ↦
            rw (two, h2, h, expand_same_side)
              (expanded p (codes "EXPAND_SHORT") sell c h (ground (arith, two)))
        | inr h3 ↦ rw (two, h2, h3, expand_same_side) (inl refl)
      ]
    ]
  ]

  follow_signal_lem :
      (held : Option (CachedRow Float)) (c : Cycle Float S)
      → Outcome held (slate c) (follow_signal N D json_loads M has_name st sym info held c)
  unfolding follow_signal text_eq
  follow_signal_lem none c = elim (Bool-cases (text_eq info.signal buy)) [
    | inl b ↦
        rw (b, follow_signal)
          (entered none buy (slate c) _ ((text_eq_iff info.signal buy).0 b) tt (
            open_position_lem N D json_loads M has_name st sym (codes "OPEN_LONG") buy
              info.curr_price c))
    | inr nb ↦ elim (Bool-cases (text_eq info.signal sell)) [
      | inl s ↦
          rw (nb, s, follow_signal)
            (entered none sell (slate c) _ ((text_eq_iff info.signal sell).0 s) tt (
              open_position_lem N D json_loads M has_name st sym (codes "OPEN_SHORT") sell
                info.curr_price c))
      | inr ns ↦ rw (nb, ns, follow_signal) (inl refl)
    ]
  ]
  follow_signal_lem (some p) c =
      elim (Bool-cases (text_eq info.signal sell && text_eq p.row.side buy)) [
        | inl h ↦
            rw (h, follow_signal)
              (flipped p (codes "FLIP_TO_SHORT") sell c
                (opposite-buy p.row.side (and_parts _ _ h).1))
        | inr h0 ↦ elim (Bool-cases (text_eq info.signal buy && text_eq p.row.side sell)) [
          | inl h ↦
              rw (h0, h, follow_signal)
                (flipped p (codes "FLIP_TO_LONG") buy c
                  (opposite-sell p.row.side (and_parts _ _ h).1))
          | inr h1 ↦ rw (h0, h1, follow_signal) (expand_same_side_lem p c)
        ]
      ]

  check_stop_lem :
      (curr_price : Float) (p : CachedRow Float) (c : Cycle Float S) {exit_side : Text} {qty : ℤ}
      → check_stop N D sym curr_price p c ≡ hit exit_side qty
      → exit_side ≡ opposite p.row.side
  unfolding check_stop
  check_stop_lem curr_price p c h = ground arith

  stop_or_follow_lem :
      (held : Option (CachedRow Float)) (c : Cycle Float S)
      → Outcome held (slate c) (stop_or_follow N D json_loads M has_name st sym info held c)
  unfolding stop_or_follow
  stop_or_follow_lem none c = elim (Bool-cases (contains sym c.pending)) [
    | inl waits ↦ rw (waits, stop_or_follow) (inl refl)
    | inr free ↦ rw (free, stop_or_follow) (follow_signal_lem none c)
  ]
  stop_or_follow_lem (some p) c = elim (StopCheck-cases (check_stop N D sym info.curr_price p c)) [
    | inl e ↦ rw (e, stop_or_follow) (inl refl)
    | inr (inr (exit_side, qty, e)) ↦
        rw (e, stop_or_follow)
          (left p exit_side (slate c) _ (check_stop_lem info.curr_price p c e)
            (queue_stop_lem N D json_loads M has_name st sym info.curr_price p exit_side qty c))
    | inr (inl e) ↦ elim (Bool-cases (contains sym c.pending)) [
      | inl waits ↦ rw (e, waits, stop_or_follow) (inl refl)
      | inr free ↦ rw (e, free, stop_or_follow) (follow_signal_lem (some p) c)
    ]
  ]

  pub follow_broker_lem :
      (held : Option (CachedRow Float)) (c : Cycle Float S)
      → (slate (follow_broker N D json_loads M has_name st sym held c) ≡ slate c)
        × ((follow_broker N D json_loads M has_name st sym held c).pending ≡ c.pending)
  unfolding follow_broker
  follow_broker_lem held c = (ground arith, ground arith)

  -- For a symbol the cycle queues no order and reserves nothing; or it queues one on the side of
  -- the signal, for a symbol that the broker does not hold or, in regime 2, holds on that side,
  -- and reserves exactly its value, with which the exposure is within the cap; or it queues one on
  -- the opposite side of the position that the broker holds, and reserves nothing.
  pub order_enters_or_leaves :
      (c : Cycle Float S)
      → Outcome
          (held_row (cached_row N D sym c.desk.broker_positions_cache))
          (slate c)
          (trade_symbol N D json_loads M has_name st sym info c)
  unfolding trade_symbol
  order_enters_or_leaves c =
      let held = held_row (cached_row N D sym c.desk.broker_positions_cache) in
      let c1 = follow_broker N D json_loads M has_name st sym held c in
      let same = (follow_broker_lem held c).0 in
      elim (Bool-cases (member (normalize_symbol sym) c.exited_symbols)) [
        | inl gone ↦ rw (gone, trade_symbol) (inl refl)
        | inr stays ↦ elim (Bool-cases (is_zero info.risk_regime)) [
          | inl quiet ↦ rw (stays, quiet, trade_symbol) (inl same)
          | inr trades ↦
              rw (stays, trades, trade_symbol)
                (subst
                  (λ (b : Slate Float).
                    Outcome held b (stop_or_follow N D json_loads M has_name st sym info held c1))
                  same (stop_or_follow_lem held c1))
        ]
      ]
