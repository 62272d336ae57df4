-- ===== src/Cycle/Orders.antt =====
-- What the cycle does for one symbol: at most one order, which reserves its value or closes.
use mintzy_plugin_kelly_opt.Base.{
  ◌≡◌, refl, sym as path_sym, ap, subst, ◌⊎◌, inl, inr, Bool, true, Option, get_or, Call, returned,
  Call-cases, Bool-cases, Option-cases, arith,
}
use mintzy_plugin_kelly_opt.Base.Int.{ℤ, is_pos}
use mintzy_plugin_kelly_opt.Base.Text.{Text}
use mintzy_plugin_kelly_opt.Base.Dict.{lookup, insert}
use mintzy_plugin_kelly_opt.Number.{Number}
use mintzy_plugin_kelly_opt.Decimals.{Decimals, real}
use mintzy_plugin_kelly_opt.Pyramid.Document.{Root}
use mintzy_plugin_kelly_opt.Pyramid.Merge.{Mongo}
use mintzy_plugin_kelly_opt.OrderFill.{LiveTrader}
use mintzy_plugin_kelly_opt.Exposure.{
  CachedRow, Desk, stock_exposure, total_symbol_exposure, max_allowed, resolve_leverage_multiplier,
  can_reserve_exposure, reserve_exposure,
}
use mintzy_plugin_kelly_opt.Cycle.{
  Note, Cycle, queue_order, queue_stop, entry_note, entry_qty, queue_flip,
}
use mintzy_plugin_kelly_opt.Cycle.Trade.{queue_entry, open_position, expand_position}
use mintzy_plugin_kelly_opt.Cycle.Effects.{Slate, slate, Enters, Leaves}

module _ (N : Number) (D : Decimals N) (json_loads : Text → Call (Option (Root N.Float)))
    (M : Mongo N.Float) (has_name : Text → M.Store → Call Bool) (st : M.Store) {S : Type 0} where
  open N use {Float, zero, plus, le}

  resolve_leverage_multiplier_lem :
      (default : Float) (d : Desk Float S) {mult : Float} {d' : Desk Float S}
      → resolve_leverage_multiplier N D json_loads M has_name default d st ≡ returned (mult, d')
      → d' ≡ record d { leverage_multiplier = real mult }
  unfolding resolve_leverage_multiplier
  resolve_leverage_multiplier_lem default d h = ground arith

  can_reserve_lem :
      (sym : Text) (value : Float) (d : Desk Float S) {b : Bool} {d' : Desk Float S}
      → can_reserve_exposure N D json_loads M has_name sym value d st ≡ returned (b, d')
      → (mult : Float) × (d' ≡ record d { leverage_multiplier = real mult })
        × (b
            ≡ le
                (plus (total_symbol_exposure N D json_loads d' sym) value)
                (max_allowed N D json_loads d' mult))
  unfolding can_reserve_exposure
  can_reserve_lem sym value d h =
      elim (Call-cases
        (resolve_leverage_multiplier N D json_loads M has_name (D.decimal 40 1) d st)) [
          | inl e ↦ absurd (ground (arith, e, h))
          | inr ((mult, d1), e) ↦ (
            mult,
            ground (arith, resolve_leverage_multiplier_lem (D.decimal 40 1) d e, e, h),
            ground (arith, e, h),
          )
        ]

  reserve_order :
      (sym : Text) (note : Note Float) (category : Text) (c : Cycle Float S) (d : Desk Float S)
      → can_reserve_exposure N D json_loads M has_name sym note.order_value c.desk st
        ≡ returned (true, d)
      → Enters N D json_loads sym note.side (slate c) (
          queue_order sym note category
            (record c { desk = reserve_exposure N D json_loads sym note.order_value d }))
  unfolding queue_order reserve_exposure total_symbol_exposure stock_exposure max_allowed
  reserve_order sym note category c d h =
      let (mult, keep, fits) = can_reserve_lem sym note.order_value c.desk h in
      let same : d.trader ≡ c.desk.trader = ap (λ (x : Desk Float S). x.trader) keep in
      record {
        note = note;
        on_side = refl;
        queued = record { category = category; new_batch = refl; new_notes = refl };
        reserves = record {
          multiplier = mult;
          kept_multiplier = ap (λ (x : Desk Float S). x.leverage_multiplier) keep;
          within_cap =
              subst
                (λ (t : LiveTrader Float S).
                  le
                    (plus
                      (plus (stock_exposure N D json_loads d sym)
                        (get_or (lookup sym t.reserved_exposure) zero))
                      note.order_value)
                    (max_allowed N D json_loads d mult)
                  ≡ true)
                same (path_sym fits);
          reserved =
              ap
                (λ (t : LiveTrader Float S).
                  insert sym (plus (get_or (lookup sym t.reserved_exposure) zero) note.order_value)
                    t.reserved_exposure)
                same;
        };
      }

  entry_qty_lem :
      (sym : Text) (curr_price : Float) (c : Cycle Float S) {qty : ℤ} {c' : Cycle Float S}
      → entry_qty N D sym curr_price c ≡ returned (qty, c')
      → slate c' ≡ slate c
  unfolding entry_qty
  entry_qty_lem sym curr_price c h = ground arith

  queue_entry_lem :
      (sym action_type side : Text) (curr_price : Float) (qty : ℤ) (c : Cycle Float S)
      → let c' = queue_entry N D json_loads M has_name st sym action_type side curr_price qty c in
        (slate c' ≡ slate c) ⊎ Enters N D json_loads sym side (slate c) c'
  unfolding queue_entry entry_note
  queue_entry_lem sym action_type side curr_price qty c =
      let note = entry_note N D action_type side qty curr_price in
      elim (Bool-cases (is_pos qty)) [
        | inr none_left ↦ rw none_left (inl refl)
        | inl some_left ↦
            elim (Call-cases
              (can_reserve_exposure N D json_loads M has_name sym note.order_value c.desk st)) [
                | inl fails ↦ rw (some_left, fails) (inl refl)
                | inr ((b, d), says) ↦ elim (Bool-cases b) [
                  | inl fits ↦
                      let yes_says =
                        subst
                          (λ (x : Bool).
                            can_reserve_exposure N D json_loads M has_name sym note.order_value
                              c.desk st
                            ≡ returned (x, d))
                          fits says in
                      rw (some_left, yes_says) (inr (reserve_order sym note _ c d yes_says))
                  | inr full ↦
                      let keep = (can_reserve_lem sym note.order_value c.desk says).1 in
                      rw (some_left, says, full)
                        (inl (ap (λ (x : Desk Float S). slate (record c { desk = x })) keep))
                ]
              ]
      ]

  pub open_position_lem :
      (sym action_type side : Text) (curr_price : Float) (c : Cycle Float S)
      → let c' = open_position N D json_loads M has_name st sym action_type side curr_price c in
        (slate c' ≡ slate c) ⊎ Enters N D json_loads sym side (slate c) c'
  unfolding open_position
  open_position_lem sym action_type side curr_price c =
      elim (Call-cases (entry_qty N D sym curr_price c)) [
        | inl fails ↦ rw (fails, open_position) (inl refl)
        | inr ((qty, c1), sized) ↦
            let same : slate c1 ≡ slate c = entry_qty_lem sym curr_price c sized in
            rw (sized, open_position)
              (subst
                (λ (b : Slate Float).
                  let c' =
                    queue_entry N D json_loads M has_name st sym action_type side curr_price qty
                      c1 in
                  (slate c' ≡ b) ⊎ Enters N D json_loads sym side b c')
                same (queue_entry_lem sym action_type side curr_price qty c1))
      ]

  pub expand_position_lem :
      (sym action_type side : Text) (curr_price : Float) (c : Cycle Float S)
      → let c' = expand_position N D json_loads M has_name st sym action_type side curr_price c in
        (slate c' ≡ slate c) ⊎ Enters N D json_loads sym side (slate c) c'
  unfolding expand_position
  expand_position_lem sym action_type side curr_price c =
      elim (Option-cases (lookup sym c.symbol_qty)) [
        | inl missing ↦ rw (missing, expand_position) (inl refl)
        | inr (qty, fixed) ↦
            rw (fixed, expand_position) (queue_entry_lem sym action_type side curr_price qty c)
      ]

  pub queue_flip_lem :
      (sym action_type side : Text) (curr_price : Float) (p : CachedRow Float) (c : Cycle Float S)
      → Leaves N D json_loads sym side
          (slate c)
          (queue_flip N D sym action_type side curr_price p c)
  unfolding queue_flip queue_order
  queue_flip_lem sym action_type side curr_price p c = record {
    note = _;
    on_side = refl;
    queued = record { category = _; new_batch = refl; new_notes = refl };
    same_reserved = refl;
  }

  pub queue_stop_lem :
      (sym : Text) (curr_price : Float) (p : CachedRow Float) (exit_side : Text) (qty : ℤ)
      (c : Cycle Float S)
      → Leaves N D json_loads sym exit_side
          (slate c)
          (queue_stop N D sym curr_price p exit_side qty c)
  unfolding queue_stop queue_order
  queue_stop_lem sym curr_price p exit_side qty c = record {
    note = _;
    on_side = refl;
    queued = record { category = _; new_batch = refl; new_notes = refl };
    same_reserved = refl;
  }
