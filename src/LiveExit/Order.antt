-- ===== src/LiveExit/Order.antt =====
-- The order of a single exit: what it is allowed to be.
use mintzy_plugin_kelly_opt.Base.{
  ℕ, ◌≤◌, ◌≡◌, ◌⊎◌, inl, inr, refl, false, none, some, List, [], ◌∷◌, Call, if◌then◌else◌,
  Option-cases, arith, Bool-cases,
}
use mintzy_plugin_kelly_opt.Base.Int.{pos_part, abs, is_pos, is_zero}
use mintzy_plugin_kelly_opt.Base.Text.{Text, text_eq, text_eq_iff, upper, drop_eq_suffix}
use mintzy_plugin_kelly_opt.Base.Dict.{Dict, lookup}
use mintzy_plugin_kelly_opt.Symbols.{Environ}
use mintzy_plugin_kelly_opt.Redis.{Redis}
use mintzy_plugin_kelly_opt.Ledger.{buy, sell}
use mintzy_plugin_kelly_opt.Number.{Number}
use mintzy_plugin_kelly_opt.Decimals.{Decimals}
use mintzy_plugin_kelly_opt.OrderBatcher.{OrderRequest}
use mintzy_plugin_kelly_opt.Executor.{OrderResult}
use mintzy_plugin_kelly_opt.OrderFill.{own_open_qty, exit_qty_for}
use mintzy_plugin_kelly_opt.Exposure.{CachedRow, Desk}
use mintzy_plugin_kelly_opt.Cycle.{Cycle}
use mintzy_plugin_kelly_opt.LiveExit.{PositionsReply, get_broker_positions}
use mintzy_plugin_kelly_opt.LiveExit.Target.{
  named_row, refresh, engine_target, find_target, exit_note, exit_request,
}
use mintzy_plugin_kelly_opt.LiveExit.Single.{exit_single_position}
use mintzy_plugin_kelly_opt.LiveExit.Rows.{
  IsIntraday, rows_of, get_broker_positions-IsIntraday, named_row-All,
}

-- A position of a quantity on one of the two sides.
abbrev pub IsOpen : {F : Type 0} → CachedRow F → Type 0
IsOpen p = (1 ≤ pos_part p.row.qty) × ((p.row.side ≡ buy) ⊎ (p.row.side ≡ sell))

IsIntraday-IsOpen :
    (N : Number) (D : Decimals N) {data_rows : _} (p : CachedRow N.Float)
    → IsIntraday N D data_rows p
    → IsOpen p
IsIntraday-IsOpen N D p h =
    let has_side = h.has_side in
    let has_qty = h.has_qty in
    let not_flat = h.not_flat in
    (
      ground arith,
      elim (Bool-cases (is_pos h.net)) [
        | inl up ↦ inl (ground arith)
        | inr down ↦ inr (ground arith)
      ],
    )

module _ (N : Number) (D : Decimals N) {S : Type 0} (symbol : Text) where
  open N use {Float}

  -- The first row of the broker's list for the symbol, or, where there is none, the trader's own
  -- position.
  abbrev pub Holds : Desk Float S → CachedRow Float → Type 0
  Holds d p =
      (named_row symbol d.broker_positions_cache ≡ some p)
      ⊎ ((named_row symbol d.broker_positions_cache ≡ none)
          × ((q : _) × (lookup symbol d.trader.account.positions ≡ some q)
              × (p.row.side ≡ q.side)
              × (p.row.qty ≡ q.qty)))

  -- An order for the symbol that exits an open position: it is on the opposite side, of a quantity
  -- from 1 up to that of the position, and to that of the session's ledger where this is not 0.
  pub record Closes (d : Desk Float S) (o : OrderRequest) : Type 0 where
    pub target : CachedRow Float
    pub is_held : Holds d target
    pub is_open : IsOpen target
    pub of_symbol : o.symbol ≡ symbol
    pub opposite_side : o.side ≡ (if text_eq target.row.side buy then sell else buy)
    pub not_empty : 1 ≤ pos_part o.qty
    pub within_position : pos_part o.qty ≤ pos_part target.row.qty
    pub within_ledger :
        is_zero (own_open_qty d.trader.ledger symbol) ≡ false
        → pos_part o.qty ≤ abs (own_open_qty d.trader.ledger symbol)

  engine_target-IsOpen :
      (cycle_ltp : Dict Float) (d : Desk Float S) (p : CachedRow Float)
      → engine_target N D symbol cycle_ltp d ≡ some p
      → IsOpen p
  unfolding engine_target
  engine_target-IsOpen cycle_ltp d p h =
      elim (Option-cases (lookup symbol d.trader.account.positions)) [
        | inl missing ↦ ground arith
        | inr (q, held) ↦ ground (arith, text_eq_iff q.side buy, text_eq_iff q.side sell)
      ]

  engine_target-Holds :
      (cycle_ltp : Dict Float) (d : Desk Float S) (p : CachedRow Float)
      → named_row symbol d.broker_positions_cache ≡ none
      → engine_target N D symbol cycle_ltp d ≡ some p
      → Holds d p
  unfolding engine_target
  engine_target-Holds cycle_ltp d p none_listed h =
      elim (Option-cases (lookup symbol d.trader.account.positions)) [
        | inl missing ↦ ground arith
        | inr (q, held) ↦ inr (none_listed, (q, held, ground arith, ground arith))
      ]

  find_target_lem :
      (reply : PositionsReply Float) (cycle_ltp : Dict Float) (c : Cycle Float S)
      (p : CachedRow Float)
      → find_target N D symbol cycle_ltp (refresh N D reply c).desk ≡ some p
      → Holds (refresh N D reply c).desk p × IsOpen p
  unfolding find_target refresh
  find_target_lem reply cycle_ltp c p h =
      let d = (refresh N D reply c).desk in
      elim (Option-cases (named_row symbol (get_broker_positions N D reply))) [
        | inl missing ↦
            let k : engine_target N D symbol cycle_ltp d ≡ some p = ground arith in
            (engine_target-Holds cycle_ltp d p missing k, engine_target-IsOpen cycle_ltp d p k)
        | inr (q, listed) ↦
            let k : named_row symbol (get_broker_positions N D reply) ≡ some p = ground arith in
            (
              inl k,
              IsIntraday-IsOpen N D p (
                  named_row-All N D (IsIntraday N D (rows_of reply)) symbol
                    (get_broker_positions N D reply) (get_broker_positions-IsIntraday N D reply) k),
            )
      ]

  exit_note-Closes :
      (c : Cycle Float S) (p : CachedRow Float)
      → Holds c.desk p
      → IsOpen p
      → Closes c.desk (exit_request N D symbol (exit_note N D symbol p c.desk) c)
  unfolding exit_note exit_request exit_qty_for
  exit_note-Closes c p held opened = record {
    target = p;
    is_held = held;
    is_open = opened;
    of_symbol = refl;
    opposite_side = refl;
    not_empty = ground arith;
    within_position = ground arith;
    within_ledger = ground arith;
  }

module _ (N : Number) (D : Decimals N) (R : Redis) (environ : Environ) where
  open N use {Float}
  open R use {Store}

  -- The exit of a symbol does not depend on what the executor answers to anything but a single
  -- order for that symbol, on the side opposite to the open position that the broker lists for it,
  -- or, if the broker lists none, that the trader's own book has, of a quantity from 1 up to that
  -- of the position and, where the session ledger has one, to that of the ledger.
  pub only_closing_orders_are_sent :
      (s : Text) (reply : PositionsReply Float) (cycle_ltp : Dict Float)
      (submit submit' : List OrderRequest → Call (List OrderResult)) (now : ℕ)
      (c : Cycle Float Store)
      → ((o : OrderRequest)
          → Closes N D (drop_eq_suffix (upper s)) (refresh N D reply c).desk o
          → submit (o ∷ []) ≡ submit' (o ∷ []))
      → exit_single_position N D R environ s reply cycle_ltp submit now c
        ≡ exit_single_position N D R environ s reply cycle_ltp submit' now c
  unfolding exit_single_position
  only_closing_orders_are_sent s reply cycle_ltp submit submit' now c agree =
      let symbol = drop_eq_suffix (upper s) in
      let c1 = refresh N D reply c in
      elim (Option-cases (find_target N D symbol cycle_ltp c1.desk)) [
        | inl missing ↦ rw (missing, exit_single_position) refl
        | inr (p, found) ↦
            let (held, opened) = find_target_lem N D symbol reply cycle_ltp c p found in
            let note = exit_note N D symbol p c1.desk in
            let same =
              agree (exit_request N D symbol note c1)
                (exit_note-Closes N D symbol c1 p held opened) in
            rw (found, exit_single_position, same) refl
      ]
