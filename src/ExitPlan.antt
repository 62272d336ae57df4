-- ===== src/ExitPlan.antt =====
-- utils/session_ledger.py, the end-of-day part: the allow-list of a session, the broker's positions
-- by symbol, and the plan of orders that flattens what the session itself holds.
pub mod Quantities
pub mod Build
use mintzy_plugin_kelly_opt.Base.{
  ℕ, suc, min, Bool, true, false, ◌&&◌, ◌||◌, not, Option, none, some, List, [], ◌∷◌, ◌++◌, map,
  is_empty, is_some, get_or, keep, collect, length, Call, if◌then◌else◌, leb, ltb, ◌==◌,
}
use mintzy_plugin_kelly_opt.Base.Int.{ℤ, pos, pos_part, neg_part, abs, is_pos, is_zero}
use mintzy_plugin_kelly_opt.Base.Text.{Text, codes, text_eq}
use mintzy_plugin_kelly_opt.Base.Dict.{Dict, lookup, insert, keys}
use mintzy_plugin_kelly_opt.Base.SymbolSet.{of_list, union, member}
use mintzy_plugin_kelly_opt.Redis.{Redis, SessionMeta}
use mintzy_plugin_kelly_opt.Symbols.{
  Environ, BrokerPosition, normalize_symbol, exit_only_session_symbols_enabled,
  get_session_symbols_from_redis,
}
use mintzy_plugin_kelly_opt.Ledger.{
  Trader, eod_use_session_ledger_enabled, get_trader_session_id, get_session_ledger,
  ledger_has_open_positions, entry, buy, sell,
}

-- A row of the plan. Quantities that the code has tested to be positive are plain numbers. A
-- missing price stands for 0.
pub record ExitRow (F : Type 0) : Type 0 where
  pub symbol : Text
  pub side : Text
  pub qty : ℕ
  pub exit_side : Text
  pub ltp : Option F
  pub ledger_qty : ℤ
  pub broker_qty : ℕ

-- The arguments of a call of `on_skip_summary`.
pub record SkipSummary : Type 0 where
  pub count : ℕ
  pub sample : List Text
  pub reason : Text

abbrev pub take : ℕ → List Text → List Text
take ℕ.zero xs = []
take (suc n) [] = []
take (suc n) (x ∷ xs) = x ∷ take n xs

-- `[s for s, q in ledger.items() if q != 0]`
unfoldable pub open_symbols : Dict ℤ → List Text
open_symbols [] = []
open_symbols ((s, q) ∷ d) = let rest = open_symbols d in if is_zero q then rest else s ∷ rest

-- The last position of each normalized symbol.
unfoldable pub positions_map_from :
    {F : Type 0} → Dict (BrokerPosition F) → List (BrokerPosition F) → Dict (BrokerPosition F)
positions_map_from out [] = out
positions_map_from out (p ∷ ps) =
    let sym = normalize_symbol p.symbol in
    positions_map_from (if is_empty sym then out else insert sym p out) ps

unfoldable pub broker_positions_to_map :
    {F : Type 0} → List (BrokerPosition F) → Dict (BrokerPosition F)
unfolding positions_map_from
broker_positions_to_map = positions_map_from []

abbrev pub opposite : Text → Text
opposite side = if text_eq side buy then sell else buy

-- The broker's quantity, side and price of a symbol, with what a missing position stands for.
abbrev pub qty_of : {F : Type 0} → Option (BrokerPosition F) → ℤ
qty_of none = pos 0
qty_of (some p) = p.qty

abbrev pub side_of : {F : Type 0} → Option (BrokerPosition F) → Text
side_of none = buy
side_of (some p) = get_or p.side buy

abbrev pub ltp_of : {F : Type 0} → Option (BrokerPosition F) → Option F
ltp_of none = none
ltp_of (some p) = p.ltp

-- The legacy loop over all broker positions.
unfoldable pub legacy_row : {F : Type 0} → BrokerPosition F → Option (ExitRow F)
legacy_row p =
    let sym = normalize_symbol p.symbol in
    let side = get_or p.side buy in
    if is_empty sym
    then none
    else if not (is_pos p.qty)
    then none
    else some (record {
      symbol = sym;
      side = side;
      qty = pos_part p.qty;
      exit_side = opposite side;
      ltp = p.ltp;
      ledger_qty = p.qty;
      broker_qty = pos_part p.qty;
    })

-- The body of the loop over the symbols to check, in the ledger mode.
unfoldable pub ledger_row :
    {F : Type 0} → List Text → Dict ℤ → Dict (BrokerPosition F) → Text → Option (ExitRow F)
ledger_row allowed ledger broker_map sym =
    let ledger_qty = entry sym ledger in
    let broker_pos = lookup sym broker_map in
    let broker_qty = qty_of broker_pos in
    let broker_side = side_of broker_pos in
    let expected_side = if is_pos ledger_qty then buy else sell in
    let exit_side = if is_pos ledger_qty then sell else buy in
    let exit_qty = min (abs ledger_qty) (pos_part broker_qty) in
    if not (member sym allowed)
    then none
    else if is_zero ledger_qty
    then none
    else if not (is_pos broker_qty)
    then none
    else if not (text_eq broker_side expected_side)
    then none
    else if leb exit_qty 0
    then none
    else some (record {
      symbol = sym;
      side = broker_side;
      qty = exit_qty;
      exit_side = exit_side;
      ltp = ltp_of broker_pos;
      ledger_qty = ledger_qty;
      broker_qty = pos_part broker_qty;
    })

-- The symbols that the same loop puts into its skip summary: allowed, flat in the ledger, and held at
-- the broker.
unfoldable pub is_manual : {F : Type 0} → List Text → Dict ℤ → Dict (BrokerPosition F) → Text → Bool
is_manual allowed ledger broker_map sym =
    member sym allowed && (is_zero (entry sym ledger) && is_pos (qty_of (lookup sym broker_map)))

-- The body of the loop without the ledger.
unfoldable pub broker_row :
    {F : Type 0} → Dict ℤ → Dict (BrokerPosition F) → Text → Option (ExitRow F)
broker_row ledger broker_map sym = elim (lookup sym broker_map) [
  | none ↦ none
  | some p ↦
      let side = get_or p.side buy in
      if not (is_pos p.qty)
      then none
      else some (record {
        symbol = sym;
        side = side;
        qty = pos_part p.qty;
        exit_side = opposite side;
        ltp = p.ltp;
        ledger_qty = entry sym ledger;
        broker_qty = pos_part p.qty;
      })
]

unfoldable pub manual_summary : List Text → List SkipSummary
manual_summary [] = []
manual_summary (s ∷ skipped) =
    record {
      count = length (s ∷ skipped);
      sample = take 5 (s ∷ skipped);
      reason = codes "ledger_zero";
    }
    ∷ []

-- The plan and the skip summaries, from the allow-list.
unfoldable pub plan_from :
    {F : Type 0}
    → Bool
    → List Text
    → Dict ℤ
    → Dict (BrokerPosition F)
    → List (ExitRow F) × List SkipSummary
plan_from use_ledger allowed ledger broker_map =
    let symbols_to_check = of_list (union allowed (open_symbols ledger)) in
    if use_ledger
    then (
      collect (ledger_row allowed ledger broker_map) symbols_to_check,
      manual_summary (keep (is_manual allowed ledger broker_map) symbols_to_check),
    )
    else (collect (broker_row ledger broker_map) (of_list allowed), [])

module _ (R : Redis) (json_loads : Text → Call SessionMeta) where
  open R use {Store}

  unfoldable pub resolve_session_allow_list : Trader → Option Store → List Text → List Text
  resolve_session_allow_list t client fallback_symbols =
      get_session_symbols_from_redis R json_loads client (get_trader_session_id t) fallback_symbols
        (open_symbols (get_session_ledger t))

  -- The allow-list, or the ledger's own open symbols where it is empty.
  unfoldable pub effective_allow_list : Trader → Option Store → List Text → List Text
  unfolding resolve_session_allow_list
  effective_allow_list t client fallback_symbols =
      let allowed = resolve_session_allow_list t client fallback_symbols in
      if is_empty allowed && ledger_has_open_positions t
      then of_list (map normalize_symbol (open_symbols (get_session_ledger t)))
      else allowed

  -- The report that the allow-list was empty while the ledger was open.
  unfoldable pub fallback_summaries : Trader → Option Store → List Text → List SkipSummary
  unfolding resolve_session_allow_list
  fallback_summaries t client fallback_symbols =
      if is_empty (resolve_session_allow_list t client fallback_symbols)
        && ledger_has_open_positions t
      then record { count = 0; sample = []; reason = codes "ledger_fallback" } ∷ []
      else []

  -- The plan, and the arguments of the calls of `on_skip_summary` in their order. Where the caller
  -- passes no such callback it drops them.
  unfoldable pub build_eod_exit_plan :
      {F : Type 0}
      → Environ
      → Trader
      → Option Store
      → List (BrokerPosition F)
      → List Text
      → List (ExitRow F) × List SkipSummary
  build_eod_exit_plan environ t client broker_positions fallback_symbols =
      let allowed = effective_allow_list t client fallback_symbols in
      let ledger = get_session_ledger t in
      let broker_map = broker_positions_to_map broker_positions in
      let (plan, summaries) =
        plan_from (eod_use_session_ledger_enabled environ) allowed ledger broker_map in
      if not (exit_only_session_symbols_enabled environ)
      then (collect legacy_row broker_positions, [])
      else (plan, fallback_summaries t client fallback_symbols ++ summaries)
