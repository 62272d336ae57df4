-- ===== src/Cycle/Once.antt =====
-- How many orders a cycle sends for a symbol.
use mintzy_plugin_kelly_opt.Base.{
  ℕ, ◌+◌, ◌≤◌, ◌≡◌, ap, ◌∙◌, inl, inr, Bool, false, ◌&&◌, ◌||◌, not, Option, none, some, List, [],
  ◌∷◌, ◌++◌, Call, Bool-cases, arith, subst,
}
use mintzy_plugin_kelly_opt.Base.Int.{is_zero}
use mintzy_plugin_kelly_opt.Base.Text.{Text, codes, text_eq, text_eq_iff, text_eq_refl}
use mintzy_plugin_kelly_opt.Base.Dict.{Dict, lookup, contains, HasUniqueKeys, insert-HasUniqueKeys}
use mintzy_plugin_kelly_opt.Base.SymbolSet.{member}
use mintzy_plugin_kelly_opt.Symbols.{normalize_symbol}
use mintzy_plugin_kelly_opt.Number.{Number}
use mintzy_plugin_kelly_opt.Decimals.{Decimals}
use mintzy_plugin_kelly_opt.Pyramid.Document.{Root}
use mintzy_plugin_kelly_opt.Pyramid.Merge.{Mongo}
use mintzy_plugin_kelly_opt.OrderBatcher.{
  OrderRequest, OrderBatcher, empty, add_order, get_all_orders,
}
use mintzy_plugin_kelly_opt.Executor.Conserved.{orders_with, orders_with-append, as_one}
use mintzy_plugin_kelly_opt.PaperEngine.{OpenPosition}
use mintzy_plugin_kelly_opt.OrderFill.{Pending}
use mintzy_plugin_kelly_opt.Analysis.{Forecast, Info, analyze, add_signal, info_of}
use mintzy_plugin_kelly_opt.Cycle.{Note, Cycle}
use mintzy_plugin_kelly_opt.Cycle.Trade.{trade_symbol, trade_symbols}
use mintzy_plugin_kelly_opt.Cycle.Results.{orders_to_send}
use mintzy_plugin_kelly_opt.Cycle.Effects.{Slate, slate, Queued}
use mintzy_plugin_kelly_opt.Cycle.Symbols.{order_enters_or_leaves}
use mintzy_plugin_kelly_opt.Cycle.Frame.{round, is_barred, trade_symbol-round, barred_lem}

module _ (p : Text → ℕ → Bool) where
  -- The orders of the four queues that pass a test.
  abbrev batch_with : OrderBatcher → ℕ
  batch_with b =
      orders_with p b.buy_orders
      + orders_with p b.sell_orders
      + orders_with p b.cover_orders
      + orders_with p b.exit_orders

  batch_with-add_order :
      (b : OrderBatcher) (o : OrderRequest) (category : Text)
      → batch_with (add_order b o category) ≡ batch_with b + as_one (p o.symbol o.tag)
  unfolding add_order
  batch_with-add_order b o category = ground (
    arith,
    orders_with-append p b.buy_orders (o ∷ []),
    orders_with-append p b.sell_orders (o ∷ []),
    orders_with-append p b.cover_orders (o ∷ []),
    orders_with-append p b.exit_orders (o ∷ []),
  )

  sent_with :
      (b : OrderBatcher) → orders_with p (get_all_orders b (codes "exit_first")) ≡ batch_with b
  unfolding get_all_orders text_eq
  sent_with b = omega (
    arith,
    orders_with-append p b.exit_orders (b.cover_orders ++ (b.sell_orders ++ b.buy_orders)),
    orders_with-append p b.cover_orders (b.sell_orders ++ b.buy_orders),
    orders_with-append p b.sell_orders b.buy_orders,
  )

-- The orders of a symbol.
abbrev pub is_for : Text → Text → ℕ → Bool
is_for s symbol tag = text_eq symbol s

-- Whether the signals may lead to an order of the symbol: they have it, outside the quiet regime,
-- it has no pending order, and it is not exited.
abbrev tradable : {F : Type 0} → Text → Dict (Info F) → Dict (List (Pending F)) × List Text → Bool
tradable s signals r = elim (lookup s signals) [
  | none ↦ false
  | some info ↦
      not (contains s r.0 || (member (normalize_symbol s) r.1 || is_zero info.risk_regime))
]

abbrev pub may_trade : {F S : Type 0} → Text → Dict (Info F) → Cycle F S → Bool
may_trade s signals c = tradable s signals (round c)

module _ (N : Number) (D : Decimals N) where
  open N use {Float}

  add_signal-HasUniqueKeys :
      (min_trade_pct : Float) (live_price : Option Float) (f : Forecast Float)
      (positions : Dict (OpenPosition Float)) (path : List Float) (signals : Dict (Info Float))
      → HasUniqueKeys signals
      → HasUniqueKeys (add_signal N D min_trade_pct live_price f positions path signals)
  unfolding add_signal
  add_signal-HasUniqueKeys m l f ps [] signals h = h
  add_signal-HasUniqueKeys m l f ps (p0 ∷ []) signals h = h
  add_signal-HasUniqueKeys m l f ps (p0 ∷ p1 ∷ []) signals h = h
  add_signal-HasUniqueKeys m l f ps (p0 ∷ p1 ∷ p2 ∷ []) signals h = h
  add_signal-HasUniqueKeys m l f ps (p0 ∷ p1 ∷ p2 ∷ p3 ∷ path) signals h =
      insert-HasUniqueKeys f.ticker (info_of N D m ps l f p0 p3) signals h

  analyze-HasUniqueKeys :
      (min_trade_pct : Float) (live_price : Text → Option Float) (fs : List (Forecast Float))
      (positions : Dict (OpenPosition Float)) (signals : Dict (Info Float))
      → HasUniqueKeys signals
      → HasUniqueKeys (analyze N D min_trade_pct live_price fs positions signals)
  unfolding analyze
  analyze-HasUniqueKeys m l [] ps signals h = h
  analyze-HasUniqueKeys m l (f ∷ fs) ps signals h =
      analyze-HasUniqueKeys m l fs ps _
        (add_signal-HasUniqueKeys m (l f.ticker) f ps f.predicted_path signals h)

module _ (N : Number) (D : Decimals N) (json_loads : Text → Call (Option (Root N.Float)))
    (M : Mongo N.Float) (has_name : Text → M.Store → Call Bool) (st : M.Store) {S : Type 0} where
  open N use {Float}

  Queued-count :
      (s sym : Text) (note : Note Float) (c c' : Cycle Float S)
      → Queued N D json_loads sym note (slate c) c'
      → batch_with (is_for s) c'.batch ≡ batch_with (is_for s) c.batch + as_one (text_eq sym s)
  Queued-count s sym note c c' q =
      ap (batch_with (is_for s)) q.new_batch ∙ batch_with-add_order (is_for s) c.batch _ q.category

  trade_symbol-count :
      (s sym : Text) (info : Info Float) (c : Cycle Float S)
      → let c' = trade_symbol N D json_loads M has_name st sym info c in
        batch_with (is_for s) c'.batch
        ≤ batch_with (is_for s) c.batch
          + as_one (text_eq sym s && not (is_barred N D json_loads M has_name st sym info c))
  trade_symbol-count s sym info c =
      let c' = trade_symbol N D json_loads M has_name st sym info c in
      elim (Bool-cases (is_barred N D json_loads M has_name st sym info c)) [
        | inl barred ↦ omega (
          arith,
          ap (λ (b : Slate Float). batch_with (is_for s) b.batch)
              (barred_lem N D json_loads M has_name st sym info c barred),
        )
        | inr free ↦ elim (order_enters_or_leaves N D json_loads M has_name st sym info c) [
          | inl same ↦ omega (arith, ap (λ (b : Slate Float). batch_with (is_for s) b.batch) same)
          | inr (inl (enters, joins)) ↦
              ground (arith, free, Queued-count s sym enters.note c c' enters.queued)
          | inr (inr (held, is_held, leaves)) ↦
              ground (arith, free, Queued-count s sym leaves.note c c' leaves.queued)
        ]
      ]

  -- The rest of the loop after the symbol's own turn.
  trade_head :
      (sym : Text) (info : Info Float) (signals : Dict (Info Float)) (c : Cycle Float S)
      → let c1 = trade_symbol N D json_loads M has_name st sym info c in
        let c' = trade_symbols N D json_loads M has_name st signals c1 in
        lookup sym signals ≡ none
        → batch_with (is_for sym) c'.batch
          ≤ batch_with (is_for sym) c1.batch + as_one (tradable sym signals (round c1))
        → batch_with (is_for sym) c'.batch
          ≤ batch_with (is_for sym) c.batch + as_one (may_trade sym ((sym, info) ∷ signals) c)
  unfolding lookup
  trade_head sym info signals c gone rest =
      ground (arith, rest, gone, trade_symbol-count sym sym info c, text_eq_refl sym)

  trade_symbols-count :
      (s : Text) (signals : Dict (Info Float)) (c : Cycle Float S)
      → HasUniqueKeys signals
      → batch_with (is_for s) (trade_symbols N D json_loads M has_name st signals c).batch
        ≤ batch_with (is_for s) c.batch + as_one (may_trade s signals c)
  unfolding trade_symbols lookup
  trade_symbols-count s [] c h = omega arith
  trade_symbols-count s ((sym, info) ∷ signals) c h =
      let c1 = trade_symbol N D json_loads M has_name st sym info c in
      let rest = λ (x : Text). trade_symbols-count x signals c1 h.1 in
      let same : tradable s signals (round c1) ≡ tradable s signals (round c) =
        ap (tradable s signals) (trade_symbol-round N D json_loads M has_name st sym info c) in
      elim (Bool-cases (text_eq sym s)) [
        | inl hits ↦
            subst
              (λ (x : Text).
                batch_with (is_for x) (trade_symbols N D json_loads M has_name st signals c1).batch
                ≤ batch_with (is_for x) c.batch + as_one (may_trade x ((sym, info) ∷ signals) c))
              ((text_eq_iff sym s).0 hits) (trade_head sym info signals c h.0 (rest sym))
        | inr misses ↦ ground (arith, rest s, trade_symbol-count s sym info c, same, misses)
      ]

  -- A cycle that starts with an empty batch sends at most one order for a symbol, and none if the
  -- analysis gives it no signal or the quiet risk regime 0, or it has a pending order, or it is
  -- exited.
  pub one_order_per_symbol :
      (s : Text) (min_trade_pct : Float) (live_price : Text → Option Float)
      (forecasts : List (Forecast Float)) (c : Cycle Float S)
      → c.batch ≡ empty
      → let signals =
          analyze N D min_trade_pct live_price forecasts c.desk.trader.account.positions [] in
        orders_with
          (is_for s)
          (orders_to_send (trade_symbols N D json_loads M has_name st signals c))
        ≤ as_one (may_trade s signals c)
  unfolding orders_to_send
  one_order_per_symbol s m l fs c none_yet =
      let signals = analyze N D m l fs c.desk.trader.account.positions [] in
      let c' = trade_symbols N D json_loads M has_name st signals c in
      omega (
        arith,
        sent_with (is_for s) c'.batch,
        trade_symbols-count s signals c
            (analyze-HasUniqueKeys N D m l fs c.desk.trader.account.positions [] tt),
        ap (batch_with (is_for s)) none_yet,
      )
