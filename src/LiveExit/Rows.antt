-- ===== src/LiveExit/Rows.antt =====
-- What the positions are that the exits of the live trader see.
use mathlib.Core.List.{Memᴰ}
use mintzy_plugin_kelly_opt.Base.{
  ◌≤◌, ◌≡◌, refl, inl, inr, Option, none, some, List, [], ◌∷◌, returned, raised, if◌then◌else◌, All,
  collect, Call-cases, arith, Bool-cases, subst, All-push,
}
use mintzy_plugin_kelly_opt.Base.Int.{ℤ, pos, abs, is_pos}
use mintzy_plugin_kelly_opt.Base.Text.{Text, codes, text_eq, text_eq_iff}
use mintzy_plugin_kelly_opt.Base.Dict.{Dict}
use mintzy_plugin_kelly_opt.Symbols.{normalize_symbol}
use mintzy_plugin_kelly_opt.Ledger.{buy, sell}
use mintzy_plugin_kelly_opt.Number.{Number}
use mintzy_plugin_kelly_opt.Decimals.{Decimals, Field}
use mintzy_plugin_kelly_opt.Exposure.{CachedRow}
use mintzy_plugin_kelly_opt.LiveExit.{
  PositionsReply, product_of, net_qty, trading_symbol, position_row, get_broker_positions,
}
use mintzy_plugin_kelly_opt.LiveExit.Target.{named_row}

-- The rows of an answer, if it has any.
abbrev pub rows_of : {F : Type 0} → PositionsReply F → List (Option (Dict (Field F)))
rows_of raised = []
rows_of (returned none) = []
rows_of (returned (some data_rows)) = data_rows

module _ (N : Number) (D : Decimals N) where
  open N use {Float}

  -- A position that stands for an intraday row with a net quantity other than 0.
  pub record IsIntraday (data_rows : List (Option (Dict (Field Float)))) (p : CachedRow Float)
      : Type 0 where
    pub source : Dict (Field Float)
    pub listed : Memᴰ (some source) data_rows
    pub intraday : product_of N D source ≡ codes "INTRADAY"
    pub net : ℤ
    pub has_net : net_qty N D source ≡ returned net
    pub has_symbol : trading_symbol N D source ≡ returned p.row.symbol
    pub has_side : p.row.side ≡ (if is_pos net then buy else sell)
    pub has_qty : p.row.qty ≡ pos (abs net)
    pub not_flat : 1 ≤ abs net

  position_row-IsIntraday :
      (data_rows : List (Option (Dict (Field Float)))) (q : Dict (Field Float))
      → Memᴰ (some q) data_rows
      → (p : CachedRow Float) → position_row N D (some q) ≡ some p
      → IsIntraday data_rows p
  unfolding position_row
  position_row-IsIntraday data_rows q m p h = elim (Call-cases (net_qty N D q)) [
    | inl fails ↦ ground arith
    | inr (n, has_net) ↦ record {
      source = q;
      listed = m;
      intraday = ground (arith, text_eq_iff (product_of N D q) (codes "INTRADAY"));
      net = n;
      has_net = has_net;
      has_symbol = ground arith;
      has_side = ground arith;
      has_qty = ground arith;
      not_flat = ground arith;
    }
  ]

  positions-AllIntraday :
      (all_rows data_rows : List (Option (Dict (Field Float))))
      → ((q : Option (Dict (Field Float))) → Memᴰ q data_rows → Memᴰ q all_rows)
      → All (IsIntraday all_rows) (collect (position_row N D) data_rows)
  unfolding position_row
  positions-AllIntraday all_rows [] sub = tt
  positions-AllIntraday all_rows (none ∷ data_rows) sub =
      positions-AllIntraday all_rows data_rows (λ q m. sub q (Memᴰ.tail m))
  positions-AllIntraday all_rows (some q ∷ data_rows) sub =
      All-push (IsIntraday all_rows) (position_row N D (some q))
        (collect (position_row N D) data_rows)
        (position_row-IsIntraday all_rows q (sub (some q) (Memᴰ.head refl)))
        (positions-AllIntraday all_rows data_rows (λ q m. sub q (Memᴰ.tail m)))

  -- Every position that the exits take from the broker's answer stands for a row of it whose
  -- product is intraday and whose net quantity is not 0, with the symbol of that row, the side of
  -- the sign and the amount of the net quantity.
  pub get_broker_positions-IsIntraday :
      (reply : PositionsReply Float)
      → All (IsIntraday (rows_of reply)) (get_broker_positions N D reply)
  unfolding get_broker_positions
  get_broker_positions-IsIntraday raised = tt
  get_broker_positions-IsIntraday (returned none) = tt
  get_broker_positions-IsIntraday (returned (some data_rows)) =
      positions-AllIntraday data_rows data_rows (λ q m. m)

  pub named_row-All :
      (P : CachedRow Float → Type 0) (symbol : Text) (rows : List (CachedRow Float))
      → All P rows
      → {p : CachedRow Float} → named_row symbol rows ≡ some p
      → P p
  unfolding named_row
  named_row-All P symbol [] a h = ground arith
  named_row-All P symbol (q ∷ rows) a {p} h =
      elim (Bool-cases (text_eq (normalize_symbol q.row.symbol) symbol)) [
        | inl named ↦ subst P (ground arith) a.0
        | inr other ↦ named_row-All P symbol rows a.1 (ground arith)
      ]
