-- ===== src/LiveExit.antt =====
-- Single exits of the live trader: `_get_broker_positions` of session_broker.py and
-- `exit_single_position` of eod_exit.py in auto_trader_exposure_expansion_org. An exit is one step of
-- the trader, whose state is that of the cycle; the executor's answer to its order is an argument.
-- Left out are the log lines, the messages of the answer, the reason of the exit, which only the exit
-- documents hold, and these documents, whose writing is taken not to raise.
pub mod Rows
pub mod Target
pub mod Single
pub mod Order
pub mod Answer
pub mod EndOfDay
pub mod Flattened
pub mod Settled
use mintzy_plugin_kelly_opt.Base.{
  ℕ, Bool, true, false, ◌&&◌, ◌||◌, not, Option, none, some, List, [], ◌∷◌, ◌++◌, length, collect,
  get_or, Call, returned, raised, if◌then◌else◌,
}
use mintzy_plugin_kelly_opt.Base.Int.{ℤ, pos, abs, is_pos, is_zero}
use mintzy_plugin_kelly_opt.Base.Text.{Text, codes, text_eq, upper, drop_eq_suffix}
use mintzy_plugin_kelly_opt.Base.Dict.{Dict, lookup}
use mintzy_plugin_kelly_opt.Base.SymbolSet.{add}
use mintzy_plugin_kelly_opt.Symbols.{Environ, normalize_symbol}
use mintzy_plugin_kelly_opt.Redis.{Redis}
use mintzy_plugin_kelly_opt.Ledger.{buy, sell}
use mintzy_plugin_kelly_opt.Number.{Number}
use mintzy_plugin_kelly_opt.Decimals.{
  Decimals, Field, null, flag, whole, real, text, container, get, int_of, float_of, is_truthy,
  float_or,
}
use mintzy_plugin_kelly_opt.PaperEngine.{OpenPosition}
use mintzy_plugin_kelly_opt.OrderBatcher.{OrderRequest}
use mintzy_plugin_kelly_opt.Executor.{OrderResult}
use mintzy_plugin_kelly_opt.OrderFill.{Pending, LiveFill, exit_qty_for}
use mintzy_plugin_kelly_opt.OrderFill.Fills.{finalize_symbol_exit_fill}
use mintzy_plugin_kelly_opt.Exposure.{CachedRow, Desk}
use mintzy_plugin_kelly_opt.Cycle.{Note, Cycle, cached_rows}
use mintzy_plugin_kelly_opt.Cycle.Results.{get_elem?, pending_entry, add_pending}

-- `broker.get_positions`: it raises, or its answer has no status or no list of rows, or the rows, of
-- which one that is no dictionary is `none`.
abbrev pub PositionsReply : Type 0 → Type 0
PositionsReply F = Call (Option (List (Option (Dict (Field F)))))

abbrev pub average_keys : List Text
average_keys =
    codes "averageprice"
    ∷ codes "avgprice"
    ∷ codes "avg_price"
    ∷ codes "avgnetprice"
    ∷ codes "totalbuyavgprice"
    ∷ codes "totalsellavgprice"
    ∷ []

module _ (N : Number) (D : Decimals N) where
  open N use {Float, zero, of_int, times, le}

  -- `p.get(k) or … or 0.0`
  unfoldable pub first_truthy : List Text → Dict (Field Float) → Field Float
  first_truthy [] p = real zero
  first_truthy (k ∷ ks) p =
      let rest = first_truthy ks p in if is_truthy N D (get k p) then get k p else rest

  -- `str(v).upper()`, as far as it is compared with a product.
  unfoldable pub product_text : Field Float → Text
  product_text (text s) = upper s
  product_text v = []

  unfoldable pub product_of : Dict (Field Float) → Text
  unfolding first_truthy product_text
  product_of p = product_text (first_truthy (codes "producttype" ∷ codes "productType" ∷ []) p)

  unfoldable pub net_qty : Dict (Field Float) → Call ℤ
  net_qty p = elim (lookup (codes "netqty") p) [ none ↦ returned (pos 0) | some v ↦ int_of N D v ]

  -- `v.replace("-EQ", "").upper()`
  unfoldable pub symbol_text : Field Float → Call Text
  symbol_text (text s) = returned (upper (drop_eq_suffix s))
  symbol_text v = raised

  unfoldable pub trading_symbol : Dict (Field Float) → Call Text
  unfolding symbol_text
  trading_symbol p = elim (lookup (codes "tradingsymbol") p) [
    | none ↦ returned []
    | some v ↦ symbol_text v
  ]

  unfoldable pub average_price : Dict (Field Float) → Float
  average_price p = elim (float_or N D (first_truthy average_keys p) zero) [
    | raised ↦ zero
    | returned x ↦ x
  ]

  -- The body of the loop over the rows: only an intraday row with a quantity is a position.
  unfoldable pub position_row : Option (Dict (Field Float)) → Option (CachedRow Float)
  position_row none = none
  position_row (some p) =
      if not (text_eq (product_of p) (codes "INTRADAY")) then none else elim (net_qty p) [
        | raised ↦ none
        | returned n ↦ if is_zero n then none else elim (trading_symbol p) [
          | raised ↦ none
          | returned symbol ↦
              elim (float_of N D
                (first_truthy (codes "ltp" ∷ codes "lastprice" ∷ codes "last_price" ∷ []) p)) [
                  | raised ↦ none
                  | returned ltp ↦ some (record {
                    row = record {
                      symbol = symbol;
                      side = if is_pos n then buy else sell;
                      qty = pos (abs n);
                      avg_price = average_price p;
                    };
                    ltp = ltp;
                  })
                ]
        ]
      ]

  unfoldable pub get_broker_positions : PositionsReply Float → List (CachedRow Float)
  get_broker_positions raised = []
  get_broker_positions (returned none) = []
  get_broker_positions (returned (some data_rows)) = collect position_row data_rows
