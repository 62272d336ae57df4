-- ===== src/PaperEngine.antt =====
-- The paper trading engine of auto_trader_exposure_expansion/fills.py: slippage, the book of paper
-- positions, the paper orders, and the copy of a position that the live figures read.
pub mod Follows
use mintzy_plugin_kelly_opt.Base.{
  ℕ, suc, ◌+◌, ◌/◌, ◌==◌, Bool, true, false, ◌&&◌, ◌||◌, not, Option, none, some, List, [], ◌∷◌,
  ◌++◌, get_or, Call, returned, raised, if◌then◌else◌,
}
use mintzy_plugin_kelly_opt.Base.Int.{ℤ, pos, pos_part, ◌+ℤ◌, neg, is_zero, is_pos}
use mintzy_plugin_kelly_opt.Base.Text.{Text, codes, text_eq, upper, drop_eq_suffix}
use mintzy_plugin_kelly_opt.Base.Dict.{Dict, lookup, insert, pop}
use mintzy_plugin_kelly_opt.Base.SymbolSet.{member}
use mintzy_plugin_kelly_opt.Ledger.{buy, sell}
use mintzy_plugin_kelly_opt.Number.{Number}

-- The fields of an `OrderRequest` that the engine reads; `action_type` and `curr_price` are those of
-- its metadata.
pub record PaperRequest (F : Type 0) : Type 0 where
  pub symbol : Text
  pub side : Text
  pub qty : ℤ
  pub action_type : Text
  pub curr_price : Option F

pub record PaperPosition (F : Type 0) : Type 0 where
  pub side : Text
  pub qty : ℤ
  pub avg_price : F
  pub ltp : F

-- An entry of `self.positions`.
pub record OpenPosition (F : Type 0) : Type 0 where
  pub side : Text
  pub qty : ℤ
  pub entry_price : F

-- A complete paper order; its id is the counter's value.
pub record PaperOrder (F : Type 0) : Type 0 where
  pub number : ℕ
  pub symbol : Text
  pub side : Text
  pub filled_qty : ℤ
  pub avg_fill_price : F

pub record Engine (F : Type 0) : Type 0 where
  pub paper_positions : Dict (PaperPosition F)
  pub positions : Dict (OpenPosition F)
  pub order_counter : ℕ
  pub orders : List (PaperOrder F)

abbrev pub paper_exit_actions : List Text
paper_exit_actions =
    codes "EXIT_LONG"
    ∷ codes "COVER_SHORT"
    ∷ codes "STOP_LOSS"
    ∷ codes "MARKET_CLOSE_EXIT"
    ∷ codes "SINGLE_EXIT"
    ∷ []

abbrev pub flip_actions : List Text
flip_actions = codes "FLIP_TO_LONG" ∷ codes "FLIP_TO_SHORT" ∷ []

-- `symbol.upper().replace("-EQ", "")`
unfoldable pub paper_symbol : Text → Text
paper_symbol s = drop_eq_suffix (upper s)

-- One side bought and the other sold.
abbrev pub are_opposite : Text → Text → Bool
are_opposite a b = (text_eq a buy && text_eq b sell) || (text_eq a sell && text_eq b buy)

module _ (N : Number) where
  open N use {Float, zero, one, of_int, plus, minus, times, divide}

  unfoldable pub apply_paper_slippage : Float → Text → Float → Float
  apply_paper_slippage slip side ltp =
      if not (N.is_pos slip) || not (N.is_pos ltp)
      then ltp
      else if text_eq (upper side) buy
      then times ltp (plus one slip)
      else if text_eq (upper side) sell
      then times ltp (minus one slip)
      else ltp

  -- The first of the prices that is there and positive, else 0.
  unfoldable pub first_price : List (Option Float) → Float
  first_price [] = zero
  first_price (none ∷ prices) = first_price prices
  first_price (some p ∷ prices) = let rest = first_price prices in if N.is_pos p then p else rest

  -- The price of a fill: the live tick, the cycle's cache, Redis, the order's own price, and last the
  -- paper position's, which the caller passes in that order's places.
  unfoldable pub resolve_paper_ltp :
      Option Float
      → Option Float
      → Option Float
      → Option Float
      → Option (PaperPosition Float)
      → Float
  unfolding first_price
  resolve_paper_ltp tick cached live curr_price position =
      first_price (
        tick
        ∷ cached
        ∷ live
        ∷ curr_price
        ∷ elim position [ none ↦ none | some p ↦ some p.ltp ]
        ∷ [])

  -- The average price of a position and a fill on its side; Python's division by 0 raises.
  unfoldable pub blend : PaperPosition Float → ℤ → Float → Call (PaperPosition Float)
  blend p qty ltp =
      let new_qty = p.qty +ℤ qty in
      if is_zero new_qty
      then raised
      else returned (record p {
        avg_price =
            divide (plus (times (of_int p.qty) p.avg_price) (times (of_int qty) ltp))
              (of_int new_qty);
        qty = new_qty;
        ltp = ltp;
      })

  -- A flip: half of the order's quantity is the new position.
  unfoldable pub flip_position : Text → ℤ → Float → Option (PaperPosition Float)
  flip_position action qty ltp =
      let new_qty = pos_part qty / 2 in
      if new_qty == 0
      then none
      else some (record {
        side = if text_eq action (codes "FLIP_TO_LONG") then buy else sell;
        qty = pos new_qty;
        avg_price = ltp;
        ltp = ltp;
      })

  -- A reduction: what is left of the position, if anything.
  unfoldable pub reduce_position : PaperPosition Float → ℤ → Float → Option (PaperPosition Float)
  reduce_position p qty ltp =
      let remaining = p.qty +ℤ neg qty in
      if is_pos remaining then some (record p { qty = remaining; ltp = ltp }) else none

  -- What a fill makes of the symbol's position.
  unfoldable pub filled_position :
      Option (PaperPosition Float) → Text → Text → ℤ → Float → Call (Option (PaperPosition Float))
  unfolding blend flip_position reduce_position
  filled_position none action side qty ltp =
      if member action flip_actions
      then returned (flip_position action qty ltp)
      else if member action paper_exit_actions
      then returned none
      else returned (some (record { side = side; qty = qty; avg_price = ltp; ltp = ltp }))
  filled_position (some p) action side qty ltp =
      if member action flip_actions
      then returned (flip_position action qty ltp)
      else if member action paper_exit_actions || are_opposite p.side side
      then returned (reduce_position p qty ltp)
      else if text_eq p.side side
      then elim (blend p qty ltp) [ raised ↦ raised | returned p' ↦ returned (some p') ]
      else returned (some (record { side = side; qty = qty; avg_price = ltp; ltp = ltp }))

  -- The book with a symbol's position put in, or taken out.
  abbrev pub store_position :
      Text → Option (PaperPosition Float) → Dict (PaperPosition Float) → Dict (PaperPosition Float)
  store_position symbol none book = pop symbol book
  store_position symbol (some p) book = insert symbol p book

  unfoldable pub update_paper_positions_on_fill :
      Dict (PaperPosition Float) → PaperRequest Float → Float → Call (Dict (PaperPosition Float))
  unfolding filled_position
  update_paper_positions_on_fill book r fill_price =
      let symbol = paper_symbol r.symbol in
      elim (filled_position (lookup symbol book) r.action_type (upper r.side) r.qty fill_price) [
        | raised ↦ raised
        | returned p ↦ returned (store_position symbol p book)
      ]

  -- The entry of `self.positions` that copies a paper position, where its quantity is positive. An
  -- average of 0 is falsy, and the fill price stands in for it.
  unfoldable pub copied_position :
      (Float → Bool) → Option (PaperPosition Float) → Float → Option (OpenPosition Float)
  copied_position is_nonzero none fill_price = none
  copied_position is_nonzero (some p) fill_price =
      if is_pos p.qty
      then some (record {
        side = p.side;
        qty = p.qty;
        entry_price = if is_nonzero p.avg_price then p.avg_price else fill_price;
      })
      else none

  -- How a paper order ends: no price, an error while the book is updated, or a fill.
  pub data Placed : Type 0 where
    no_price : Placed
    failed : Engine Float → Placed
    filled : ℕ → Float → Engine Float → Placed

  -- `raw_ltp` is what `resolve_paper_ltp` gives. The order is recorded before the book is updated, and
  -- stays recorded where that raises.
  unfoldable pub create_paper_order :
      (Float → Bool) → Float → Engine Float → PaperRequest Float → Float → Placed
  unfolding copied_position
  create_paper_order is_nonzero slip s r raw_ltp =
      let symbol = paper_symbol r.symbol in
      let fill_price = apply_paper_slippage slip r.side raw_ltp in
      let number = suc s.order_counter in
      let order : PaperOrder Float = record {
        number = number;
        symbol = symbol;
        side = upper r.side;
        filled_qty = r.qty;
        avg_fill_price = fill_price;
      } in
      let recorded : Engine Float = record s {
        order_counter = number;
        orders = s.orders ++ order ∷ [];
      } in
      if not (N.is_pos fill_price)
      then no_price
      else elim (update_paper_positions_on_fill s.paper_positions r fill_price) [
        | raised ↦ failed recorded
        | returned book ↦ filled number fill_price (record recorded {
          paper_positions = book;
          positions = elim (copied_position is_nonzero (lookup symbol book) fill_price) [
            | none ↦ pop symbol s.positions
            | some p ↦ insert symbol p s.positions
          ];
        })
      ]
