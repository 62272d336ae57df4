-- ===== src/ClosePosition/Booking.antt =====
-- The live trader's book follows the session ledger's arithmetic, also where an exit flips a position.
use mintzy_plugin_kelly_opt.Base.{
  ℕ, ◌-◌, ◌≡◌, refl, true, false, Option, none, some, if◌then◌else◌, ltb, ==_iff, arith,
}
use mintzy_plugin_kelly_opt.Base.Int.{ℤ, pos, pos_part, neg, ◌+ℤ◌}
use mintzy_plugin_kelly_opt.Base.Text.{Text, text_eq, text_eq_refl, upper}
use mintzy_plugin_kelly_opt.Base.Dict.{Dict, lookup, lookup-insert, lookup-pop}
use mintzy_plugin_kelly_opt.Base.SymbolSet.{member}
use mintzy_plugin_kelly_opt.Number.{Number}
use mintzy_plugin_kelly_opt.Ledger.{buy, sell, signed_fill_delta, compute_ledger_qty_after_fill}
use mintzy_plugin_kelly_opt.PaperEngine.{OpenPosition}
use mintzy_plugin_kelly_opt.ClosePosition.{
  Account, is_closable, book_exit, close_with, close_position,
}

-- A position as the ledger counts it, and the side of an order that exits it.
abbrev pub signed : {F : Type 0} → Option (OpenPosition F) → ℤ
signed none = pos 0
signed (some p) = if text_eq p.side buy then p.qty else neg p.qty

abbrev pub opposite : Text → Text
opposite side = if text_eq side buy then sell else buy

pub buy_delta : (n : ℕ) (action : Text) → signed_fill_delta n buy action ≡ some (pos n)
unfolding signed_fill_delta upper member text_eq
buy_delta n action = refl

pub sell_delta : (n : ℕ) (action : Text) → signed_fill_delta n sell action ≡ some (neg (pos n))
unfolding signed_fill_delta upper member text_eq
sell_delta n action = refl

neg_zero : neg (pos 0) ≡ pos 0
unfolding neg
neg_zero = refl

pub sell_is_not_buy : text_eq sell buy ≡ false
unfolding text_eq
sell_is_not_buy = refl

module _ (N : Number) where
  open N use {Float}

  book_exit_lem :
      (symbol j : Text) (p : OpenPosition Float) (exit_price : Float) (exit_qty : ℤ)
      (positions : Dict (OpenPosition Float))
      → text_eq symbol j ≡ false
      → lookup j (book_exit N symbol p exit_price exit_qty positions) ≡ lookup j positions
  unfolding book_exit
  book_exit_lem symbol j p exit_price exit_qty positions h =
      let current = pos_part p.qty in
      let exited = pos_part exit_qty in
      let flipped : OpenPosition Float = record {
        side = if text_eq p.side buy then sell else buy;
        qty = pos (exited - current);
        entry_price = exit_price;
      } in
      let reduced : OpenPosition Float = record p { qty = pos (current - exited) } in
      ground (
        arith,
        h,
        lookup-insert symbol j flipped positions,
        lookup-insert symbol j reduced positions,
        lookup-pop symbol j positions,
      )

  -- The three outcomes in the ledger's arithmetic.
  flipped_delta : (c e : ℕ) → ltb c e ≡ true → pos c +ℤ neg (pos e) ≡ neg (pos (e - c))
  unfolding ◌+ℤ◌ neg
  flipped_delta c e h = ground arith

  reduced_delta : (c e : ℕ) → ltb c e ≡ false → pos c +ℤ neg (pos e) ≡ pos (c - e)
  unfolding ◌+ℤ◌ neg
  reduced_delta c e h = ground arith

  flipped_short : (c e : ℕ) → ltb c e ≡ true → neg (pos c) +ℤ pos e ≡ pos (e - c)
  unfolding ◌+ℤ◌ neg
  flipped_short c e h = ground arith

  reduced_short : (c e : ℕ) → ltb c e ≡ false → neg (pos c) +ℤ pos e ≡ neg (pos (c - e))
  unfolding ◌+ℤ◌ neg
  reduced_short c e h = ground arith

  -- The position that an exit leaves.
  remaining_lem :
      (symbol : Text) (p : OpenPosition Float) (exit_price : Float) (exit_qty : ℤ)
      (positions : Dict (OpenPosition Float))
      → signed (lookup symbol (book_exit N symbol p exit_price exit_qty positions)) ≡ (
          if text_eq p.side buy
          then pos (pos_part p.qty) +ℤ neg (pos (pos_part exit_qty))
          else neg (pos (pos_part p.qty)) +ℤ pos (pos_part exit_qty))
  unfolding book_exit
  remaining_lem symbol p exit_price exit_qty positions =
      let current = pos_part p.qty in
      let exited = pos_part exit_qty in
      let flipped : OpenPosition Float = record {
        side = if text_eq p.side buy then sell else buy;
        qty = pos (exited - current);
        entry_price = exit_price;
      } in
      let reduced : OpenPosition Float = record p { qty = pos (current - exited) } in
      ground (
        arith,
        ==_iff exited current,
        text_eq_refl symbol,
        text_eq_refl buy,
        sell_is_not_buy,
        lookup-insert symbol symbol flipped positions,
        lookup-insert symbol symbol reduced positions,
        lookup-pop symbol symbol positions,
        flipped_delta current exited,
        reduced_delta current exited,
        flipped_short current exited,
        reduced_short current exited,
        neg_zero,
      )

  exit_lem :
      (symbol action : Text) (p : OpenPosition Float) (exit_price : Float) (exit_qty : ℤ)
      (positions : Dict (OpenPosition Float))
      → is_closable N p exit_price exit_qty ≡ true
      → compute_ledger_qty_after_fill (signed (some p)) exit_qty action (opposite p.side)
        ≡ some (signed (lookup symbol (book_exit N symbol p exit_price exit_qty positions)))
  unfolding is_closable compute_ledger_qty_after_fill
  exit_lem symbol action p exit_price exit_qty positions h = ground (
    arith,
    h,
    remaining_lem symbol p exit_price exit_qty positions,
    buy_delta (pos_part exit_qty) action,
    sell_delta (pos_part exit_qty) action,
  )

  -- An exit of a held position with valid figures, partial, exact or larger than the position,
  -- leaves the position that the session ledger computes for its fill on the opposite side, and
  -- changes no other symbol's position.
  pub close_follows_ledger :
      (symbol j action : Text) (p : OpenPosition Float) (exit_price : Float) (exit_qty : ℤ)
      (snapshot : Option (OpenPosition Float)) (a : Account Float)
      → lookup symbol a.positions ≡ some p
      → is_closable N p exit_price exit_qty ≡ true
      → text_eq symbol j ≡ false
      → let after = (close_position N symbol exit_price exit_qty snapshot a).1 in
        (compute_ledger_qty_after_fill (signed (some p)) exit_qty action (opposite p.side)
          ≡ some (signed (lookup symbol after.positions)))
        × (lookup j after.positions ≡ lookup j a.positions)
  unfolding close_position close_with
  close_follows_ledger symbol j action p exit_price exit_qty snapshot a found ok other = ground (
    arith,
    found,
    ok,
    exit_lem symbol action p exit_price exit_qty a.positions ok,
    book_exit_lem symbol j p exit_price exit_qty a.positions other,
  )

  closed_lem :
      (symbol : Text) (p : OpenPosition Float) (exit_price : Float) (exit_qty : ℤ)
      (positions : Dict (OpenPosition Float))
      → exit_qty ≡ p.qty
      → lookup symbol (book_exit N symbol p exit_price exit_qty positions) ≡ none
  unfolding book_exit
  closed_lem symbol p exit_price exit_qty positions h = ground (
    arith,
    h,
    text_eq_refl symbol,
    ==_iff (pos_part exit_qty) (pos_part p.qty),
    lookup-pop symbol symbol positions,
  )

  -- After an exit of a whole position with valid figures, another exit of the symbol without a
  -- snapshot returns 0 and leaves the account.
  closed_once :
      (symbol : Text) (p : OpenPosition Float) (exit_price again_price : Float)
      (exit_qty again_qty : ℤ) (snapshot : Option (OpenPosition Float)) (a : Account Float)
      → lookup symbol a.positions ≡ some p
      → is_closable N p exit_price exit_qty ≡ true
      → exit_qty ≡ p.qty
      → let after = (close_position N symbol exit_price exit_qty snapshot a).1 in
        close_position N symbol again_price again_qty none after ≡ (N.zero, after)
  unfolding close_position close_with
  closed_once symbol p exit_price again_price exit_qty again_qty snapshot a found ok all = ground (
    arith,
    found,
    ok,
    text_eq_refl symbol,
    ==_iff (pos_part exit_qty) (pos_part p.qty),
    closed_lem symbol p exit_price exit_qty a.positions all,
  )
