-- ===== src/Examples/Execution.antt =====
-- Examples for the execution side: rate limiter, order batches and the paper engine.
use mintzy_plugin_kelly_opt.Base.{
  ℕ, suc, true, false, ◌+◌, ◌*◌, ◌/◌, ◌≤◌, ◌≡◌, refl, ◌≢◌, Option, none, some, List, [], ◌∷◌, All,
  keep, length, returned, inl, inr, arith, ltb, leb,
}
use mintzy_plugin_kelly_opt.Base.Int.{pos, pos_part}
use mintzy_plugin_kelly_opt.Base.Text.{Text, codes, text_eq, upper, lower}
use mintzy_plugin_kelly_opt.Base.SymbolSet.{member}
use mintzy_plugin_kelly_opt.RateLimiter.{in_window, acquire}
use mintzy_plugin_kelly_opt.RateLimiter.Window.{Runs, start, call, window_bound}
use mintzy_plugin_kelly_opt.OrderBatcher.{
  OrderRequest, OrderBatcher, empty, add_order, get_all_orders,
}
use mintzy_plugin_kelly_opt.OrderBatcher.Priority.{HasSide}
use mintzy_plugin_kelly_opt.Number.{Number}
use mintzy_plugin_kelly_opt.Ledger.{buy, sell, compute_ledger_qty_after_fill}
use mintzy_plugin_kelly_opt.PaperEngine.{PaperPosition, filled_position}
use mintzy_plugin_kelly_opt.PaperEngine.Follows.{
  signed, IsHeld, Fits, flips, paper_follows_ledger, over_close_parts,
}
use mintzy_plugin_kelly_opt.Base.Dict.{lookup}
use mintzy_plugin_kelly_opt.PaperEngine.{OpenPosition}
use mintzy_plugin_kelly_opt.ClosePosition.{Account, is_closable, close_position}
use mintzy_plugin_kelly_opt.ClosePosition.Booking.{signed as signed_open, close_follows_ledger}

-- Two calls a window of ten ticks: the third, asked for at 4, sleeps until the first call's window ends.
three_calls :
    Runs 2 10 (1 ∷ 3 ∷ 11 ∷ []) 11 (record { max_calls = 2; time_window = 10; calls = 3 ∷ 11 ∷ [] })
unfolding acquire
three_calls =
    call 4 11 11
      (call 3 3 3 (call 1 1 1 start (omega arith) (omega arith) (λ o r e full. ground arith) refl)
        (omega arith) (omega arith) (λ o r e full. ground arith) refl)
      (omega arith) (omega arith) (λ o r e full. ground arith) refl

window_bound_example : length (keep (in_window 10 11) (1 ∷ 3 ∷ 11 ∷ [])) ≤ 2
window_bound_example = window_bound three_calls

abbrev exit_order : OrderRequest
exit_order = record { symbol = codes "TCS"; side = codes "SELL"; qty = pos 5; tag = 0 }

abbrev short_order : OrderRequest
short_order = record { symbol = codes "INFY"; side = codes "SELL"; qty = pos 2; tag = 1 }

abbrev batch : OrderBatcher
batch = add_order empty short_order (codes "short")

-- The short goes out before the exit, although exits come first.
exit_goes_last :
    get_all_orders (add_order batch exit_order (codes "exit")) (codes "exit_first")
    ≡ short_order ∷ exit_order ∷ []
unfolding add_order get_all_orders upper lower text_eq
exit_goes_last = refl

abbrev asked : List (OrderRequest × Text)
asked = (short_order, codes "short") ∷ (exit_order, codes "exit") ∷ []

asked_sides : All HasSide asked
unfolding upper text_eq
asked_sides = (inr refl, (inr refl, tt))

-- Whole numbers in place of floats.
abbrev whole : Number
whole = record {
  Float = ℕ;
  zero = 0;
  one = 1;
  of_int = pos_part;
  plus = λ a b. a + b;
  minus = λ a b. a;
  times = λ a b. a * b;
  divide = λ a b. a / b;
  is_pos = λ a. ltb 0 a;
  le = λ a b. leb a b;
}

abbrev long : PaperPosition ℕ
long = record { side = buy; qty = pos 50; avg_price = 9; ltp = 9 }

long_flips : Fits (some long) (codes "FLIP_TO_SHORT") sell (pos 100)
unfolding text_eq
long_flips = flips long (codes "FLIP_TO_SHORT") sell (pos 100) refl (λ e. ground arith) refl

paper_follows_ledger_example :
    (o' : Option (PaperPosition ℕ)) × (filled_position whole
        (some long)
        (codes "FLIP_TO_SHORT")
        sell
        (pos 100)
        11
      ≡ returned o')
    × (compute_ledger_qty_after_fill (signed (some long)) (pos 100) (codes "FLIP_TO_SHORT") sell
        ≡ some (signed o'))
    × IsHeld o'
paper_follows_ledger_example =
    paper_follows_ledger whole (some long) (codes "FLIP_TO_SHORT") sell (pos 100) 11
      (inl refl, refl) (inr refl) refl long_flips

over_close_parts_example :
    (filled_position whole (some long) (codes "EXIT_LONG") sell (pos 60) 11 ≡ returned none)
    × (compute_ledger_qty_after_fill (signed (some long)) (pos 60) (codes "EXIT_LONG") sell
        ≢ some (pos 0))
unfolding member text_eq
over_close_parts_example =
    over_close_parts whole long (codes "EXIT_LONG") sell (pos 60) 11 (inl refl, refl) (inr refl)
      (λ e. ground arith) refl (omega arith)

abbrev held : OpenPosition ℕ
held = record { side = buy; qty = pos 50; entry_price = 9 }

abbrev account : Account ℕ
account = record {
  positions = (codes "TCS", held) ∷ [];
  cash_balance = 100;
  realized_pnl = 0;
  realized_pnl_by_symbol = [];
}

held_there : lookup (codes "TCS") account.positions ≡ some held
unfolding lookup text_eq
held_there = refl

held_closable : (n : ℕ) → is_closable whole held 11 (pos (suc n)) ≡ true
unfolding is_closable text_eq
held_closable n = ground arith

other_symbol : text_eq (codes "TCS") (codes "INFY") ≡ false
unfolding text_eq
other_symbol = refl

-- An exit of 80 where 50 are held: the position flips to 30 short.
close_follows_ledger_example :
    let after = (close_position whole (codes "TCS") 11 (pos 80) none account).1 in
    (compute_ledger_qty_after_fill (pos 50) (pos 80) (codes "EXIT_LONG") sell
      ≡ some (signed_open (lookup (codes "TCS") after.positions)))
    × (lookup (codes "INFY") after.positions ≡ lookup (codes "INFY") account.positions)
unfolding text_eq
close_follows_ledger_example =
    close_follows_ledger whole (codes "TCS") (codes "INFY") (codes "EXIT_LONG") held 11 (pos 80)
      none account held_there (held_closable 79) other_symbol
