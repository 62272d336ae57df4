-- ===== src/ExitPlan/Quantities.antt =====
-- What the exit plan of utils/session_ledger.py sells or buys back, symbol by symbol.
use mintzy_plugin_kelly_opt.Base.{
  ℕ, ◌+◌, ap, subst, push, ◌≤◌, ◌≡◌, refl, sym as p_sym, Bool, true, false, Option, none, some,
  List, [], ◌∷◌, arith, min, All, All-collect, collect, get_or, if◌then◌else◌, Bool-cases,
  Option-cases, inl, inr,
}
use mintzy_plugin_kelly_opt.Base.Int.{ℤ, pos_part, abs, is_pos}
use mintzy_plugin_kelly_opt.Base.Text.{Text, text_eq, text_eq_iff}
use mintzy_plugin_kelly_opt.Base.Dict.{Dict, lookup}
use mintzy_plugin_kelly_opt.Base.SymbolSet.{
  of_list, union, member, IsSorted, of_list-IsSorted, member-of_list, member-union, member-AllAfter,
}
use mintzy_plugin_kelly_opt.Symbols.{BrokerPosition}
use mintzy_plugin_kelly_opt.Ledger.{entry, buy, sell}
use mintzy_plugin_kelly_opt.ExitPlan.{
  ExitRow, opposite, qty_of, side_of, open_symbols, ledger_row, plan_from,
}

-- The quantity that a plan has for a symbol, over all its rows.
abbrev pub planned : {F : Type 0} → Text → List (ExitRow F) → ℕ
planned sym [] = 0
planned sym (r ∷ rows) = (if text_eq r.symbol sym then r.qty else 0) + planned sym rows

abbrev row_qty : {F : Type 0} → Option (ExitRow F) → ℕ
row_qty none = 0
row_qty (some r) = r.qty

-- Rows made for their own symbol.
abbrev Named : {F : Type 0} → (Text → Option (ExitRow F)) → Type 0
Named {F} f = (x : Text) (r : ExitRow F) → f x ≡ some r → r.symbol ≡ x

planned-push :
    {F : Type 0} (sym x : Text) (o : Option (ExitRow F)) (rows : List (ExitRow F))
    → ((r : ExitRow F) → o ≡ some r → r.symbol ≡ x)
    → planned sym (push o rows) ≡ (if text_eq x sym then row_qty o else 0) + planned sym rows
planned-push sym x none rows h = ground arith
planned-push sym x (some r) rows h = rw (h r refl)

planned-collect :
    {F : Type 0} (f : Text → Option (ExitRow F)) (sym : Text) (xs : List Text)
    → Named f
    → IsSorted xs
    → planned sym (collect f xs) ≡ (if member sym xs then row_qty (f sym) else 0)
unfolding member
planned-collect f sym [] named h = refl
planned-collect f sym (x ∷ xs) named h =
    let ih = planned-collect f sym xs named h.1 in
    let here = planned-push sym x (f x) (collect f xs) (named x) in
    elim (Bool-cases (text_eq x sym)) [
      | inl e ↦
          let same : x ≡ sym = (text_eq_iff x sym).0 e in
          let gone : member sym xs ≡ false =
            subst (λ y. member y xs ≡ false) same (member-AllAfter x xs h.0) in
          ground (arith, here, ih, gone, ap (λ y. row_qty (f y)) same)
      | inr e ↦ ground (arith, here, ih)
    ]

-- Who owns how much: the quantity that the session may exit, independently of the plan's loop. The
-- broker must hold the symbol on the side of the ledger's sign.
abbrev pub exitable : {F : Type 0} → ℤ → Option (BrokerPosition F) → ℕ
exitable own none = 0
exitable own (some p) =
    if text_eq (get_or p.side buy) (if is_pos own then buy else sell)
    then min (abs own) (pos_part p.qty)
    else 0

ledger_row-Named :
    {F : Type 0} (allowed : List Text) (ledger : Dict ℤ) (broker_map : Dict (BrokerPosition F))
    → Named (ledger_row allowed ledger broker_map)
unfolding ledger_row
ledger_row-Named allowed ledger broker_map x r e = ground arith

row_qty-ledger_row :
    {F : Type 0} (allowed : List Text) (ledger : Dict ℤ) (broker_map : Dict (BrokerPosition F))
    (sym : Text)
    → row_qty (ledger_row allowed ledger broker_map sym)
      ≡ (if member sym allowed then exitable (entry sym ledger) (lookup sym broker_map) else 0)
unfolding ledger_row
row_qty-ledger_row allowed ledger broker_map sym =
    ground (arith, Option-cases (lookup sym broker_map))

-- In the ledger mode the plan exits of each allowed symbol exactly what the session owns of it, as
-- far as the broker holds it on the same side, and nothing of any other symbol.
pub planned_exact :
    {F : Type 0} (allowed : List Text) (ledger : Dict ℤ) (broker_map : Dict (BrokerPosition F))
    (sym : Text)
    → planned sym (plan_from true allowed ledger broker_map).0
      ≡ (if member sym allowed then exitable (entry sym ledger) (lookup sym broker_map) else 0)
unfolding plan_from
planned_exact allowed ledger broker_map sym =
    let symbols = of_list (union allowed (open_symbols ledger)) in
    ground (
      arith,
      planned-collect (ledger_row allowed ledger broker_map) sym symbols
          (ledger_row-Named allowed ledger broker_map) (of_list-IsSorted _),
      row_qty-ledger_row allowed ledger broker_map sym,
      member-of_list sym (union allowed (open_symbols ledger)),
      member-union sym allowed (open_symbols ledger),
    )

-- What makes a row safe to send: a positive quantity that neither the session's own position nor the
-- broker's exceeds, sent to the side that closes both.
pub record IsSafeAt {F : Type 0} (own : ℤ) (at_broker : Option (BrokerPosition F)) (r : ExitRow F)
    : Type 0 where
  pub positive : 1 ≤ r.qty
  pub shown_side : r.side ≡ side_of at_broker
  pub owned : r.qty ≤ abs own
  pub held : r.qty ≤ pos_part (qty_of at_broker)
  pub closes_own : r.exit_side ≡ (if is_pos own then sell else buy)
  pub closes_held : r.exit_side ≡ opposite (side_of at_broker)

abbrev pub IsSafe : {F : Type 0} → Dict ℤ → Dict (BrokerPosition F) → ExitRow F → Type 0
IsSafe ledger broker_map r = IsSafeAt (entry r.symbol ledger) (lookup r.symbol broker_map) r

opposite_closes :
    (side : Text) (long : Bool)
    → text_eq side (if long then buy else sell) ≡ true
    → opposite side ≡ (if long then sell else buy)
opposite_closes side true h = rw h refl
opposite_closes side false h = rw ((text_eq_iff side sell).0 h) (unfold text_eq in refl)

ledger_row-IsSafe :
    {F : Type 0} (allowed : List Text) (ledger : Dict ℤ) (broker_map : Dict (BrokerPosition F))
    (x : Text) (r : ExitRow F)
    → ledger_row allowed ledger broker_map x ≡ some r
    → IsSafe ledger broker_map r
unfolding ledger_row
ledger_row-IsSafe allowed ledger broker_map x r e =
    let own = entry x ledger in
    let at_broker = lookup x broker_map in
    let same : x ≡ r.symbol = p_sym (ledger_row-Named allowed ledger broker_map x r e) in
    subst (λ s. IsSafeAt (entry s ledger) (lookup s broker_map) r) same
      (record {
        positive = ground arith;
        shown_side = ground arith;
        owned = ground arith;
        held = ground arith;
        closes_own = ground arith;
        closes_held = ground (arith, opposite_closes (side_of at_broker) (is_pos own));
      })

-- In the ledger mode every row of the plan is safe.
pub plan-IsSafe :
    {F : Type 0} (allowed : List Text) (ledger : Dict ℤ) (broker_map : Dict (BrokerPosition F))
    → All (IsSafe ledger broker_map) (plan_from true allowed ledger broker_map).0
unfolding plan_from
plan-IsSafe allowed ledger broker_map =
    All-collect (IsSafe ledger broker_map) (ledger_row allowed ledger broker_map)
      (ledger_row-IsSafe allowed ledger broker_map) (of_list (union allowed (open_symbols ledger)))
