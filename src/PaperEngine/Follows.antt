-- ===== src/PaperEngine/Follows.antt =====
-- The paper book of fills.py and the session ledger of utils/session_ledger.py, fill by fill.
use mintzy_plugin_kelly_opt.Base.{
  ℕ, ◌*◌, ◌/◌, ◌≤◌, ◌<◌, ◌==◌, ◌≡◌, refl, ◌≢◌, Bool, true, false, not, Option, none, some, arith,
  returned, if◌then◌else◌, ◌⊎◌, inl, inr,
}
use mintzy_plugin_kelly_opt.Base.Int.{ℤ, pos, pos_part, ◌+ℤ◌, neg, is_pos}
use mintzy_plugin_kelly_opt.Base.Text.{Text, codes, text_eq, text_eq_iff, upper}
use mintzy_plugin_kelly_opt.Base.SymbolSet.{member}
use mintzy_plugin_kelly_opt.Number.{Number}
use mintzy_plugin_kelly_opt.Ledger.{buy, sell, signed_fill_delta, compute_ledger_qty_after_fill}
use mintzy_plugin_kelly_opt.PaperEngine.{
  PaperPosition, paper_exit_actions, flip_actions, filled_position, reduce_position, flip_position,
  are_opposite,
}

module _ {F : Type 0} where
  -- A position as the ledger counts it.
  abbrev pub signed : Option (PaperPosition F) → ℤ
  signed none = pos 0
  signed (some p) = if text_eq p.side buy then p.qty else neg p.qty

  -- A position that the engine can have: held on one of the two sides, and not flat.
  abbrev pub IsHeld : Option (PaperPosition F) → Type 0
  IsHeld none = Unit
  IsHeld (some p) = ((p.side ≡ buy) ⊎ (p.side ≡ sell)) × (is_pos p.qty ≡ true)

  -- The orders that the trader places for a position: it opens or adds on a side, it reduces by no more
  -- than it holds, and it flips with twice what it holds.
  pub data Fits : Option (PaperPosition F) → Text → Text → ℤ → Type 0 where
    opens :
        (action side : Text) (qty : ℤ)
        → member action flip_actions ≡ false
        → member action paper_exit_actions ≡ false
        → Fits none action side qty
    adds :
        (p : PaperPosition F) (action side : Text) (qty : ℤ)
        → member action flip_actions ≡ false
        → member action paper_exit_actions ≡ false
        → p.side ≡ side
        → Fits (some p) action side qty
    reduces :
        (p : PaperPosition F) (action side : Text) (qty : ℤ)
        → member action flip_actions ≡ false
        → p.side ≢ side
        → pos_part qty ≤ pos_part p.qty
        → Fits (some p) action side qty
    flips :
        (p : PaperPosition F) (action side : Text) (qty : ℤ)
        → action ≡ (if text_eq side buy then codes "FLIP_TO_LONG" else codes "FLIP_TO_SHORT")
        → p.side ≢ side
        → pos_part qty ≡ 2 * pos_part p.qty
        → Fits (some p) action side qty

  kept_IsHeld :
      (b : Bool) (p : PaperPosition F)
      → (b ≡ true → IsHeld (some p))
      → IsHeld (if b then some p else none)
  kept_IsHeld true p h = h refl
  kept_IsHeld false p h = tt

  flipped_IsHeld :
      (b : Bool) (p : PaperPosition F)
      → (b ≡ false → IsHeld (some p))
      → IsHeld (if b then none else some p)
  flipped_IsHeld true p h = tt
  flipped_IsHeld false p h = h refl

delta_of_side :
    (side action : Text) (fill : ℕ)
    → (side ≡ buy) ⊎ (side ≡ sell)
    → signed_fill_delta fill side action
      ≡ some (if text_eq side buy then pos fill else neg (pos fill))
unfolding signed_fill_delta upper member text_eq
delta_of_side side action fill (inl e) = rw e refl
delta_of_side side action fill (inr e) = rw e refl

pos_part-pos : (qty : ℤ) → is_pos qty ≡ true → pos (pos_part qty) ≡ qty
pos_part-pos qty h = ground arith

module _ (N : Number) where
  open N use {Float, plus, times, divide, of_int}

  -- What a fitting fill leaves: a held position or none, that counts as before plus the fill.
  abbrev Moves : Option (PaperPosition Float) → Text → Text → ℤ → Float → Type 0
  Moves o action side qty ltp =
      (o' : Option (PaperPosition Float)) × (filled_position N o action side qty ltp ≡ returned o')
      × (signed o' ≡ signed o +ℤ (if text_eq side buy then qty else neg qty))
      × IsHeld o'

  side_tests :
      (a b : Text)
      → (a ≡ buy) ⊎ (a ≡ sell)
      → (b ≡ buy) ⊎ (b ≡ sell)
      → (text_eq a buy ≡ not (text_eq a sell))
        × (text_eq b buy ≡ not (text_eq b sell))
        × (are_opposite a b ≡ not (text_eq a b))
  unfolding text_eq
  side_tests a b (inl p) (inl q) = rw (p, q) (refl, refl, refl)
  side_tests a b (inl p) (inr q) = rw (p, q) (refl, refl, refl)
  side_tests a b (inr p) (inl q) = rw (p, q) (refl, refl, refl)
  side_tests a b (inr p) (inr q) = rw (p, q) (refl, refl, refl)

  flip_tests :
      (action side : Text)
      → (side ≡ buy) ⊎ (side ≡ sell)
      → action ≡ (if text_eq side buy then codes "FLIP_TO_LONG" else codes "FLIP_TO_SHORT")
      → (member action flip_actions ≡ true)
        × ((if text_eq action (codes "FLIP_TO_LONG") then buy else sell) ≡ side)
  unfolding text_eq member
  flip_tests action side (inl p) e = rw (e, p) (refl, refl)
  flip_tests action side (inr p) e = rw (e, p) (refl, refl)

  filled_position-Moves :
      (o : Option (PaperPosition Float)) (action side : Text) (qty : ℤ) (ltp : Float)
      → IsHeld o
      → (side ≡ buy) ⊎ (side ≡ sell)
      → is_pos qty ≡ true
      → Fits o action side qty
      → Moves o action side qty ltp
  unfolding filled_position ◌+ℤ◌ neg
  filled_position-Moves o action side qty ltp h hs hq (opens _ _ _ nf ne) = (
    some (record { side = side; qty = qty; avg_price = ltp; ltp = ltp }),
    ground arith,
    ground arith,
    (hs, hq),
  )
  filled_position-Moves o action side qty ltp h hs hq (adds p _ _ _ nf ne same) = (
    some (record p {
      avg_price =
          divide (plus (times (of_int p.qty) p.avg_price) (times (of_int qty) ltp))
            (of_int (p.qty +ℤ qty));
      qty = p.qty +ℤ qty;
      ltp = ltp;
    }),
    ground (arith, side_tests p.side side h.0 hs, text_eq_iff p.side side),
    ground (arith, side_tests p.side side h.0 hs, text_eq_iff p.side side),
    (h.0, ground arith),
  )
  filled_position-Moves o action side qty ltp h hs hq (reduces p _ _ _ nf other le) = (
    reduce_position N p qty ltp,
    ground (arith, side_tests p.side side h.0 hs, text_eq_iff p.side side),
    ground (
      arith,
      side_tests p.side side h.0 hs,
      text_eq_iff p.side side,
      text_eq_iff p.side buy,
      text_eq_iff side buy,
      text_eq_iff p.side sell,
      text_eq_iff side sell,
    ),
    kept_IsHeld (is_pos (p.qty +ℤ neg qty)) (record p { qty = p.qty +ℤ neg qty; ltp = ltp })
        (λ left. (h.0, left)),
  )
  filled_position-Moves o action side qty ltp h hs hq (flips p _ _ _ fa other twice) = (
    flip_position N action qty ltp,
    ground (arith, flip_tests action side hs fa),
    ground (
      arith,
      flip_tests action side hs fa,
      side_tests p.side side h.0 hs,
      text_eq_iff p.side side,
      text_eq_iff p.side buy,
      text_eq_iff side buy,
      text_eq_iff p.side sell,
      text_eq_iff side sell,
    ),
    flipped_IsHeld (pos_part qty / 2 == 0)
        (record {
          side = if text_eq action (codes "FLIP_TO_LONG") then buy else sell;
          qty = pos (pos_part qty / 2);
          avg_price = ltp;
          ltp = ltp;
        })
        (λ left. (rw ((flip_tests action side hs fa).1) hs, ground arith)),
  )

  -- A fill of a held position that opens, adds, reduces by no more than is held, or flips with
  -- twice what is held never raises, and the session ledger's entry, if it agreed with the paper
  -- position before, agrees after; the position left is held or none.
  pub paper_follows_ledger :
      (o : Option (PaperPosition Float)) (action side : Text) (qty : ℤ) (ltp : Float)
      → IsHeld o
      → (side ≡ buy) ⊎ (side ≡ sell)
      → is_pos qty ≡ true
      → Fits o action side qty
      → (o' : Option (PaperPosition Float)) × (filled_position N o action side qty ltp
          ≡ returned o')
        × (compute_ledger_qty_after_fill (signed o) qty action side ≡ some (signed o'))
        × IsHeld o'
  unfolding compute_ledger_qty_after_fill
  paper_follows_ledger o action side qty ltp h hs hq fits =
      let (o', done, moved, held) = filled_position-Moves o action side qty ltp h hs hq fits in
      (
        o',
        done,
        ground (arith, delta_of_side side action (pos_part qty) hs, moved, pos_part-pos qty),
        held,
      )

  -- Where an exit of the other side that is no flip is larger than the held position, the paper
  -- book goes flat and the session ledger's entry does not.
  pub over_close_parts :
      (p : PaperPosition Float) (action side : Text) (qty : ℤ) (ltp : Float)
      → IsHeld (some p)
      → (side ≡ buy) ⊎ (side ≡ sell)
      → p.side ≢ side
      → member action flip_actions ≡ false
      → pos_part p.qty < pos_part qty
      → (filled_position N (some p) action side qty ltp ≡ returned none)
        × (compute_ledger_qty_after_fill (signed (some p)) qty action side ≢ some (pos 0))
  unfolding filled_position compute_ledger_qty_after_fill ◌+ℤ◌ neg
  over_close_parts p action side qty ltp h hs other nf more = (
    ground (arith, side_tests p.side side h.0 hs, text_eq_iff p.side side),
    λ e. ground (
      arith,
      delta_of_side side action (pos_part qty) hs,
      side_tests p.side side h.0 hs,
      text_eq_iff p.side side,
      text_eq_iff p.side buy,
      text_eq_iff side buy,
      text_eq_iff p.side sell,
      text_eq_iff side sell,
    ),
  )
