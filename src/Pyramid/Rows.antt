-- ===== src/Pyramid/Rows.antt =====
-- From the verdicts to the rows for live trading: what holds of the symbols of the one holds of the
-- symbols of the other.
use mintzy_plugin_kelly_opt.Base.{
  true, false, ◌&&◌, not, some, List, [], ◌∷◌, keep, collect, is_empty, returned, ◌≡◌, refl, sym,
  subst, push, arith, inl, inr, All, Option-cases, Call-cases,
}
use mintzy_plugin_kelly_opt.Base.Text.{Text}
use mintzy_plugin_kelly_opt.Base.Dict.{Dict, insert}
use mintzy_plugin_kelly_opt.Number.{Number}
use mintzy_plugin_kelly_opt.Decimals.{Decimals}
use mintzy_plugin_kelly_opt.Pyramid.Ranks.{pyramid_multiplier_for_rank}
use mintzy_plugin_kelly_opt.Pyramid.Document.{Entry}
use mintzy_plugin_kelly_opt.Pyramid.Simulator.{LiveRow, Alloc}
use mintzy_plugin_kelly_opt.Pyramid.Apply.{
  Verdict, Static, static_of, updated_entries, live_row, live_rows, symbols_for_live_from_entries,
}
use mintzy_plugin_kelly_opt.Pyramid.Handoff.{is_winner}

-- Every key of a dictionary satisfies the predicate.
abbrev pub AllKeys {κ} : {V : Type 0} → (Text → Type κ) → Dict V → Type κ
AllKeys P = All (λ (k, v). P k)

insert-AllKeys {κ} :
    {V : Type 0} (P : Text → Type κ) (k : Text) (v : V) (d : Dict V)
    → P k
    → AllKeys P d
    → AllKeys P (insert k v d)
unfolding insert
insert-AllKeys P k v [] h hs = (h, tt)
insert-AllKeys P k v ((j, w) ∷ d) h hs = ground (arith, insert-AllKeys P k v d h hs.1)

module _ (N : Number) (D : Decimals N) where
  open N use {Float, zero, divide, is_pos}

  -- The verdicts that win satisfy what winning gives.
  pub winners-All {κ} :
      (P : Verdict Float → Type κ) (verdicts : List (Verdict Float))
      → All (λ v. is_winner v ≡ true → P v) verdicts
      → All P (keep is_winner verdicts)
  winners-All P [] h = tt
  winners-All P (v ∷ vs) h = ground (arith, winners-All P vs h.1)

  static_of-symbol :
      (v : Verdict Float) (p : Static Float) → static_of N D v ≡ some p → p.symbol ≡ v.symbol
  unfolding static_of
  static_of-symbol v p h = elim (Option-cases (pyramid_multiplier_for_rank N D v.rank)) [
    | inl q ↦ cc
    | inr (m, q) ↦ ground arith
  ]

  pub statics-All {κ} :
      (P : Text → Type κ) (vs : List (Verdict Float))
      → All (λ v. P v.symbol) vs
      → All (λ p. P p.symbol) (collect (static_of N D) vs)
  statics-All P [] h = tt
  statics-All P (v ∷ vs) h = elim (Option-cases (static_of N D v)) [
    | inl q ↦
        subst (λ o. All (λ p. P p.symbol) (push o (collect (static_of N D) vs))) (sym q)
          (statics-All P vs h.1)
    | inr (p, q) ↦
        subst (λ o. All (λ p. P p.symbol) (push o (collect (static_of N D) vs))) (sym q)
          (subst P (sym (static_of-symbol v p q)) h.0, statics-All P vs h.1)
  ]

  -- The updates are no fewer than one where there is a static one.
  insert-full : {V : Type 0} (k : Text) (v : V) (d : Dict V) → is_empty (insert k v d) ≡ false
  unfolding insert
  insert-full k v [] = refl
  insert-full k v ((j, w) ∷ d) = ground arith

  updated_entries-full :
      (m : Float) (ps : List (Static Float)) (updated : Dict (Entry Float))
      → is_empty updated ≡ false
      → is_empty (updated_entries N D m ps updated) ≡ false
  unfolding updated_entries
  updated_entries-full m [] updated h = h
  updated_entries-full m (p ∷ ps) updated h =
      updated_entries-full m ps _ (insert-full p.symbol _ updated)

  pub updated-full :
      (m : Float) (ps : List (Static Float))
      → is_empty ps ≡ false
      → is_empty (updated_entries N D m ps []) ≡ false
  unfolding updated_entries
  updated-full m [] h = ground arith
  updated-full m (p ∷ ps) h = updated_entries-full m ps _ (insert-full p.symbol _ [])

  -- A verdict with a multiplier.
  abbrev pub HasMultiplier : Verdict Float → Type 0
  HasMultiplier v = (m : Float) × (pyramid_multiplier_for_rank N D v.rank ≡ some m)

  pub statics-full :
      (vs : List (Verdict Float))
      → All HasMultiplier vs
      → is_empty vs ≡ false
      → is_empty (collect (static_of N D) vs) ≡ false
  unfolding static_of
  statics-full [] h k = ground arith
  statics-full (v ∷ vs) h k = let e = h.0.1 in ground arith

  pub updated-AllKeys {κ} :
      (P : Text → Type κ) (dynamic_multiplier : Float) (statics : List (Static Float))
      (updated : Dict (Entry Float))
      → All (λ p. P p.symbol) statics
      → AllKeys P updated
      → AllKeys P (updated_entries N D dynamic_multiplier statics updated)
  unfolding updated_entries
  updated-AllKeys P m [] updated h hs = hs
  updated-AllKeys P m (p ∷ ps) updated h hs =
      updated-AllKeys P m ps _ h.1 (insert-AllKeys P p.symbol _ updated h.0 hs)

  live_row-symbol :
      (allocations : Dict (Alloc Float)) (k : Text) (e : Entry Float) (r : LiveRow Float)
      → live_row N D allocations k e ≡ returned r
      → r.symbol ≡ k
  unfolding live_row
  live_row-symbol allocations k e r h = ground arith

  live_rows-All {κ} :
      (P : Text → Type κ) (allocations : Dict (Alloc Float)) (updated : Dict (Entry Float))
      (rows : List (LiveRow Float))
      → AllKeys P updated
      → live_rows N D allocations updated ≡ returned rows
      → All (λ r. P r.symbol) rows
  unfolding live_rows
  live_rows-All P allocations [] rows h e =
      let same : [] ≡ rows = ground arith in subst (All (λ r. P r.symbol)) same tt
  live_rows-All P allocations ((k, en) ∷ d) rows h e =
      elim (Call-cases (live_row N D allocations k en)) [
        | inl q ↦ ground arith
        | inr (r, q) ↦ elim (Call-cases (live_rows N D allocations d)) [
          | inl w ↦ ground arith
          | inr (rs, w) ↦
              let same : (r ∷ rs) ≡ rows = ground arith in
              subst (All (λ r. P r.symbol)) same (
                subst P (sym (live_row-symbol allocations k en r q)) h.0,
                live_rows-All P allocations d rs h.1 w,
              )
        ]
      ]

  -- A symbol of a live row, and its capital.
  abbrev pub IsLive {κ} : (Text → Type κ) → LiveRow Float → Type κ
  IsLive P r = P r.symbol × (is_pos r.capital ≡ true)

  kept-All {κ} :
      (P : Text → Type κ) (rows : List (LiveRow Float))
      → All (λ r. P r.symbol) rows
      → All (IsLive P) (keep (λ r. not (is_empty r.symbol) && is_pos r.capital) rows)
  kept-All P [] h = tt
  kept-All P (r ∷ rows) h = ground (arith, kept-All P rows h.1)

  pub IsLive-All {κ} :
      (P : Text → Type κ) (allocations : Dict (Alloc Float)) (updated : Dict (Entry Float))
      (live : List (LiveRow Float))
      → AllKeys P updated
      → symbols_for_live_from_entries N D allocations updated ≡ returned live
      → All (IsLive P) live
  unfolding symbols_for_live_from_entries
  IsLive-All P allocations updated live h e =
      elim (Call-cases (live_rows N D allocations updated)) [
        | inl q ↦ ground arith
        | inr (rows, q) ↦
            let same : keep (λ r. not (is_empty r.symbol) && is_pos r.capital) rows ≡ live =
              ground arith in
            subst (All (IsLive P)) same
              (kept-All P rows (live_rows-All P allocations updated rows h q))
      ]
