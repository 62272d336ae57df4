-- ===== src/Pyramid/Apply.antt =====
-- The steps of `_apply_capital_pyramid_on_stop` of auto_trader_exposure_expansion/pyramid.py: the
-- evaluation of an entry, the static multipliers, the new capitals, and the rows for live trading.
use mintzy_plugin_kelly_opt.Base.{
  false, ◌&&◌, not, Option, none, some, List, [], ◌∷◌, keep, is_empty, is_some, get_or, Call,
  returned, raised, if◌then◌else◌,
}
use mintzy_plugin_kelly_opt.Base.Int.{ℤ}
use mintzy_plugin_kelly_opt.Base.Text.{Text, codes}
use mintzy_plugin_kelly_opt.Base.Dict.{Dict, lookup, insert}
use mintzy_plugin_kelly_opt.Number.{Number}
use mintzy_plugin_kelly_opt.Decimals.{
  Decimals, Field, null, whole, real, get, is_null, is_truthy, float_or,
}
use mintzy_plugin_kelly_opt.Pyramid.Ranks.{
  pyramid_multiplier_for_rank, pyramid_profit_threshold_for_rank,
}
use mintzy_plugin_kelly_opt.Pyramid.Document.{Entry}
use mintzy_plugin_kelly_opt.Pyramid.Merge.{Mongo, ExitDoc, PnlRow}
use mintzy_plugin_kelly_opt.Pyramid.Simulator.{Simulator, LiveRow, Alloc, sized, plain}
use mintzy_plugin_kelly_opt.Pyramid.Unrealized.{get_exited_symbol_doc, get_symbol_unrealized_pnl}

-- What the evaluation of an entry gives: its rank, its unrealised profit, and its row of the report.
pub record Verdict (F : Type 0) : Type 0 where
  pub symbol : Text
  pub entry : Entry F
  pub capital : F
  pub rank : Field F
  pub row : PnlRow F

-- A profitable entry with a valid rank, and its capital after the static multiplier.
pub record Static (F : Type 0) : Type 0 where
  pub symbol : Text
  pub entry : Entry F
  pub rank : Field F
  pub after_static : F

module _ (N : Number) (D : Decimals N) where
  open N use {Float, zero, plus, times, divide, is_pos, le}
  open D use {decimal, round2, less}

  unfoldable pub rank_of : Text → Entry Float → Dict ℤ → Field Float
  rank_of sym_key entry rank_map =
      let given : Field Float = get (codes "rank") entry.fields in
      if is_null given
      then elim (lookup sym_key rank_map) [ none ↦ null | some r ↦ whole r ]
      else given

  module _ (M : Mongo Float) {S P : Type 0} where
    open M use {Store}

    -- `realized` of the loop: that of the exit, or of the trader's own book.
    unfoldable pub realized_of : Text → Option (ExitDoc Float) → Simulator Float S P → Float
    realized_of sym_key exit_doc t = elim exit_doc [
      | some doc ↦ round2 doc.realized_pnl
      | none ↦ round2 (get_or (lookup sym_key t.realized_pnl_by_symbol) zero)
    ]

    -- The loop body, up to the row of the report.
    unfoldable pub evaluate :
        Dict ℤ
        → Store
        → Text × (Entry Float × Float)
        → Simulator Float S P
        → Verdict Float × Simulator Float S P
    unfolding rank_of realized_of
    evaluate rank_map st (sym_key, (entry, cap)) t =
        let exit_doc = get_exited_symbol_doc M sym_key t st in
        let is_exited = is_some exit_doc in
        let (pnl, positions) = get_symbol_unrealized_pnl N D M sym_key t st in
        let unrealized = if is_exited then zero else pnl in
        let realized = realized_of sym_key exit_doc t in
        let rank = rank_of sym_key entry rank_map in
        let threshold = pyramid_profit_threshold_for_rank N D rank cap in
        (
          record {
            symbol = sym_key;
            entry = entry;
            capital = cap;
            rank = rank;
            row = record {
              symbol = sym_key;
              rank = rank;
              is_exited = is_exited;
              exit_reason = elim exit_doc [ none ↦ none | some doc ↦ doc.exit_reason ];
              capital_allocated = round2 cap;
              realized_pnl = realized;
              unrealized_pnl = round2 unrealized;
              total_pnl = round2 (plus realized unrealized);
              profit_threshold = elim threshold [ none ↦ none | some x ↦ some (round2 x) ];
              is_profitable =
                  not is_exited && elim threshold [ none ↦ false | some x ↦ less x unrealized ];
            };
          },
          if is_exited then t else record t { positions = positions },
        )

    unfoldable pub evaluate_all :
        Dict ℤ
        → Store
        → List (Text × (Entry Float × Float))
        → Simulator Float S P
        → List (Verdict Float) × Simulator Float S P
    evaluate_all rank_map st [] t = ([], t)
    evaluate_all rank_map st (e ∷ entries) t =
        let (verdict, t1) = evaluate rank_map st e t in
        let (verdicts, t2) = evaluate_all rank_map st entries t1 in (verdict ∷ verdicts, t2)

  -- The loop of the static multipliers, on the verdicts that are profitable.
  unfoldable pub static_of : Verdict Float → Option (Static Float)
  static_of v = elim (pyramid_multiplier_for_rank N D v.rank) [
    | none ↦ none
    | some static_multiplier ↦ some (record {
      symbol = v.symbol;
      entry = v.entry;
      rank = v.rank;
      after_static = times v.capital static_multiplier;
    })
  ]

  -- `sum(...)`, from the sum so far.
  unfoldable pub sum_static : Float → List (Static Float) → Float
  sum_static total [] = total
  sum_static total (p ∷ ps) = sum_static (plus total p.after_static) ps

  -- `updated_by_symbol`, from the entries so far.
  unfoldable pub updated_entries :
      Float → List (Static Float) → Dict (Entry Float) → Dict (Entry Float)
  updated_entries dynamic_multiplier [] updated = updated
  updated_entries dynamic_multiplier (p ∷ ps) updated =
      let new_capital = round2 (times dynamic_multiplier p.after_static) in
      let new_entry : Entry Float = record {
        symbol = p.entry.symbol;
        fields =
            insert (codes "rank") p.rank
              (insert (codes "capital") (real new_capital) p.entry.fields);
      } in
      updated_entries dynamic_multiplier ps (insert p.symbol new_entry updated)

  -- The stop loss of an entry, or of its allocation: `raised` where the allocation is a value that
  -- has no `get`.
  unfoldable pub stop_loss_of : Dict (Alloc Float) → Text → Entry Float → Call (Field Float)
  stop_loss_of allocations sym_key entry =
      let given : Field Float = get (codes "stop_loss") entry.fields in
      let default : Field Float = real (decimal 5 2) in
      if not (is_null given) then returned given else elim (lookup sym_key allocations) [
        | none ↦ returned default
        | some (sized capital stop_loss) ↦ returned (get_or stop_loss default)
        | some (plain v) ↦ if is_truthy N D v then raised else returned default
      ]

  unfoldable pub live_row : Dict (Alloc Float) → Text → Entry Float → Call (LiveRow Float)
  unfolding stop_loss_of
  live_row allocations sym_key entry = elim (stop_loss_of allocations sym_key entry) [
    | raised ↦ raised
    | returned stop_loss ↦ elim (float_or N D (get (codes "capital") entry.fields) zero) [
      | raised ↦ raised
      | returned capital ↦ elim (float_or N D stop_loss (decimal 5 2)) [
        | raised ↦ raised
        | returned loss ↦
            returned (record { symbol = sym_key; capital = capital; stop_loss = loss })
      ]
    ]
  ]

  unfoldable pub live_rows : Dict (Alloc Float) → Dict (Entry Float) → Call (List (LiveRow Float))
  unfolding live_row
  live_rows allocations [] = returned []
  live_rows allocations ((sym_key, entry) ∷ updated) =
      let rest = live_rows allocations updated in
      elim (live_row allocations sym_key entry) [
        | raised ↦ raised
        | returned r ↦ elim rest [ raised ↦ raised | returned rs ↦ returned (r ∷ rs) ]
      ]

  unfoldable pub symbols_for_live_from_entries :
      Dict (Alloc Float) → Dict (Entry Float) → Call (List (LiveRow Float))
  unfolding live_rows
  symbols_for_live_from_entries allocations updated = elim (live_rows allocations updated) [
    | raised ↦ raised
    | returned rs ↦ returned (keep (λ r. not (is_empty r.symbol) && is_pos r.capital) rs)
  ]
