-- ===== src/LiveExit/Answer.antt =====
-- What a single exit leaves behind: after a successful one the cycle does nothing for the symbol, and
-- a failed one has changed nothing but the cached positions.
use mintzy_plugin_kelly_opt.Base.{
  ℕ, ◌+◌, ◌≡◌, inl, inr, refl, Bool, true, false, ◌||◌, Option, List, [], ◌∷◌, ◌++◌, length-append,
  get_or, Call, returned, raised, Option-cases, arith,
}
use mintzy_plugin_kelly_opt.Base.Text.{Text, text_eq_iff, upper, drop_eq_suffix}
use mintzy_plugin_kelly_opt.Base.Dict.{Dict, lookup, lookup-insert}
use mintzy_plugin_kelly_opt.Base.SymbolSet.{member, member-add}
use mintzy_plugin_kelly_opt.Symbols.{Environ, normalize_symbol}
use mintzy_plugin_kelly_opt.Redis.{Redis}
use mintzy_plugin_kelly_opt.Number.{Number}
use mintzy_plugin_kelly_opt.Decimals.{Decimals}
use mintzy_plugin_kelly_opt.Pyramid.Document.{Root}
use mintzy_plugin_kelly_opt.Pyramid.Merge.{Mongo}
use mintzy_plugin_kelly_opt.OrderBatcher.{OrderRequest}
use mintzy_plugin_kelly_opt.Executor.{OrderResult}
use mintzy_plugin_kelly_opt.OrderFill.{Pending, LiveTrader}
use mintzy_plugin_kelly_opt.Analysis.{Info}
use mintzy_plugin_kelly_opt.Cycle.{Note, Cycle}
use mintzy_plugin_kelly_opt.Cycle.Trade.{trade_symbol}
use mintzy_plugin_kelly_opt.Cycle.Results.{add_pending}
use mintzy_plugin_kelly_opt.Cycle.Effects.{slate}
use mintzy_plugin_kelly_opt.Cycle.Frame.{barred_lem}
use mintzy_plugin_kelly_opt.Cycle.Booked.{entries}
use mintzy_plugin_kelly_opt.Executor.Conserved.{as_one}
use mintzy_plugin_kelly_opt.LiveExit.{PositionsReply}
use mintzy_plugin_kelly_opt.LiveExit.Target.{refresh, find_target, exit_note, exit_request}
use mintzy_plugin_kelly_opt.LiveExit.Single.{
  ExitAnswer, order_filled, order_sent, exit_entry, leave_symbol, finish_exit, take_result,
  take_answer, exit_single_position,
}

-- The key success of the answer.
abbrev pub succeeded : ExitAnswer → Bool
succeeded (order_filled id) = true
succeeded (order_sent id) = true
succeeded a = false

abbrev pub was_sent : ExitAnswer → Bool
was_sent (order_sent id) = true
was_sent a = false

-- What trading decides on, without the cached positions and the metadata of the orders.
abbrev pub standing :
    {F S : Type 0} → Cycle F S → LiveTrader F S × Dict (List (Pending F)) × List Text
standing c = (c.desk.trader, c.pending, c.exited_symbols)

module _ (N : Number) (D : Decimals N) (R : Redis) (environ : Environ) where
  open N use {Float}
  open R use {Store}

  -- What a result does to the exited symbols and to the pending orders.
  abbrev Followed : Text → Cycle Float Store → ExitAnswer × Cycle Float Store → Type 0
  Followed symbol c (answer, c') =
      (member symbol c'.exited_symbols ≡ (succeeded answer || member symbol c.exited_symbols))
      × (entries symbol c'.pending ≡ entries symbol c.pending + as_one (was_sent answer))

  take_result-Followed :
      (symbol : Text) (note : Note Float) (now : ℕ) (r : OrderResult) (c : Cycle Float Store)
      → Followed symbol c (take_result N D R environ symbol note now r c)
  unfolding take_result leave_symbol finish_exit add_pending
  take_result-Followed symbol note now r c = ground (
    arith,
    member-add symbol symbol c.exited_symbols,
    text_eq_iff symbol symbol,
    lookup-insert symbol symbol
        (get_or (lookup symbol c.pending) [] ++ exit_entry N D R environ note r now c ∷ [])
        c.pending,
    length-append (get_or (lookup symbol c.pending) [])
        (exit_entry N D R environ note r now c ∷ []),
  )

  take_result-standing :
      (symbol : Text) (note : Note Float) (now : ℕ) (r : OrderResult) (c : Cycle Float Store)
      → succeeded (take_result N D R environ symbol note now r c).0 ≡ false
      → standing (take_result N D R environ symbol note now r c).1 ≡ standing c
  unfolding take_result
  take_result-standing symbol note now r c h = ground arith

  take_answer-Followed :
      (symbol : Text) (note : Note Float) (now : ℕ) (rs : Call (List OrderResult))
      (c : Cycle Float Store)
      → Followed symbol c (take_answer N D R environ symbol note now rs c)
  unfolding take_answer
  take_answer-Followed symbol note now raised c = (refl, omega arith)
  take_answer-Followed symbol note now (returned []) c = (refl, omega arith)
  take_answer-Followed symbol note now (returned (r ∷ rs)) c =
      take_result-Followed symbol note now r c

  take_answer-standing :
      (symbol : Text) (note : Note Float) (now : ℕ) (rs : Call (List OrderResult))
      (c : Cycle Float Store)
      → succeeded (take_answer N D R environ symbol note now rs c).0 ≡ false
      → standing (take_answer N D R environ symbol note now rs c).1 ≡ standing c
  unfolding take_answer
  take_answer-standing symbol note now raised c h = refl
  take_answer-standing symbol note now (returned []) c h = refl
  take_answer-standing symbol note now (returned (r ∷ rs)) c h =
      take_result-standing symbol note now r c h

  module _ (s : Text) (reply : PositionsReply Float) (cycle_ltp : Dict Float)
      (submit : List OrderRequest → Call (List OrderResult)) (now : ℕ) (c : Cycle Float Store) where
    exit-Followed :
        Followed
          (drop_eq_suffix (upper s))
          c
          (exit_single_position N D R environ s reply cycle_ltp submit now c)
    unfolding exit_single_position refresh
    exit-Followed =
        let symbol = drop_eq_suffix (upper s) in
        let c1 = refresh N D reply c in
        elim (Option-cases (find_target N D symbol cycle_ltp c1.desk)) [
          | inl missing ↦ rw (missing, exit_single_position) (refl, omega arith)
          | inr (p, found) ↦
              let note = exit_note N D symbol p c1.desk in
              rw (found, exit_single_position)
                (take_answer-Followed symbol note now
                  (submit (exit_request N D symbol note c1 ∷ []))
                  (record c1 { notes = c1.notes ++ note ∷ [] }))
        ]

    -- An exit of a symbol that answers without success leaves the trader's account, ledger, client
    -- and reservations, the pending orders and the exited symbols as they were.
    pub failed_exit_changes_nothing :
        succeeded (exit_single_position N D R environ s reply cycle_ltp submit now c).0 ≡ false
        → standing (exit_single_position N D R environ s reply cycle_ltp submit now c).1
          ≡ standing c
    unfolding exit_single_position refresh
    failed_exit_changes_nothing =
        let symbol = drop_eq_suffix (upper s) in
        let c1 = refresh N D reply c in
        elim (Option-cases (find_target N D symbol cycle_ltp c1.desk)) [
          | inl missing ↦ rw (missing, exit_single_position) (λ h. refl)
          | inr (p, found) ↦
              let note = exit_note N D symbol p c1.desk in
              rw (found, exit_single_position)
                (take_answer-standing symbol note now
                  (submit (exit_request N D symbol note c1 ∷ []))
                  (record c1 { notes = c1.notes ++ note ∷ [] }))
        ]

    -- After an exit of a symbol that answers with success, the loop over the signals queues and
    -- reserves nothing for a name of that symbol, whatever its signal; and the symbol has one
    -- pending order more than before if the answer is that the order was sent, and as many
    -- otherwise.
    pub exited_symbol_is_left :
        (json_loads : Text → Call (Option (Root Float))) (M : Mongo Float)
        (has_name : Text → M.Store → Call Bool) (st : M.Store) (sym : Text) (info : Info Float)
        → normalize_symbol sym ≡ drop_eq_suffix (upper s)
        → succeeded (exit_single_position N D R environ s reply cycle_ltp submit now c).0 ≡ true
        → (slate (
              trade_symbol N D json_loads M has_name st sym info
                (exit_single_position N D R environ s reply cycle_ltp submit now c).1)
            ≡ slate (exit_single_position N D R environ s reply cycle_ltp submit now c).1)
          × (entries
                (drop_eq_suffix (upper s))
                (exit_single_position N D R environ s reply cycle_ltp submit now c).1.pending
              ≡ entries (drop_eq_suffix (upper s)) c.pending
                + as_one (
                    was_sent (exit_single_position N D R environ s reply cycle_ltp submit now c).0))
    exited_symbol_is_left json_loads M has_name st sym info named ok =
        let (left, counted) = exit-Followed in
        let after = (exit_single_position N D R environ s reply cycle_ltp submit now c).1 in
        (barred_lem N D json_loads M has_name st sym info after (ground (arith, named)), counted)
