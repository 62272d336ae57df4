-- ===== src/LiveExit/Settled.antt =====
-- How the live end-of-day exit of eod_exit.py leaves the guard, for the callers that come after it.
use mintzy_plugin_kelly_opt.Base.{
  ◌≡◌, ◌∙◌, sym as p_sym, inl, inr, refl, Bool, true, false, List, [], ◌∷◌, length, Call, returned,
  raised, arith, Call-cases, ◌⊎◌, Bool-cases,
}
use mintzy_plugin_kelly_opt.Base.Text.{Text}
use mintzy_plugin_kelly_opt.Symbols.{Environ}
use mintzy_plugin_kelly_opt.Redis.{Redis, SessionMeta}
use mintzy_plugin_kelly_opt.Number.{Number}
use mintzy_plugin_kelly_opt.Decimals.{Decimals}
use mintzy_plugin_kelly_opt.OrderBatcher.{OrderRequest}
use mintzy_plugin_kelly_opt.Executor.{OrderResult}
use mintzy_plugin_kelly_opt.ExitPlan.{ExitRow}
use mintzy_plugin_kelly_opt.EodExit.{
  EodState, Slot, proceed, finished, busy, ensure_eod_state, try_begin_eod_exit, mark_eod_exit_done,
  release_eod_exit_in_progress, exit_plan_to_broker_positions,
}
use mintzy_plugin_kelly_opt.LiveExit.Target.{refresh}
use mintzy_plugin_kelly_opt.LiveExit.EndOfDay.{
  Day, DayInput, exit_requests, send_exits, follow_plan, plan_day, run_eod_exit_body, conclude,
  exit_all_positions_and_stop,
}

-- What the next caller is told.
abbrev pub next_slot : Slot → Bool → Slot
next_slot slot true = finished
next_slot busy false = busy
next_slot slot false = proceed

module _ (N : Number) (D : Decimals N) (R : Redis) (environ : Environ)
    (json_loads : Text → Call SessionMeta) where
  open N use {Float}
  open R use {Store}

  -- What the outcome of the body says of the guard: answered with true, the day is done; with false,
  -- it is released; and where the body raised the guard is as it was.
  abbrev Guarded : EodState → Call Bool × Day Float Store → Type 0
  Guarded eod (returned true, d) = d.eod ≡ mark_eod_exit_done eod
  Guarded eod (returned false, d) = d.eod ≡ release_eod_exit_in_progress eod
  Guarded eod (raised, d) = d.eod ≡ eod

  send_exits-Guarded :
      (i : DayInput Float Store) (ps : _) (d : Day Float Store)
      → Guarded d.eod (send_exits N D R environ json_loads i ps d)
  unfolding send_exits
  send_exits-Guarded i ps d =
      elim (Call-cases (i.submit (exit_requests (length d.cycle.notes) ps))) [
        | inl fails ↦ rw (fails, send_exits, Guarded) refl
        | inr (rs, sent) ↦ rw (sent, send_exits, Guarded) refl
      ]

  follow_plan-Guarded :
      (i : DayInput Float Store) (plan : List (ExitRow Float)) (mark_done_empty : Bool)
      (d : Day Float Store)
      → Guarded d.eod (follow_plan N D R environ json_loads i plan mark_done_empty d)
  unfolding follow_plan
  follow_plan-Guarded i (r ∷ plan) mark_done_empty d =
      send_exits-Guarded i (exit_plan_to_broker_positions (r ∷ plan)) d
  follow_plan-Guarded i [] true d = refl
  follow_plan-Guarded i [] false d = refl

  conclude-Guarded :
      (s : EodState) (d : Day Float Store) (outcome : Call Bool × Day Float Store)
      → d.eod ≡ (try_begin_eod_exit s).1
      → Guarded d.eod outcome
      → (try_begin_eod_exit
          (conclude N D R environ json_loads (try_begin_eod_exit s).0 d outcome).1.eod).0
        ≡ next_slot
            (try_begin_eod_exit s).0
            (conclude N D R environ json_loads (try_begin_eod_exit s).0 d outcome).0
  unfolding conclude try_begin_eod_exit mark_eod_exit_done release_eod_exit_in_progress
      ensure_eod_state
  conclude-Guarded s d (returned true, d') e h = ground arith
  conclude-Guarded s d (returned false, d') e h = ground arith
  conclude-Guarded s d (raised, d') e h = ground arith

  module _ (i : DayInput Float Store) (d : Day Float Store) where
    -- After the live end-of-day exit the next caller is told that the day is done if the exit
    -- answered true; otherwise it is told to proceed, or that the exit is busy if this exit was
    -- told so.
    pub day_ends_or_is_retried :
        (try_begin_eod_exit (exit_all_positions_and_stop N D R environ json_loads i d).1.eod).0
        ≡ next_slot
            (try_begin_eod_exit d.eod).0
            (exit_all_positions_and_stop N D R environ json_loads i d).0
    unfolding exit_all_positions_and_stop run_eod_exit_body
    day_ends_or_is_retried =
        let (slot, eod) = try_begin_eod_exit d.eod in
        let c = refresh N D i.reply d.cycle in
        let planned = plan_day N D R environ json_loads i c in
        conclude-Guarded d.eod (record d { eod = eod })
          (follow_plan N D R environ json_loads i planned.0 planned.1
            (record { cycle = c; eod = eod }))
          refl (follow_plan-Guarded i planned.0 planned.1 (record { cycle = c; eod = eod }))

  -- The executor returns results, whatever they are.
  abbrev pub Answers : (List OrderRequest → Call (List OrderResult)) → Type 0
  Answers submit = (os : List OrderRequest) → (rs : List OrderResult) × (submit os ≡ returned rs)

  -- What an outcome tells of the answer and of the guard.
  abbrev told : Call Bool × Day Float Store → Call Bool × EodState
  told (answer, d) = (answer, d.eod)

  send_exits-told :
      (i : DayInput Float Store) (ps : _) (d : Day Float Store)
      → Answers i.submit
      → told (send_exits N D R environ json_loads i ps d)
        ≡ (returned true, mark_eod_exit_done d.eod)
  unfolding send_exits
  send_exits-told i ps d h =
      let (rs, sent) = h (exit_requests (length d.cycle.notes) ps) in rw (sent, send_exits) refl

  follow_plan-told :
      (i : DayInput Float Store) (submit' : List OrderRequest → Call (List OrderResult))
      (plan : List (ExitRow Float)) (mark_done_empty : Bool) (d : Day Float Store)
      → Answers i.submit
      → Answers submit'
      → told (follow_plan N D R environ json_loads i plan mark_done_empty d)
        ≡ told (
            follow_plan N D R environ json_loads
              (record i { submit = submit' })
              plan
              mark_done_empty
              d)
  unfolding follow_plan
  follow_plan-told i submit' (r ∷ plan) mark_done_empty d h k =
      let ps = exit_plan_to_broker_positions (r ∷ plan) in
      send_exits-told i ps d h ∙ p_sym (send_exits-told (record i { submit = submit' }) ps d k)
  follow_plan-told i submit' [] true d h k = refl
  follow_plan-told i submit' [] false d h k = refl

  conclude-told :
      (slot : Slot) (d : Day Float Store) (u v : Call Bool × Day Float Store)
      → told u ≡ told v
      → ((conclude N D R environ json_loads slot d u).0
          ≡ (conclude N D R environ json_loads slot d v).0)
        × ((conclude N D R environ json_loads slot d u).1.eod
            ≡ (conclude N D R environ json_loads slot d v).1.eod)
  unfolding conclude release_eod_exit_in_progress ensure_eod_state
  conclude-told finished d u v h = (refl, refl)
  conclude-told busy d u v h = (refl, refl)
  conclude-told proceed d (returned a, d1) (returned b, d2) h = (ground arith, ground arith)
  conclude-told proceed d (returned a, d1) (raised, d2) h = (ground arith, ground arith)
  conclude-told proceed d (raised, d1) (returned b, d2) h = (ground arith, ground arith)
  conclude-told proceed d (raised, d1) (raised, d2) h = (ground arith, ground arith)

  finished-exit :
      (i : DayInput Float Store) (d : Day Float Store)
      → try_begin_eod_exit d.eod ≡ (finished, d.eod)
      → exit_all_positions_and_stop N D R environ json_loads i d ≡ (true, d)
  unfolding exit_all_positions_and_stop conclude
  finished-exit i d h = rw (h, exit_all_positions_and_stop, conclude) refl

  conclude-final :
      (s : EodState) (d : Day Float Store) (outcome : Call Bool × Day Float Store)
      → d.eod ≡ (try_begin_eod_exit s).1
      → Guarded d.eod outcome
      → (conclude N D R environ json_loads (try_begin_eod_exit s).0 d outcome).0 ≡ true
      → (let eod = (conclude N D R environ json_loads (try_begin_eod_exit s).0 d outcome).1.eod in
          try_begin_eod_exit eod ≡ (finished, eod))
  unfolding conclude try_begin_eod_exit mark_eod_exit_done release_eod_exit_in_progress
      ensure_eod_state
  conclude-final s d (returned true, d') e h k = ground arith
  conclude-final s d (returned false, d') e h k = ground arith
  conclude-final s d (raised, d') e h k = ground arith

  -- Where the executor returns results, the exit answers false only if it is busy or has no plan.
  conclude-unanswered :
      (slot : Slot) (i : DayInput Float Store) (plan : List (ExitRow Float))
      (mark_done_empty : Bool) (d d1 : Day Float Store)
      → Answers i.submit
      → (conclude N D R environ json_loads slot d
          (follow_plan N D R environ json_loads i plan mark_done_empty d1)).0
        ≡ false
      → (slot ≡ busy) ⊎ (plan ≡ [])
  unfolding conclude follow_plan send_exits
  conclude-unanswered busy i plan mark_done_empty d d1 h k = inl refl
  conclude-unanswered finished i plan mark_done_empty d d1 h k = ground arith
  conclude-unanswered proceed i [] mark_done_empty d d1 h k = inr refl
  conclude-unanswered proceed i (r ∷ plan) mark_done_empty d d1 h k =
      let (rs, sent) =
        h (exit_requests (length d1.cycle.notes) (exit_plan_to_broker_positions (r ∷ plan))) in
      ground arith

  module _ (i : DayInput Float Store) (d : Day Float Store) where
    -- If the executor returns results whatever orders it is given, neither the answer of the live
    -- end-of-day exit nor the guard that it leaves depends on which results they are; and a later
    -- exit answers true and changes nothing, whatever it is given, unless this exit answers false,
    -- which it does only if it is told that the exit is busy or its plan is empty.
    pub failed_exits_are_not_retried :
        (submit' : List OrderRequest → Call (List OrderResult)) (later : DayInput Float Store)
        → Answers i.submit
        → Answers submit'
        → let first = exit_all_positions_and_stop N D R environ json_loads i d in
          let other =
            exit_all_positions_and_stop N D R environ json_loads
              (record i { submit = submit' })
              d in
          (first.0 ≡ other.0)
          × (first.1.eod ≡ other.1.eod)
          × (((first.0 ≡ false)
                × (((try_begin_eod_exit d.eod).0 ≡ busy)
                    ⊎ ((plan_day N D R environ json_loads i (refresh N D i.reply d.cycle)).0 ≡ [])))
              ⊎ (exit_all_positions_and_stop N D R environ json_loads later first.1
                  ≡ (true, first.1)))
    unfolding exit_all_positions_and_stop run_eod_exit_body conclude plan_day
    failed_exits_are_not_retried submit' later h k =
        let (slot, eod) = try_begin_eod_exit d.eod in
        let c = refresh N D i.reply d.cycle in
        let planned = plan_day N D R environ json_loads i c in
        let d1 : Day Float Store = record d { eod = eod } in
        let body =
          follow_plan N D R environ json_loads i planned.0 planned.1
            (record { cycle = c; eod = eod }) in
        let other =
          follow_plan N D R environ json_loads (record i { submit = submit' }) planned.0 planned.1
            (record { cycle = c; eod = eod }) in
        let (same_answer, same_guard) =
          conclude-told slot d1 body other (
            follow_plan-told i submit' planned.0 planned.1 (record { cycle = c; eod = eod }) h k) in
        let guarded = follow_plan-Guarded i planned.0 planned.1 (record { cycle = c; eod = eod }) in
        (
          same_answer,
          same_guard,
          elim (Bool-cases (conclude N D R environ json_loads slot d1 body).0) [
            | inl ok ↦ inr (
                finished-exit later (conclude N D R environ json_loads slot d1 body).1
                  (conclude-final d.eod d1 body refl guarded ok))
            | inr retried ↦ inl (
              retried,
              conclude-unanswered slot i planned.0 planned.1 d1 (record { cycle = c; eod = eod }) h
                  retried,
            )
          ],
        )
