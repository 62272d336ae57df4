-- ===== src/EodExit/Exclusion.antt =====
-- The guard of utils/eod_exit.py under any interleaving of its callers, and when a day ends.
use mintzy_plugin_kelly_opt.Base.{
  ℕ, suc, ◌≤◌, ◌≡◌, refl, ◌≢◌, ◌↔◌, Bool, true, false, Option, none, List, [], ◌∷◌, arith, get_or,
  Call,
}
use mintzy_plugin_kelly_opt.Base.Text.{Text}
use mintzy_plugin_kelly_opt.Redis.{Redis, SessionMeta}
use mintzy_plugin_kelly_opt.Symbols.{Environ, BrokerPosition}
use mintzy_plugin_kelly_opt.Base.Dict.{values}
use mintzy_plugin_kelly_opt.Ledger.{Trader, get_session_ledger, ledger_has_open_positions}
use mintzy_plugin_kelly_opt.ExitPlan.{ExitRow, build_eod_exit_plan}
use mintzy_plugin_kelly_opt.EodExit.{
  EodState, proceed, finished, try_begin_eod_exit, mark_eod_exit_done, release_eod_exit_in_progress,
  Books, finalize_eod_shutdown, judge_plan, prepare_eod_exit_plan,
}

-- The guard with the number of callers that were told to proceed and have not ended yet.
pub record World : Type 0 where
  pub guard : EodState
  pub running : ℕ

-- A caller asks, and runs if it is told to proceed; a running caller ends by marking the day done or
-- by giving up, as `_exit_all_positions_and_stop` does on each of its paths.
pub data Step (w : World) : World → Type 0 where
  enter :
      (try_begin_eod_exit w.guard).0 ≡ proceed
      → Step w (record { guard = (try_begin_eod_exit w.guard).1; running = suc w.running })
  refused :
      (try_begin_eod_exit w.guard).0 ≢ proceed
      → Step w (record { guard = (try_begin_eod_exit w.guard).1; running = w.running })
  finish :
      (n : ℕ)
      → w.running ≡ suc n
      → Step w (record { guard = mark_eod_exit_done w.guard; running = n })
  give_up :
      (n : ℕ)
      → w.running ≡ suc n
      → Step w (record { guard = release_eod_exit_in_progress w.guard; running = n })

pub data Reach (w : World) : World → Type 0 where
  here : Reach w w
  next : {u v : World} → Reach w u → Step u v → Reach w v

abbrev pub fresh : World
fresh = record { guard = record { exit_done = none; in_progress = none }; running = 0 }

abbrev is_done : World → Bool
is_done w = get_or w.guard.exit_done false

-- One caller runs exactly while the guard says so.
record IsGuarded (w : World) : Type 0 where
  held : get_or w.guard.in_progress false ≡ true → w.running ≡ 1
  free : get_or w.guard.in_progress false ≡ false → w.running ≡ 0

Step-IsGuarded : {u v : World} → Step u v → IsGuarded u → IsGuarded v
unfolding try_begin_eod_exit mark_eod_exit_done release_eod_exit_in_progress
Step-IsGuarded (enter p) h = record { held = ground arith; free = ground arith }
Step-IsGuarded (refused p) h = record { held = ground arith; free = ground arith }
Step-IsGuarded (finish n p) h = record { held = ground arith; free = ground arith }
Step-IsGuarded (give_up n p) h = record { held = ground arith; free = ground arith }

Reach-IsGuarded : {u v : World} → Reach u v → IsGuarded u → IsGuarded v
Reach-IsGuarded here h = h
Reach-IsGuarded (next r s) h = Step-IsGuarded s (Reach-IsGuarded r h)

-- In every state that the callers of the end-of-day guard can reach, at most one of them runs the
-- exit.
pub at_most_one_runs : {w : World} → Reach fresh w → w.running ≤ 1
at_most_one_runs {w} r =
    let h = Reach-IsGuarded r (record { held = λ e. ground arith; free = λ e. refl }) in
    ground (arith, h.held, h.free)

Step-done : {u v : World} → Step u v → is_done u ≡ true → is_done v ≡ true
unfolding try_begin_eod_exit mark_eod_exit_done release_eod_exit_in_progress
Step-done (enter p) h = ground arith
Step-done (refused p) h = ground arith
Step-done (finish n p) h = refl
Step-done (give_up n p) h = ground arith

Reach-done : {u v : World} → Reach u v → is_done u ≡ true → is_done v ≡ true
Reach-done here h = h
Reach-done (next r s) h = Step-done s (Reach-done r h)

-- Once the day is marked done, whatever the callers do after it, the next caller is told that it
-- is done.
done_is_final :
    (u : World) {v : World}
    → Reach (record { guard = mark_eod_exit_done u.guard; running = u.running }) v
    → (try_begin_eod_exit v.guard).0 ≡ finished
unfolding try_begin_eod_exit mark_eod_exit_done
done_is_final u r = ground (arith, Reach-done r refl)

-- After a caller gives up before the day is done, the next caller is told to proceed.
retry_after_release :
    (s : EodState)
    → get_or s.exit_done false ≡ false
    → (try_begin_eod_exit (release_eod_exit_in_progress s)).0 ≡ proceed
unfolding try_begin_eod_exit release_eod_exit_in_progress
retry_after_release s h = ground arith

judge_plan_lem :
    {F : Type 0} (plan : List (ExitRow F)) (t : Trader)
    → ((judge_plan plan t).1 ≡ true) ↔ ((plan ≡ []) × (ledger_has_open_positions t ≡ false))
unfolding judge_plan
judge_plan_lem [] t = (λ h. (refl, ground arith), λ h. ground arith)
judge_plan_lem (r ∷ plan) t = (λ h. ground arith, λ h. ground arith)

module _ (R : Redis) (json_loads : Text → Call SessionMeta) where
  open R use {Store}

  -- The day may end without orders exactly if the exit plan is empty and the ledger has no open
  -- position.
  done_without_orders_iff :
      {F : Type 0} (environ : Environ) (t : Trader) (client : Option Store)
      (positions : List (BrokerPosition F)) (fallback : List Text)
      → ((prepare_eod_exit_plan R json_loads environ t client positions fallback).1 ≡ true) ↔ (
          ((build_eod_exit_plan R json_loads environ t client positions fallback).0 ≡ [])
          × (ledger_has_open_positions t ≡ false))
  unfolding prepare_eod_exit_plan
  done_without_orders_iff environ t client positions fallback =
      judge_plan_lem (build_eod_exit_plan R json_loads environ t client positions fallback).0 t

-- The shutdown that clears positions leaves no open position in the ledger of a trader that has
-- its lock.
shutdown_clears_ledger {ℓ κ} :
    {P : Type ℓ} {C : Type κ} (sync_cash : Option (C → C)) (sync_broker : Bool) (b : Books P C)
    → b.trader.has_lock ≡ true
    → ledger_has_open_positions (finalize_eod_shutdown sync_cash true sync_broker b).trader ≡ false
unfolding finalize_eod_shutdown ledger_has_open_positions get_session_ledger values
shutdown_clears_ledger sync_cash sync_broker b h = ground (arith, h)
