-- ===== src/StopJobs/Simulation.antt =====
-- The stops of a simulation in session_worker/lifecycle.py, over the stop jobs and the registry.
use mintzy_plugin_kelly_opt.Base.{
  Bool, true, false, ◌||◌, not, Option, none, some, [], ◌∷◌, get_or, Call, returned, raised,
  if◌then◌else◌,
}
use mintzy_plugin_kelly_opt.Base.Text.{Text, codes, text_eq}
use mintzy_plugin_kelly_opt.Base.Dict.{lookup}
use mintzy_plugin_kelly_opt.Machine.{Machine}
use mintzy_plugin_kelly_opt.Registry.{Manager, cleanup_worker}
use mintzy_plugin_kelly_opt.Lifecycle.{
  ensure_worker_stopped, stop_session_signal_only, stop_session,
}
use mintzy_plugin_kelly_opt.StopJobs.{
  text, Job, JobCodec, pyramid_handoff_blocked, read_stop_job, init_stop_job, update_stop_job,
  complete_stop_job, fail_stop_job, read_pyramid_handoff_result, mark_simulation_stop,
}

-- The fields that the two stops set: the status with the phase, and the phase alone.
unfoldable pub phase_field : Text → Job
phase_field phase = (codes "phase", text phase) ∷ []

unfoldable pub stopping_fields : Text → Job
stopping_fields phase = (codes "status", text (codes "stopping")) ∷ phase_field phase

-- `existing and existing.get("status") in ("stopping", "completed")`
unfoldable pub is_accepted : Option Job → Bool
is_accepted none = false
is_accepted (some job) = elim (lookup (codes "status") job) [
  | some (text status) ↦ text_eq status (codes "stopping") || text_eq status (codes "completed")
  | _ ↦ false
]

-- The worker's timeout under `ensure_worker_stopped`, where the environment does not set
-- WORKER_FORCE_KILL_WAIT_SECONDS: ten seconds.
abbrev pub worker_force_kill_wait : Prim.Native.Nat.ℕ
worker_force_kill_wait = 10000

module _ (M : Machine) (C : JobCodec) where
  open M use {redis}
  open redis use {Store}

  unfoldable pub stop_simulation_session_async : Text → Manager Store → Bool × Manager Store
  stop_simulation_session_async session_id m =
      if is_accepted (read_stop_job M C session_id m.world)
      then (true, m)
      else let (marked, w1) = mark_simulation_stop M C session_id m.world in
        if not marked
        then (false, record m { world = w1 })
        else let w2 = (init_stop_job M C session_id (stopping_fields (codes "signal_sent")) w1).1 in
          let (signalled, m3) = stop_session_signal_only M session_id (record m { world = w2 }) in
          if not signalled
          then (
            false,
            record m3 {
              world =
                  fail_stop_job M C session_id (codes "Failed to signal simulation worker")
                    m3.world;
            },
          )
          else (
            true,
            record m3 {
              world =
                  (update_stop_job M C session_id (phase_field (codes "waiting_worker"))
                    m3.world).1;
            },
          )

  -- The end of the blocking stop: the handoff goes into the job.
  unfoldable pub hand_over : Text → Manager Store → Manager Store
  hand_over session_id m =
      let h = get_or (read_pyramid_handoff_result M C session_id m.world) pyramid_handoff_blocked in
      record m { world = complete_stop_job M C session_id h true m.world }

  unfoldable pub stop_simulation_session : Text → Manager Store → Call Bool × Manager Store
  unfolding hand_over
  stop_simulation_session session_id m =
      let (marked, w1) = mark_simulation_stop M C session_id m.world in
      if not marked
      then (returned false, record m { world = w1 })
      else let w2 = (init_stop_job M C session_id (stopping_fields (codes "blocking_stop")) w1).1 in
        let (stopped, m3) = stop_session M session_id (record m { world = w2 }) in
        let m4 = cleanup_worker M session_id m3 in
        if not stopped
        then (returned false, m4)
        else let (r, m5) = ensure_worker_stopped M session_id worker_force_kill_wait m4 in
          elim r [
            | raised ↦ (raised, m5)
            | returned fully_stopped ↦
                if fully_stopped then (returned true, hand_over session_id m5) else (
                  returned false,
                  record m5 {
                    world =
                        fail_stop_job M C session_id (codes "Worker did not exit in time") m5.world;
                  },
                )
          ]
