-- ===== src/StopJobs/Reading.antt =====
-- What the readers of a stop job find, where the client gives back what it was given.
use mintzy_plugin_kelly_opt.Base.{
  ◌≡◌, refl, ◌∙◌, Bool, true, ◌&&◌, Option, none, some, [], ◌∷◌, returned, if◌then◌else◌, arith,
  Bool-cases, inl, inr, is_some,
}
use mintzy_plugin_kelly_opt.Base.Text.{Text, codes, text_eq}
use mintzy_plugin_kelly_opt.Base.Dict.{lookup, insert, lookup-insert}
use mintzy_plugin_kelly_opt.Symbols.{present}
use mintzy_plugin_kelly_opt.RedisKeys.{stop_job_key}
use mintzy_plugin_kelly_opt.Machine.{Machine}
use mintzy_plugin_kelly_opt.Registry.{Manager, cleanup_worker}
use mintzy_plugin_kelly_opt.Registry.Cleared.{IsCleared}
use mintzy_plugin_kelly_opt.Lifecycle.{
  stop_session_signal_only, stop_session, ensure_worker_stopped,
}
use mintzy_plugin_kelly_opt.Lifecycle.LiveStart.{ensure-IsCleared}
use mintzy_plugin_kelly_opt.StopJobs.{
  Value, flag, text, handoff, Handoff, Job, JobCodec, update, job_or, assumed_job, read_stop_job,
  update_stop_job, complete_stop_job, completion_fields, init_stop_job, mark_simulation_stop,
  stop_job_ttl,
}
use mintzy_plugin_kelly_opt.StopJobs.Simulation.{
  phase_field, stopping_fields, is_accepted, stop_simulation_session_async, hand_over,
  stop_simulation_session, worker_force_kill_wait,
}

-- The value of a field after an update: the last one that the update sets, or the one before.
abbrev pub updated : Text → Job → Option Value → Option Value
updated k [] v = v
updated k ((j, x) ∷ fields) v = updated k fields (if text_eq j k then some x else v)

lookup-update :
    (k : Text) (job fields : Job) → lookup k (update job fields) ≡ updated k fields (lookup k job)
unfolding update
lookup-update k job [] = refl
lookup-update k job ((j, x) ∷ fields) =
    rw (lookup-update k (insert j x job) fields, lookup-insert j k x job) refl

-- An accepted job is the one that an update starts from.
job_or_accepted :
    (o : Option Job) (d : Job) → is_accepted o ≡ true → is_accepted (some (job_or o d)) ≡ true
unfolding is_accepted lookup
job_or_accepted none d a = ground arith
job_or_accepted (some []) d a = ground arith
job_or_accepted (some (f ∷ job)) d a = a

module _ (M : Machine) (C : JobCodec) where
  open M use {redis, now}
  open redis use {Store, get, setex}
  open C use {loads_job, dumps_job}

  -- The client gives back the job that a write has set, if the write did not raise, and the JSON of
  -- that job, which is not the empty text, reads back as the job.
  pub record ReadsBack (session_id : Text) (job : Job) (w : Store) : Type 0 where
    pub kept :
        (setex (stop_job_key session_id) stop_job_ttl (dumps_job job) w).0 ≡ returned tt
        → get
            (stop_job_key session_id)
            (setex (stop_job_key session_id) stop_job_ttl (dumps_job job) w).1
          ≡ returned (some (dumps_job job))
    pub same_job : loads_job (dumps_job job) ≡ returned job
    pub nonempty : present (some (dumps_job job)) ≡ some (dumps_job job)

  -- The job that an update starts from.
  abbrev pub job_before : Text → Store → Job
  job_before session_id w = job_or (read_stop_job M C session_id w) (assumed_job session_id (now w))

  -- What an update writes reads back.
  abbrev pub UpdateReadsBack : Text → Job → Store → Type 0
  UpdateReadsBack session_id fields w =
      ReadsBack session_id (update (job_before session_id w) fields) w

  read_lem :
      (session_id s : Text) (job : Job) (w : Store)
      → get (stop_job_key session_id) w ≡ returned (some s)
      → present (some s) ≡ some s
      → loads_job s ≡ returned job
      → read_stop_job M C session_id w ≡ some job
  unfolding read_stop_job
  read_lem session_id s job w g n l = ground (arith, g, n, l)

  update_lem :
      (session_id : Text) (fields : Job) (w : Store)
      → UpdateReadsBack session_id fields w
      → is_some (update_stop_job M C session_id fields w).0 ≡ true
      → read_stop_job M C session_id (update_stop_job M C session_id fields w).1
        ≡ some (update (job_before session_id w) fields)
  unfolding update_stop_job
  update_lem session_id fields w r h =
      let job = update (job_before session_id w) fields in
      let w1 = (setex (stop_job_key session_id) stop_job_ttl (dumps_job job) w).1 in
      ground (arith, h, r.kept, read_lem session_id (dumps_job job) job w1, r.nonempty, r.same_job)

  -- After an update whose write did not fail and reads back, the readers find a job in which every
  -- field is what the update sets it to, or what it was.
  update_changes_its_fields :
      (session_id : Text) (fields : Job) (w : Store) (k : Text)
      → UpdateReadsBack session_id fields w
      → is_some (update_stop_job M C session_id fields w).0 ≡ true
      → (job : Job) × (read_stop_job M C session_id (update_stop_job M C session_id fields w).1
          ≡ some job)
        × (lookup k job ≡ updated k fields (lookup k (job_before session_id w)))
  update_changes_its_fields session_id fields w k r h = (
    update (job_before session_id w) fields,
    update_lem session_id fields w r h,
    lookup-update k (job_before session_id w) fields,
  )

  -- After a completion whose write did not fail and reads back, the readers find the status
  -- completed, the handoff and its live_allowed, and the trading_status simulation_stopped exactly
  -- if the stop is one of a simulation and the handoff allows live trading.
  completed_job_tells :
      (session_id : Text) (h : Handoff) (simulation_stop : Bool) (w : Store)
      → UpdateReadsBack session_id (completion_fields (now w) h simulation_stop) w
      → is_some (update_stop_job M C session_id (completion_fields (now w) h simulation_stop) w).0
        ≡ true
      → (job : Job) × (read_stop_job M C session_id
            (complete_stop_job M C session_id h simulation_stop w)
          ≡ some job)
        × (lookup (codes "status") job ≡ some (text (codes "completed")))
        × (lookup (codes "pyramid") job ≡ some (handoff h))
        × (lookup (codes "live_allowed") job ≡ some (flag h.live_allowed))
        × (lookup (codes "trading_status") job
            ≡ some (
                text (
                  if simulation_stop && h.live_allowed
                  then codes "simulation_stopped"
                  else codes "stopped")))
  unfolding complete_stop_job text_eq
  completed_job_tells session_id h simulation_stop w r ok =
      let fields = completion_fields (now w) h simulation_stop in
      let job = job_before session_id w in
      (
        update job fields,
        update_lem session_id fields w r ok,
        lookup-update (codes "status") job fields,
        lookup-update (codes "pyramid") job fields,
        lookup-update (codes "live_allowed") job fields,
        lookup-update (codes "trading_status") job fields,
      )

  -- A job's status is not touched by a new phase.
  phase_keeps_status :
      (job : Job) (phase : Text)
      → is_accepted (some (update job (phase_field phase))) ≡ is_accepted (some job)
  unfolding is_accepted phase_field text_eq
  phase_keeps_status job phase =
      rw (is_accepted, lookup-update (codes "status") job (phase_field phase)) refl

  accepted_update :
      (session_id phase : Text) (w : Store)
      → UpdateReadsBack session_id (phase_field phase) w
      → is_accepted (read_stop_job M C session_id w) ≡ true
      → is_some (update_stop_job M C session_id (phase_field phase) w).0 ≡ true
      → is_accepted
          (read_stop_job M C session_id (update_stop_job M C session_id (phase_field phase) w).1)
        ≡ true
  accepted_update session_id phase w r a ok =
      rw (update_lem session_id (phase_field phase) w r ok) (
        phase_keeps_status (job_before session_id w) phase
        ∙ job_or_accepted (read_stop_job M C session_id w) (assumed_job session_id (now w)) a)

  accepted_again :
      (session_id : Text) (m : Manager Store)
      → is_accepted (read_stop_job M C session_id m.world) ≡ true
      → stop_simulation_session_async M C session_id m ≡ (true, m)
  unfolding stop_simulation_session_async
  accepted_again session_id m a = ground (arith, a)

  -- The manager after the flag, the job and the signal of an asynchronous stop.
  abbrev pub signalled : Text → Manager Store → Manager Store
  signalled session_id m =
      let w1 = (mark_simulation_stop M C session_id m.world).1 in
      let w2 = (init_stop_job M C session_id (stopping_fields (codes "signal_sent")) w1).1 in
      (stop_session_signal_only M session_id (record m { world = w2 })).1

  -- Where an asynchronous stop was answered with true, its last write did not fail and reads back,
  -- and the job's status after the signal was stopping or completed, a second request is answered
  -- with true and leaves the manager as it was.
  second_stop_is_accepted :
      (session_id : Text) (m : Manager Store)
      → UpdateReadsBack session_id
          (phase_field (codes "waiting_worker"))
          (signalled session_id m).world
      → is_accepted (read_stop_job M C session_id (signalled session_id m).world) ≡ true
      → is_some
          (update_stop_job M C session_id
            (phase_field (codes "waiting_worker"))
            (signalled session_id m).world).0
        ≡ true
      → let (answer, m1) = stop_simulation_session_async M C session_id m in
        answer ≡ true → stop_simulation_session_async M C session_id m1 ≡ (true, m1)
  unfolding stop_simulation_session_async
  second_stop_is_accepted session_id m r accepted written h =
      let m1 = (stop_simulation_session_async M C session_id m).1 in
      accepted_again session_id m1
        (elim (Bool-cases (is_accepted (read_stop_job M C session_id m.world))) [
          | inl a ↦ ground (arith, a)
          | inr n ↦ ground (
            arith,
            n,
            h,
            accepted_update session_id (codes "waiting_worker") (signalled session_id m).world r
                accepted written,
          )
        ])

  -- Where the blocking stop of a simulation answers true, the handover was done to a manager in
  -- which no local entry and no live pid of the session in Redis was left.
  pub blocking_stop-IsCleared :
      (session_id : Text) (m : Manager Store)
      → let (answer, m1) = stop_simulation_session M C session_id m in
        answer ≡ returned true
        → (m0 : Manager Store) × IsCleared M session_id m0 × (m1 ≡ hand_over M C session_id m0)
  unfolding stop_simulation_session
  blocking_stop-IsCleared session_id m h =
      let w1 = (mark_simulation_stop M C session_id m.world).1 in
      let w2 = (init_stop_job M C session_id (stopping_fields (codes "blocking_stop")) w1).1 in
      let m3 = (stop_session M session_id (record m { world = w2 })).1 in
      let m4 = cleanup_worker M session_id m3 in
      (
        (ensure_worker_stopped M session_id worker_force_kill_wait m4).1,
        ensure-IsCleared M session_id worker_force_kill_wait m4 (ground (arith, h)),
        ground (arith, h),
      )
