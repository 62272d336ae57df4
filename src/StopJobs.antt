-- ===== src/StopJobs.antt =====
-- session_worker/stop_jobs.py: the stop job of a session, a document in Redis that the stop route,
-- the session manager and the worker process write in turn.
pub mod Simulation
pub mod Reading
use mintzy_plugin_kelly_opt.Base.{
  ℕ, zero, suc, Bool, true, false, ◌&&◌, Option, none, some, List, [], ◌∷◌, Call, returned, raised,
  if◌then◌else◌,
}
use mintzy_plugin_kelly_opt.Base.Text.{Text, codes}
use mintzy_plugin_kelly_opt.Base.Dict.{Dict, insert}
use mintzy_plugin_kelly_opt.Symbols.{present}
use mintzy_plugin_kelly_opt.RedisKeys.{pyramid_result_key, simulation_stop_key, stop_job_key}
use mintzy_plugin_kelly_opt.Machine.{Machine}

-- The lifetimes of the three keys, in seconds.
abbrev pub simulation_stop_ttl : ℕ
simulation_stop_ttl = 1800

abbrev pub stop_job_ttl : ℕ
stop_job_ttl = 600

-- The result of the pyramid that the worker hands over, with the five keys that it always has.
pub record Handoff : Type 0 where
  pub applied : Bool
  pub live_allowed : Bool
  pub reason : Text
  pub profitable_count : ℕ
  pub symbols_for_live : List Text

-- `_PYRAMID_HANDOFF_BLOCKED`
abbrev pub pyramid_handoff_blocked : Handoff
pyramid_handoff_blocked = record {
  applied = false;
  live_allowed = false;
  reason = codes "pyramid_not_run";
  profitable_count = 0;
  symbols_for_live = [];
}

-- A value of a job's field: None, a Boolean, a text, a time, a handoff.
pub data Value : Type 0 where
  null : Value
  flag : Bool → Value
  text : Text → Value
  time : ℕ → Value
  handoff : Handoff → Value

abbrev pub Job : Type 0
Job = Dict Value

-- `job.update(fields)`
unfoldable pub update : Job → Job → Job
update job [] = job
update job ((k, v) ∷ fields) = update (insert k v job) fields

unfoldable pub truncated : ℕ → Text → Text
truncated zero s = []
truncated (suc n) [] = []
truncated (suc n) (c ∷ s) = c ∷ truncated n s

-- The job that `init_stop_job` starts from, and the one that `update_stop_job` assumes.
unfoldable pub new_job : Text → ℕ → Job
new_job session_id started_at =
    (codes "session_id", text session_id)
    ∷ (codes "status", text (codes "stopping"))
    ∷ (codes "phase", text (codes "queued"))
    ∷ (codes "started_at", time started_at)
    ∷ (codes "completed_at", null)
    ∷ (codes "live_allowed", null)
    ∷ (codes "pyramid", null)
    ∷ (codes "error", null)
    ∷ (codes "finalized", flag false)
    ∷ (codes "response", null)
    ∷ []

unfoldable pub assumed_job : Text → ℕ → Job
assumed_job session_id started_at =
    (codes "session_id", text session_id)
    ∷ (codes "started_at", time started_at)
    ∷ (codes "status", text (codes "stopping"))
    ∷ (codes "phase", text (codes "queued"))
    ∷ []

-- `read_stop_job(session_id) or {...}`: an empty document counts as none.
abbrev pub job_or : Option Job → Job → Job
job_or none d = d
job_or (some []) d = d
job_or (some (f ∷ job)) d = f ∷ job

-- The JSON of a job and of a handoff, from outside the repository.
pub record JobCodec : Type 0 where
  pub loads_job : Text → Call Job
  pub dumps_job : Job → Text
  pub loads_handoff : Text → Call Handoff

-- The fields that the completion and the failure of a job set.
abbrev pub completion_fields : ℕ → Handoff → Bool → Job
completion_fields completed_at h simulation_stop =
    (codes "status", text (codes "completed"))
    ∷ (codes "phase", text (codes "done"))
    ∷ (codes "completed_at", time completed_at)
    ∷ (codes "live_allowed", flag h.live_allowed)
    ∷ (codes "pyramid", handoff h)
    ∷ (codes "simulation_stop", flag simulation_stop)
    ∷ (
      codes "trading_status",
      text (
          if simulation_stop && h.live_allowed
          then codes "simulation_stopped"
          else codes "stopped"),
    )
    ∷ []

abbrev pub failure_fields : ℕ → Text → Job
failure_fields completed_at error =
    (codes "status", text (codes "failed"))
    ∷ (codes "phase", text (codes "failed"))
    ∷ (codes "completed_at", time completed_at)
    ∷ (codes "error", text (truncated 2000 error))
    ∷ []

module _ (M : Machine) (C : JobCodec) where
  open M use {redis, now}
  open redis use {Store, get, setex, delete}
  open C use {loads_job, dumps_job, loads_handoff}

  unfoldable pub read_stop_job : Text → Store → Option Job
  read_stop_job session_id w = elim (get (stop_job_key session_id) w) [
    | raised ↦ none
    | returned raw ↦ elim (present raw) [
      | none ↦ none
      | some s ↦ elim (loads_job s) [ raised ↦ none | returned job ↦ some job ]
    ]
  ]

  -- A write that fails is logged; the job is returned all the same.
  unfoldable pub init_stop_job : Text → Job → Store → Job × Store
  init_stop_job session_id fields w =
      let job = update (new_job session_id (now w)) fields in
      (job, (setex (stop_job_key session_id) stop_job_ttl (dumps_job job) w).1)

  unfoldable pub update_stop_job : Text → Job → Store → Option Job × Store
  update_stop_job session_id fields w =
      let job =
        update (job_or (read_stop_job session_id w) (assumed_job session_id (now w))) fields in
      let (r, w1) = setex (stop_job_key session_id) stop_job_ttl (dumps_job job) w in
      elim r [ raised ↦ (none, w1) | returned u ↦ (some job, w1) ]

  unfoldable pub complete_stop_job : Text → Handoff → Bool → Store → Store
  complete_stop_job session_id h simulation_stop w =
      (update_stop_job session_id (completion_fields (now w) h simulation_stop) w).1

  unfoldable pub fail_stop_job : Text → Text → Store → Store
  fail_stop_job session_id error w = (update_stop_job session_id (failure_fields (now w) error) w).1

  unfoldable pub read_pyramid_handoff_result : Text → Store → Option Handoff
  read_pyramid_handoff_result session_id w = elim (get (pyramid_result_key session_id) w) [
    | raised ↦ none
    | returned raw ↦ elim (present raw) [
      | none ↦ none
      | some s ↦ elim (loads_handoff s) [ raised ↦ none | returned h ↦ some h ]
    ]
  ]

  unfoldable pub clear_pyramid_handoff_result : Text → Store → Store
  clear_pyramid_handoff_result session_id w = (delete (pyramid_result_key session_id ∷ []) w).1

  unfoldable pub mark_simulation_stop : Text → Store → Bool × Store
  mark_simulation_stop session_id w =
      let (r, w1) = setex (simulation_stop_key session_id) simulation_stop_ttl (codes "1") w in
      elim r [ raised ↦ (false, w1) | returned u ↦ (true, w1) ]
