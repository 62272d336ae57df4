-- ===== src/Lifecycle.antt =====
-- session_worker/lifecycle.py: clearing the way for a live start, and the stops of a session.
pub mod Start
pub mod LiveStart
pub mod SymbolExit
use mintzy_plugin_kelly_opt.Base.{
  ℕ, Bool, true, false, ◌&&◌, not, Option, none, some, Call, returned, raised, if◌then◌else◌, ◌==◌,
}
use mintzy_plugin_kelly_opt.Base.Text.{Text}
use mintzy_plugin_kelly_opt.Base.Dict.{lookup, pop}
use mintzy_plugin_kelly_opt.Symbols.{present}
use mintzy_plugin_kelly_opt.RedisKeys.{session_pid_key}
use mintzy_plugin_kelly_opt.Machine.{
  Machine, Signalled, delivered, no_such_process, not_permitted, PsutilWait, exited, not_installed,
  timeout_expired, gone, failed,
}
use mintzy_plugin_kelly_opt.Registry.{
  Worker, Manager, pid_alive, get_redis_pid, delete_session_redis_keys, session_has_live_worker,
  wait_for_pid_exit,
}
use mintzy_plugin_kelly_opt.Registry.Termination.{
  reconcile_session_registry, terminate_session_worker,
}

-- The environment does not set WORKER_GRACEFUL_STOP_TIMEOUT_SECONDS: four minutes.
abbrev pub worker_graceful_stop_timeout : ℕ
worker_graceful_stop_timeout = 240000

pub data LiveStartPrepResult : Type 0 where
  clear paper_cleared live_already_running not_cleared : LiveStartPrepResult

module _ (M : Machine) where
  open M use {redis, is_alive, sigterm, sigkill, set_stop_event, join}
  open redis use {Store, get}

  -- `redis_pid and cls._pid_alive(redis_pid)`
  unfoldable pub redis_pid_alive : Text → Store → Bool
  redis_pid_alive session_id w = elim (get_redis_pid M session_id w) [
    | none ↦ false
    | some redis_pid ↦ not (redis_pid == 0) && pid_alive M redis_pid w
  ]

  -- `worker and worker.is_alive()`
  unfoldable pub local_alive : Text → Manager Store → Bool
  local_alive session_id m = elim (lookup session_id m.workers) [
    | none ↦ false
    | some worker ↦ is_alive worker.pid m.world
  ]

  -- What both branches of `prepare_for_live_start` do with a worker that they found.
  unfoldable pub clear_found : Text → ℕ → Manager Store → Call LiveStartPrepResult × Manager Store
  clear_found session_id timeout m =
      if session_has_live_worker M session_id m
      then (returned live_already_running, m)
      else let (r, m1) = terminate_session_worker M session_id timeout m in
        elim r [
          | raised ↦ (raised, m1)
          | returned done ↦ (returned (if done then paper_cleared else not_cleared), m1)
        ]

  unfoldable pub prepare_for_live_start :
      Text → ℕ → Manager Store → Call LiveStartPrepResult × Manager Store
  unfolding clear_found
  prepare_for_live_start session_id timeout m0 =
      let m = reconcile_session_registry M session_id m0 in
      if redis_pid_alive session_id m.world
      then clear_found session_id timeout m
      else if local_alive session_id m
      then clear_found session_id timeout m
      else (returned clear, m)

  unfoldable pub ensure_worker_stopped : Text → ℕ → Manager Store → Call Bool × Manager Store
  ensure_worker_stopped session_id timeout m0 =
      let m = reconcile_session_registry M session_id m0 in
      if session_has_live_worker M session_id m
      then (returned false, m)
      else terminate_session_worker M session_id timeout m

  -- The pid key as the stops read it: `raised` where the read or `int` fails, and nothing where the
  -- key is missing.
  unfoldable pub stored_pid : Text → Store → Call (Option ℕ)
  stored_pid session_id w = elim (get (session_pid_key session_id) w) [
    | raised ↦ raised
    | returned pid_str ↦ elim (present pid_str) [
      | none ↦ returned none
      | some s ↦ elim (M.parse_int s) [ raised ↦ raised | returned pid ↦ returned (some pid) ]
    ]
  ]

  unfoldable pub stop_session_signal_only : Text → Manager Store → Bool × Manager Store
  unfolding stored_pid
  stop_session_signal_only session_id m = elim (lookup session_id m.workers) [
    | some worker ↦ (true, record m { world = set_stop_event worker.pid m.world })
    | none ↦ elim (stored_pid session_id m.world) [
      | raised ↦ (false, m)
      | returned none ↦ (true, m)
      | returned (some pid) ↦
          let (r, w) = sigterm pid m.world in
          elim r [
            | delivered ↦ (true, record m { world = w })
            | no_such_process ↦ (true, record m { world = w })
            | not_permitted ↦ (false, record m { world = w })
          ]
    ]
  ]

  -- `os.kill(pid, SIGKILL)` where only a ProcessLookupError is caught.
  unfoldable pub force_kill : ℕ → Store → Call (Unit {0}) × Store
  force_kill pid w =
      let (r, w1) = sigkill pid w in
      elim r [
        | delivered ↦ (returned tt, w1)
        | no_such_process ↦ (returned tt, w1)
        | not_permitted ↦ (raised, w1)
      ]

  -- The wait of `stop_session` after the SIGTERM: with psutil a minute and then SIGKILL, without it
  -- ninety seconds of polling, SIGKILL and ten seconds more.
  unfoldable pub await_exit : ℕ → Store → Call (Unit {0}) × Store
  unfolding force_kill
  await_exit pid w =
      let (r, w1) = M.psutil_wait pid 60000 w in
      elim r [
        | exited ↦ (returned tt, w1)
        | not_installed ↦
            let (done, w2) = wait_for_pid_exit M pid 90000 w1 in
            let (killed, w3) = force_kill pid w2 in
            if done then (returned tt, w2) else elim killed [
              | raised ↦ (raised, w3)
              | returned u ↦ (returned tt, (wait_for_pid_exit M pid 10000 w3).1)
            ]
        | timeout_expired ↦ force_kill pid w1
        | gone ↦ (returned tt, w1)
        | failed ↦ (returned tt, w1)
      ]

  -- The stop through Redis, where the session runs under another gunicorn process.
  unfoldable pub stop_remote : Text → ℕ → Store → Bool × Store
  unfolding await_exit
  stop_remote session_id pid w =
      let (r, w1) = sigterm pid w in
      elim r [
        | no_such_process ↦ (true, delete_session_redis_keys M session_id w1)
        | not_permitted ↦ (false, w1)
        | delivered ↦
            let (waited, w2) = await_exit pid w1 in
            elim waited [
              | raised ↦ (false, w2)
              | returned u ↦ (true, delete_session_redis_keys M session_id w2)
            ]
      ]

  -- The stop of a local worker: the event, then SIGTERM, then SIGKILL.
  unfoldable pub stop_local : Worker → Store → Store
  stop_local worker w =
      let w1 = join worker.pid worker_graceful_stop_timeout (set_stop_event worker.pid w) in
      if not (is_alive worker.pid w1)
      then w1
      else let w2 = join worker.pid 5000 (M.terminate worker.pid w1) in
        if is_alive worker.pid w2 then M.kill worker.pid w2 else w2

  unfoldable pub stop_session : Text → Manager Store → Bool × Manager Store
  unfolding stop_remote stop_local
  stop_session session_id m = elim (lookup session_id m.workers) [
    | some worker ↦ (
      true,
      record {
        workers = pop session_id m.workers;
        world = delete_session_redis_keys M session_id (stop_local worker m.world);
      },
    )
    | none ↦ elim (stored_pid session_id m.world) [
      | raised ↦ (false, m)
      | returned none ↦ (false, m)
      | returned (some pid) ↦
          let (stopped, w) = stop_remote session_id pid m.world in (stopped, record m { world = w })
    ]
  ]
