-- ===== src/Registry/Termination.antt =====
-- The second half of session_worker/registry.py: the reconciliation of the local registry with Redis,
-- and the forced end of a session's paper worker.
use mintzy_plugin_kelly_opt.Base.{
  ℕ, Bool, false, ◌||◌, not, Option, none, some, List, [], ◌∷◌, any, Call, returned, raised,
  if◌then◌else◌, ◌==◌,
}
use mintzy_plugin_kelly_opt.Base.Text.{Text}
use mintzy_plugin_kelly_opt.Base.Dict.{lookup, pop, contains}
use mintzy_plugin_kelly_opt.RedisKeys.{session_pid_key, session_redis_ttl}
use mintzy_plugin_kelly_opt.Machine.{Machine, delivered, no_such_process, not_permitted}
use mintzy_plugin_kelly_opt.Registry.{
  Worker, Manager, is_live_strategy, cleanup_worker, pid_alive, get_redis_pid,
  set_session_worker_meta, delete_session_redis_keys, session_has_live_worker, wait_for_pid_exit,
}

module _ (M : Machine) where
  open M use {redis, is_alive, set_stop_event, join, sigkill}
  open redis use {Store, setex}

  -- The keys of a live worker that Redis has lost; the meta document is written only if the pid was.
  unfoldable pub republish : Text → Worker → Store → Store
  republish session_id worker w =
      let (r, w1) =
        setex (session_pid_key session_id) session_redis_ttl (M.show_int worker.pid) w in
      elim r [
        | raised ↦ w1
        | returned u ↦
            set_session_worker_meta M session_id worker.strategy worker.pid worker.symbols w1
      ]

  -- The worker whose Redis entry was cleared is asked to stop, then terminated.
  unfoldable pub stop_cleared : Worker → Store → Store
  stop_cleared worker w =
      let w1 = join worker.pid 5000 (set_stop_event worker.pid w) in
      if is_alive worker.pid w1 then join worker.pid 3000 (M.terminate worker.pid w1) else w1

  -- The branches for a local worker that is alive.
  unfoldable pub reconcile_alive : Text → Worker → Option ℕ → Manager Store → Manager Store
  unfolding republish stop_cleared
  reconcile_alive session_id worker none m =
      if is_live_strategy worker.strategy
      then record m { world = republish session_id worker m.world }
      else cleanup_worker M session_id (record m { world = stop_cleared worker m.world })
  reconcile_alive session_id worker (some redis_pid) m =
      if redis_pid == worker.pid then m else cleanup_worker M session_id m

  unfoldable pub reconcile_local : Text → Manager Store → Manager Store
  unfolding reconcile_alive
  reconcile_local session_id m = elim (lookup session_id m.workers) [
    | none ↦ m
    | some worker ↦
        if not (is_alive worker.pid m.world)
        then cleanup_worker M session_id m
        else reconcile_alive session_id worker (get_redis_pid M session_id m.world) m
  ]

  -- The last part: a dead pid in Redis.
  unfoldable pub reconcile_redis : Text → Manager Store → Manager Store
  reconcile_redis session_id m = elim (get_redis_pid M session_id m.world) [
    | none ↦ m
    | some redis_pid ↦ if pid_alive M redis_pid m.world then m else record {
      workers = pop session_id m.workers;
      world = delete_session_redis_keys M session_id m.world;
    }
  ]

  unfoldable pub reconcile_session_registry : Text → Manager Store → Manager Store
  unfolding reconcile_local reconcile_redis
  reconcile_session_registry session_id m =
      reconcile_redis session_id (reconcile_local session_id m)

  -- The set of pids to kill: the local worker's, if it is alive, and the one in Redis.
  unfoldable pub pids_to_kill : Text → Manager Store → List ℕ
  pids_to_kill session_id m =
      let of_redis : List ℕ = elim (get_redis_pid M session_id m.world) [
        | none ↦ []
        | some p ↦ p ∷ []
      ] in
      elim (lookup session_id m.workers) [
        | none ↦ of_redis
        | some worker ↦
            if not (is_alive worker.pid m.world)
            then of_redis
            else if any (λ p. p == worker.pid) of_redis
            then of_redis
            else worker.pid ∷ of_redis
      ]

  -- SIGKILL to each pid that is alive; a PermissionError is not caught.
  unfoldable pub kill_all : List ℕ → Store → Call (Unit {0}) × Store
  kill_all [] w = (returned tt, w)
  kill_all (pid ∷ pids) w =
      if not (pid_alive M pid w)
      then kill_all pids w
      else let (r, w1) = sigkill pid w in
        elim r [
          | delivered ↦ kill_all pids w1
          | no_such_process ↦ kill_all pids w1
          | not_permitted ↦ (raised, w1)
        ]

  -- The waits; one that ends with the pid alive is only logged.
  unfoldable pub wait_all : ℕ → List ℕ → Store → Store
  wait_all timeout [] w = w
  wait_all timeout (pid ∷ pids) w =
      wait_all timeout pids (if pid_alive M pid w then (wait_for_pid_exit M pid timeout w).1 else w)

  -- The final check of `_terminate_session_worker`.
  unfoldable pub still_running : Text → List ℕ → Manager Store → Bool
  still_running session_id pids m =
      contains session_id m.workers
      || (any (λ pid. pid_alive M pid m.world) pids || elim (get_redis_pid M session_id m.world) [
        | none ↦ false
        | some redis_pid ↦ pid_alive M redis_pid m.world
      ])

  unfoldable pub terminate_session_worker : Text → ℕ → Manager Store → Call Bool × Manager Store
  terminate_session_worker session_id timeout m =
      if session_has_live_worker M session_id m
      then (returned false, m)
      else let pids = pids_to_kill session_id m in
        let workers = pop session_id m.workers in
        let (r, w) = kill_all pids (delete_session_redis_keys M session_id m.world) in
        elim r [
          | raised ↦ (raised, record { workers = workers; world = w })
          | returned u ↦
              let m1 =
                reconcile_session_registry session_id
                  (record { workers = workers; world = wait_all timeout pids w }) in
              (returned (not (still_running session_id pids m1)), m1)
        ]
