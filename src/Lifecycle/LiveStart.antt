-- ===== src/Lifecycle/LiveStart.antt =====
-- Clearing the way for a live start: nothing is left where the answer says so, and a live worker
-- survives it.
use mintzy_plugin_kelly_opt.Base.{
  ℕ, ◌≡◌, true, false, none, some, returned, ==_iff, arith, Bool-cases, Option-cases, inl, inr, ◌⊎◌,
}
use mintzy_plugin_kelly_opt.Base.Text.{Text}
use mintzy_plugin_kelly_opt.Base.Dict.{lookup}
use mintzy_plugin_kelly_opt.Machine.{Machine}
use mintzy_plugin_kelly_opt.Registry.{
  Worker, Manager, is_live_strategy, pid_alive, get_redis_pid, session_has_live_worker,
}
use mintzy_plugin_kelly_opt.Registry.Termination.{
  reconcile_session_registry, reconcile_local, reconcile_alive, reconcile_redis, republish,
  terminate_session_worker,
}
use mintzy_plugin_kelly_opt.Registry.Cleared.{IsCleared, terminate-IsCleared}
use mintzy_plugin_kelly_opt.Lifecycle.{
  clear, paper_cleared, live_already_running, redis_pid_alive, local_alive, clear_found,
  prepare_for_live_start, ensure_worker_stopped,
}

module _ (M : Machine) where
  open M use {redis, is_alive}
  open redis use {Store}

  -- No worker of the session is alive, neither in the local registry nor behind the pid in Redis.
  abbrev pub HasNoWorker : Text → Manager Store → Type 0
  HasNoWorker session_id m =
      (local_alive M session_id m ≡ false) × (redis_pid_alive M session_id m.world ≡ false)

  cleared-HasNoWorker :
      (session_id : Text) (m : Manager Store) → IsCleared M session_id m → HasNoWorker session_id m
  unfolding redis_pid_alive local_alive
  cleared-HasNoWorker session_id m h = elim (Option-cases (get_redis_pid M session_id m.world)) [
    | inl e ↦ ground (arith, e)
    | inr (p, e) ↦ ground (arith, e, h.1 p e)
  ]

  -- If the preparation of a live start answers clear or paper_cleared, no worker of the session is
  -- alive in the state that it leaves, neither in the local registry nor behind the pid in Redis.
  pub go_ahead-HasNoWorker :
      (session_id : Text) (timeout : ℕ) (m : Manager Store)
      → let (r, m1) = prepare_for_live_start M session_id timeout m in
        (r ≡ returned clear) ⊎ (r ≡ returned paper_cleared) → HasNoWorker session_id m1
  unfolding prepare_for_live_start clear_found
  go_ahead-HasNoWorker session_id timeout m h =
      let m1 = reconcile_session_registry M session_id m in
      ground (
        arith,
        terminate-IsCleared M session_id timeout m1,
        cleared-HasNoWorker session_id (terminate_session_worker M session_id timeout m1).1,
        Bool-cases (redis_pid_alive M session_id m1.world),
        Bool-cases (local_alive M session_id m1),
      )

  -- Where `ensure_worker_stopped` answers true, no local entry and no live pid in Redis is left.
  pub ensure-IsCleared :
      (session_id : Text) (timeout : ℕ) (m : Manager Store)
      → (ensure_worker_stopped M session_id timeout m).0 ≡ returned true
      → IsCleared M session_id (ensure_worker_stopped M session_id timeout m).1
  unfolding ensure_worker_stopped
  ensure-IsCleared session_id timeout m h =
      ground (
        arith,
        terminate-IsCleared M session_id timeout (reconcile_session_registry M session_id m),
      )

  -- A local worker that is alive and does not trade on paper.
  pub record IsLive (session_id : Text) (worker : Worker) (m : Manager Store) : Type 0 where
    pub registered : lookup session_id m.workers ≡ some worker
    pub alive : is_alive worker.pid m.world ≡ true
    pub live : is_live_strategy worker.strategy ≡ true

  live_lem :
      (session_id : Text) (worker : Worker) (m : Manager Store)
      → IsLive session_id worker m
      → session_has_live_worker M session_id m ≡ true
  unfolding session_has_live_worker
  live_lem session_id worker m l = ground (arith, l.registered, l.alive, l.live)

  -- The first part of the reconciliation, for a live worker.
  reconcile_local_lem :
      (session_id : Text) (worker : Worker) (m : Manager Store)
      → IsLive session_id worker m
      → reconcile_local M session_id m
        ≡ reconcile_alive M session_id worker (get_redis_pid M session_id m.world) m
  unfolding reconcile_local
  reconcile_local_lem session_id worker m l = ground (arith, l.registered, l.alive)

  -- The last part leaves a pid that is alive, or no pid.
  reconcile_redis_lem :
      (session_id : Text) (m : Manager Store)
      → ((p : ℕ) → get_redis_pid M session_id m.world ≡ some p → pid_alive M p m.world ≡ true)
      → reconcile_redis M session_id m ≡ m
  unfolding reconcile_redis
  reconcile_redis_lem session_id m h = elim (Option-cases (get_redis_pid M session_id m.world)) [
    | inl e ↦ ground (arith, e)
    | inr (p, e) ↦ ground (arith, e, h p e)
  ]

  reconcile_alive_lem :
      (session_id : Text) (worker : Worker) (m : Manager Store)
      → reconcile_alive M session_id worker (some worker.pid) m ≡ m
  unfolding reconcile_alive
  reconcile_alive_lem session_id worker m = ground (arith, ==_iff worker.pid worker.pid)

  -- The reconciliation leaves a live worker alone whose pid is in Redis.
  reconcile_lem :
      (session_id : Text) (worker : Worker) (m : Manager Store)
      → IsLive session_id worker m
      → get_redis_pid M session_id m.world ≡ some worker.pid
      → pid_alive M worker.pid m.world ≡ true
      → reconcile_session_registry M session_id m ≡ m
  unfolding reconcile_session_registry
  reconcile_lem session_id worker m l p a =
      rw (reconcile_local_lem session_id worker m l, p, reconcile_alive_lem session_id worker m)
        (reconcile_redis_lem session_id m (λ q e. ground (arith, p, e, a)))

  -- A worker that is alive, does not trade on paper and has its live pid in Redis survives: the
  -- preparation answers live_already_running, the two forced stops answer false, and none of them
  -- changes the registry or the world.
  pub live_worker_survives :
      (session_id : Text) (timeout : ℕ) (worker : Worker) (m : Manager Store)
      → IsLive session_id worker m
      → get_redis_pid M session_id m.world ≡ some worker.pid
      → pid_alive M worker.pid m.world ≡ true
      → (prepare_for_live_start M session_id timeout m ≡ (returned live_already_running, m))
        × (ensure_worker_stopped M session_id timeout m ≡ (returned false, m))
        × (terminate_session_worker M session_id timeout m ≡ (returned false, m))
  unfolding prepare_for_live_start clear_found ensure_worker_stopped terminate_session_worker
      redis_pid_alive local_alive
  live_worker_survives session_id timeout worker m l p a = ground (
    arith,
    reconcile_lem session_id worker m l p a,
    live_lem session_id worker m l,
    l.registered,
    l.alive,
  )

  -- The manager after the keys of a live worker were written again.
  abbrev pub republished : Text → Worker → Manager Store → Manager Store
  republished session_id worker m = record m { world = republish M session_id worker m.world }

  -- A worker that is alive and does not trade on paper, but has no pid in Redis, has its keys
  -- written again and nothing else happens, if it is still alive then and Redis gives no pid or a
  -- live one; the preparation answers live_already_running.
  lost_keys_come_back :
      (session_id : Text) (timeout : ℕ) (worker : Worker) (m : Manager Store)
      → IsLive session_id worker m
      → get_redis_pid M session_id m.world ≡ none
      → is_alive worker.pid (republish M session_id worker m.world) ≡ true
      → ((p : ℕ)
          → get_redis_pid M session_id (republish M session_id worker m.world) ≡ some p
          → pid_alive M p (republish M session_id worker m.world) ≡ true)
      → prepare_for_live_start M session_id timeout m
        ≡ (returned live_already_running, republished session_id worker m)
  unfolding prepare_for_live_start clear_found reconcile_session_registry reconcile_alive
      local_alive
  lost_keys_come_back session_id timeout worker m l p a h =
      let m1 = republished session_id worker m in
      ground (
        arith,
        reconcile_local_lem session_id worker m l,
        reconcile_redis_lem session_id m1 h,
        live_lem session_id worker m1
            (record { registered = l.registered; alive = a; live = l.live }),
        l.registered,
        l.live,
        p,
        a,
        Bool-cases (redis_pid_alive M session_id m1.world),
      )
