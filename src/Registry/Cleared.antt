-- ===== src/Registry/Cleared.antt =====
-- What a forced end of a session's worker promises, and the wait for a pid.
use mintzy_plugin_kelly_opt.Base.{
  ℕ, zero, suc, ◌+◌, ◌≤◌, ◌≡◌, true, false, not, some, List, any, returned, arith, ◌⊎◌,
}
use mintzy_plugin_kelly_opt.Base.Text.{Text}
use mintzy_plugin_kelly_opt.Base.Dict.{pop, contains}
use mintzy_plugin_kelly_opt.Machine.{Machine}
use mintzy_plugin_kelly_opt.Registry.{
  Manager, pid_alive, get_redis_pid, wait_until, wait_for_pid_exit, delete_session_redis_keys,
}
use mintzy_plugin_kelly_opt.Registry.Termination.{
  pids_to_kill, kill_all, wait_all, still_running, terminate_session_worker,
  reconcile_session_registry,
}

module _ (M : Machine) where
  open M use {redis, now, sleep, is_alive}
  open redis use {Store}

  -- Nothing of the session is left: no local entry, and no live pid in Redis.
  abbrev pub IsCleared : Text → Manager Store → Type 0
  IsCleared session_id m =
      (contains session_id m.workers ≡ false)
      × ((p : ℕ) → get_redis_pid M session_id m.world ≡ some p → pid_alive M p m.world ≡ false)

  -- The pids in a list are dead.
  abbrev pub AreDead : List ℕ → Store → Type 0
  AreDead pids w = any (λ pid. pid_alive M pid w) pids ≡ false

  still_running_lem :
      (session_id : Text) (pids : List ℕ) (m : Manager Store)
      → still_running M session_id pids m ≡ false
      → IsCleared session_id m × AreDead pids m.world
  unfolding still_running
  still_running_lem session_id pids m h = ground arith

  -- Where the forced end of a session's worker answers true, no local entry and no live pid in
  -- Redis is left, and every pid that it was to kill is dead.
  pub terminate-IsCleared :
      (session_id : Text) (timeout : ℕ) (m : Manager Store)
      → (terminate_session_worker M session_id timeout m).0 ≡ returned true
      → IsCleared session_id (terminate_session_worker M session_id timeout m).1
        × AreDead
            (pids_to_kill M session_id m)
            (terminate_session_worker M session_id timeout m).1.world
  unfolding terminate_session_worker
  terminate-IsCleared session_id timeout m h =
      let pids = pids_to_kill M session_id m in
      let (r, w) = kill_all M pids (delete_session_redis_keys M session_id m.world) in
      ground (
        arith,
        still_running_lem session_id pids (
            reconcile_session_registry M session_id
              (record { workers = pop session_id m.workers; world = wait_all M timeout pids w })),
      )

  -- The clock after a sleep.
  abbrev pub SleepsAsTold : Type 0
  SleepsAsTold = (t : ℕ) (w : Store) → now w + t ≤ now (sleep t w)

  wait_until_lem :
      (rounds deadline pid : ℕ) (w : Store)
      → SleepsAsTold
      → deadline ≤ now w + rounds
      → let (done, w1) = wait_until M rounds deadline pid w in
        (not (pid_alive M pid w1) ≡ done) × ((done ≡ true) ⊎ (deadline ≤ now w1))
  unfolding wait_until
  wait_until_lem zero deadline pid w s h = ground arith
  wait_until_lem (suc rounds) deadline pid w s h =
      ground (arith, s 500 w, wait_until_lem rounds deadline pid (sleep 500 w) s)

  -- The wait for a pid answers whether the pid is dead when it ends, and gives up only after its
  -- deadline, if time.sleep sleeps as long as it is told.
  pub wait_for_pid_exit_lem :
      (pid timeout : ℕ) (w : Store)
      → SleepsAsTold
      → let (done, w1) = wait_for_pid_exit M pid timeout w in
        (not (pid_alive M pid w1) ≡ done) × ((done ≡ true) ⊎ (now w + timeout ≤ now w1))
  unfolding wait_for_pid_exit
  wait_for_pid_exit_lem pid timeout w s =
      wait_until_lem timeout (now w + timeout) pid w s (omega arith)
