-- ===== src/Examples/Workers.antt =====
-- Examples for the registry of workers and the starts of a session.
use mintzy_plugin_kelly_opt.Base.{
  ℕ, ◌≤◌, ◌≡◌, refl, true, false, not, some, [], ◌∷◌, returned, arith, inr, ◌⊎◌,
}
use mintzy_plugin_kelly_opt.Base.Text.{codes, text_eq}
use mintzy_plugin_kelly_opt.Base.Dict.{lookup, pop}
use mintzy_plugin_kelly_opt.RedisKeys.{
  session_pid_key, session_meta_key, session_cleanup_keys, session_order_ids_key,
  session_symbols_traded_key,
}
use mintzy_plugin_kelly_opt.Registry.{
  Worker, Manager, is_live_strategy, is_live_worker_meta, pid_alive, get_redis_pid,
  get_session_worker_meta, delete_session_redis_keys, session_has_live_worker, wait_for_pid_exit,
}
use mintzy_plugin_kelly_opt.Registry.Termination.{
  reconcile_alive, reconcile_local, reconcile_redis, reconcile_session_registry, pids_to_kill,
  kill_all, wait_all, still_running, terminate_session_worker,
}
use mintzy_plugin_kelly_opt.Registry.Cleared.{SleepsAsTold, wait_for_pid_exit_lem}
use mintzy_plugin_kelly_opt.Lifecycle.{
  live_already_running, paper_cleared, redis_pid_alive, clear_found, prepare_for_live_start,
  ensure_worker_stopped,
}
use mintzy_plugin_kelly_opt.Lifecycle.LiveStart.{
  HasNoWorker, IsLive, go_ahead-HasNoWorker, live_worker_survives,
}
use mintzy_plugin_kelly_opt.Examples.Computer.{Computer, computer}

abbrev paper_worker : Worker
paper_worker = record { pid = 7; strategy = some (codes "B"); symbols = codes "TCS" ∷ [] }

abbrev live_worker : Worker
live_worker = record { pid = 8; strategy = some (codes "C"); symbols = codes "TCS" ∷ [] }

abbrev world : ℕ → Computer
world pid = record {
  strings = (codes "autotrader:session:s1", pid ∷ []) ∷ [];
  running = pid ∷ 9 ∷ [];
  clock = 5;
}

abbrev with_paper : Manager Computer
with_paper = record { workers = (codes "s1", paper_worker) ∷ []; world = world 7 }

abbrev with_live : Manager Computer
with_live = record { workers = (codes "s1", live_worker) ∷ []; world = world 8 }

sleeps : SleepsAsTold computer
sleeps t w = omega arith

-- The pid never dies, so the wait ends at its deadline.
wait_for_pid_exit_lem_example :
    (not (pid_alive computer 9 (wait_for_pid_exit computer 9 1000 (world 7)).1)
      ≡ (wait_for_pid_exit computer 9 1000 (world 7)).0)
    × (((wait_for_pid_exit computer 9 1000 (world 7)).0 ≡ true)
        ⊎ (1005 ≤ (wait_for_pid_exit computer 9 1000 (world 7)).1.clock))
wait_for_pid_exit_lem_example = wait_for_pid_exit_lem computer 9 1000 (world 7) sleeps

prepared : (prepare_for_live_start computer (codes "s1") 100 with_paper).0 ≡ returned paper_cleared
unfolding prepare_for_live_start clear_found redis_pid_alive terminate_session_worker
    session_has_live_worker is_live_worker_meta get_session_worker_meta is_live_strategy lookup
    text_eq session_meta_key pids_to_kill get_redis_pid session_pid_key pop
    delete_session_redis_keys session_cleanup_keys session_order_ids_key session_symbols_traded_key
    kill_all pid_alive wait_all reconcile_session_registry reconcile_local reconcile_alive
    reconcile_redis still_running
prepared = refl

go_ahead-HasNoWorker_example :
    HasNoWorker computer
      (codes "s1")
      (prepare_for_live_start computer (codes "s1") 100 with_paper).1
go_ahead-HasNoWorker_example =
    go_ahead-HasNoWorker computer (codes "s1") 100 with_paper (inr prepared)

with_live-IsLive : IsLive computer (codes "s1") live_worker with_live
unfolding lookup text_eq is_live_strategy
with_live-IsLive = record { registered = refl; alive = refl; live = refl }

live_pid : get_redis_pid computer (codes "s1") with_live.world ≡ some 8
unfolding get_redis_pid session_pid_key lookup text_eq
live_pid = refl

live_pid_alive : pid_alive computer 8 with_live.world ≡ true
unfolding pid_alive
live_pid_alive = refl

live_worker_survives_example :
    (prepare_for_live_start computer (codes "s1") 100 with_live
      ≡ (returned live_already_running, with_live))
    × (ensure_worker_stopped computer (codes "s1") 100 with_live ≡ (returned false, with_live))
    × (terminate_session_worker computer (codes "s1") 100 with_live ≡ (returned false, with_live))
live_worker_survives_example =
    live_worker_survives computer (codes "s1") 100 live_worker with_live with_live-IsLive live_pid
      live_pid_alive
