-- ===== src/Examples/Stops.antt =====
-- Examples for the starts and the stops of a session.
use mintzy_plugin_kelly_opt.Base.{
  ℕ, ◌<◌, ◌≡◌, refl, true, Option, none, some, List, [], ◌∷◌, Call, returned, raised, is_some, leb,
}
use mintzy_plugin_kelly_opt.Base.Text.{codes, text_eq, upper, strip, drop_eq_suffix}
use mintzy_plugin_kelly_opt.Base.Dict.{lookup, insert, pop, values}
use mintzy_plugin_kelly_opt.RedisKeys.{
  session_pid_key, session_meta_key, session_cleanup_keys, session_order_ids_key,
  session_symbols_traded_key, stop_job_key, simulation_stop_key,
}
use mintzy_plugin_kelly_opt.Symbols.{Environ, normalize_symbol}
use mintzy_plugin_kelly_opt.Registry.{
  Worker, Manager, is_live_worker_meta, cleanup_worker, pid_alive, get_redis_pid,
  get_session_worker_meta, delete_session_redis_keys, session_has_live_worker,
}
use mintzy_plugin_kelly_opt.Registry.Termination.{
  reconcile_local, reconcile_redis, reconcile_session_registry, pids_to_kill, kill_all, wait_all,
  still_running, terminate_session_worker,
}
use mintzy_plugin_kelly_opt.Registry.Cleared.{IsCleared}
use mintzy_plugin_kelly_opt.Lifecycle.{
  stop_session_signal_only, stop_local, stop_session, ensure_worker_stopped,
}
use mintzy_plugin_kelly_opt.Lifecycle.Start.{
  Floats, Entry, SessionDoc, Launch, parse_symbol, parse_entries, reservation_symbols,
  active_workers, admission, reserve_meta, write_meta, save_meta, launch, start_parsed,
  start_session,
}
use mintzy_plugin_kelly_opt.Lifecycle.Start.Admission.{started_alone}
use mintzy_plugin_kelly_opt.StopJobs.{
  text, Handoff, Job, JobCodec, update, read_stop_job, init_stop_job, update_stop_job,
  completion_fields, mark_simulation_stop,
}
use mintzy_plugin_kelly_opt.StopJobs.Simulation.{
  phase_field, is_accepted, stop_simulation_session_async, hand_over, stop_simulation_session,
}
use mintzy_plugin_kelly_opt.StopJobs.Reading.{UpdateReadsBack, signalled, blocking_stop-IsCleared}
use mintzy_plugin_kelly_opt.Examples.Computer.{Computer, computer}

-- Floats that are whole numbers.
abbrev whole : Floats
whole = record {
  Raw = ℕ;
  Float = ℕ;
  float = returned;
  no_capital = 0;
  default_stop_loss = 0;
  le_zero = λ x. leb x 0;
}

abbrev entries : List (Option (Entry ℕ))
entries =
    some (record { symbol = some (codes "ltim-eq"); capital = some 900; stop_loss = none })
    ∷ none
    ∷ []

parsed :
    parse_entries whole entries [] []
    ≡ returned (codes "LTM" ∷ [], (codes "LTM", record { capital = 900; stop_loss = 0 }) ∷ [])
unfolding parse_entries parse_symbol normalize_symbol strip upper drop_eq_suffix text_eq insert
parsed = refl

-- The process starts with pid 7.
abbrev process_start : Launch ℕ ℕ → Computer → Call ℕ × Computer
process_start l c = (returned 7, record c { running = 7 ∷ c.running })

abbrev environ : Environ
environ name = none

abbrev doc : SessionDoc ℕ ℕ
doc = record {
  strategy = none;
  symbols = entries;
  leverage_multiplier = some 3;
  broker = returned 0;
}

abbrev idle : Manager Computer
idle = record { workers = []; world = record { strings = []; running = []; clock = 5 } }

started :
    (start_session computer whole process_start environ 6 (codes "s1") doc idle).0 ≡ returned 7
unfolding start_session admission reconcile_session_registry reconcile_local reconcile_redis lookup
    get_redis_pid session_pid_key active_workers values pid_alive start_parsed parse_entries
    parse_symbol normalize_symbol strip upper drop_eq_suffix text_eq insert launch
    reservation_symbols reserve_meta save_meta write_meta
started = refl

started_alone_example :
    IsCleared computer (codes "s1") (admission computer (codes "s1") 6 idle).1
    × (active_workers computer
          (values (admission computer (codes "s1") 6 idle).1.workers)
          (admission computer (codes "s1") 6 idle).1.world
        < 6)
    × (worker : Worker) × (worker.pid ≡ 7)
    × ((start_session computer whole process_start environ 6 (codes "s1") doc idle).1.workers
        ≡ insert (codes "s1") worker (admission computer (codes "s1") 6 idle).1.workers)
started_alone_example =
    started_alone computer whole process_start environ 6 (codes "s1") doc idle 7 started

-- A process that may have no worker at all.
refused : (start_session computer whole process_start environ 0 (codes "s1") doc idle).0 ≡ raised
unfolding start_session admission reconcile_session_registry reconcile_local reconcile_redis lookup
    get_redis_pid session_pid_key active_workers values
refused = refl

-- A codec that knows one job.
abbrev codec : Job → JobCodec
codec job = record {
  loads_job = λ s. returned job;
  dumps_job = λ j. codes "{}";
  loads_handoff = λ s. raised;
}

abbrev allowing : Handoff
allowing = record {
  applied = true;
  live_allowed = true;
  reason = codes "ok";
  profitable_count = 1;
  symbols_for_live = codes "TCS" ∷ [];
}

abbrev done_fields : Job
done_fields = completion_fields 5 allowing true

abbrev paper_session : Manager Computer
paper_session = record {
  workers = (codes "s1", record { pid = 7; strategy = some (codes "B"); symbols = [] }) ∷ [];
  world = record {
    strings = (codes "autotrader:session:s1", 7 ∷ []) ∷ [];
    running = 7 ∷ [];
    clock = 5;
  };
}

abbrev waiting_job : Job
waiting_job =
    (codes "status", text (codes "stopping")) ∷ (codes "phase", text (codes "waiting_worker")) ∷ []

abbrev waiting : JobCodec
waiting = codec waiting_job

waiting_reads_back :
    UpdateReadsBack computer waiting
      (codes "s1")
      (phase_field (codes "waiting_worker"))
      (signalled computer waiting (codes "s1") paper_session).world
unfolding read_stop_job lookup insert text_eq stop_job_key stop_session_signal_only init_stop_job
    mark_simulation_stop phase_field update simulation_stop_key
waiting_reads_back = record { kept = λ e. refl; same_job = refl; nonempty = refl }

waiting_accepted :
    is_accepted (
      read_stop_job computer waiting
        (codes "s1")
        (signalled computer waiting (codes "s1") paper_session).world)
    ≡ true
unfolding is_accepted read_stop_job lookup insert text_eq stop_job_key stop_session_signal_only
    init_stop_job mark_simulation_stop simulation_stop_key
waiting_accepted = refl

waiting_written :
    is_some
      (update_stop_job computer waiting
        (codes "s1")
        (phase_field (codes "waiting_worker"))
        (signalled computer waiting (codes "s1") paper_session).world).0
    ≡ true
unfolding update_stop_job
waiting_written = refl

signal_sent : (stop_simulation_session_async computer waiting (codes "s1") paper_session).0 ≡ true
unfolding stop_simulation_session_async is_accepted read_stop_job lookup text_eq stop_job_key
    stop_session_signal_only init_stop_job mark_simulation_stop
signal_sent = refl

stopped : (stop_simulation_session computer waiting (codes "s1") paper_session).0 ≡ returned true
unfolding stop_simulation_session mark_simulation_stop init_stop_job stop_session lookup text_eq
    stop_local delete_session_redis_keys session_cleanup_keys session_pid_key session_meta_key
    session_order_ids_key session_symbols_traded_key pop insert cleanup_worker ensure_worker_stopped
    reconcile_session_registry reconcile_local reconcile_redis get_redis_pid stop_job_key
    simulation_stop_key session_has_live_worker is_live_worker_meta get_session_worker_meta
    terminate_session_worker pids_to_kill kill_all wait_all still_running pid_alive
stopped = refl

blocking_stop-IsCleared_example :
    (m0 : Manager Computer) × IsCleared computer (codes "s1") m0
    × ((stop_simulation_session computer waiting (codes "s1") paper_session).1
        ≡ hand_over computer waiting (codes "s1") m0)
blocking_stop-IsCleared_example =
    blocking_stop-IsCleared computer waiting (codes "s1") paper_session stopped
