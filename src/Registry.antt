-- ===== src/Registry.antt =====
-- session_worker/registry.py: the local registry of worker processes, and the pid and meta keys that
-- the gunicorn workers share. WorkerProcess of worker_process.py is the record Worker.
pub mod Termination
pub mod Cleared
use mintzy_plugin_kelly_opt.Base.{
  ℕ, zero, suc, ◌+◌, ◌-◌, Bool, true, false, ◌&&◌, ◌||◌, not, Option, none, some, List, [], ◌∷◌,
  is_empty, is_some, Call, returned, raised, if◌then◌else◌, ltb, ◌==◌,
}
use mintzy_plugin_kelly_opt.Base.Text.{Text, codes, text_eq}
use mintzy_plugin_kelly_opt.Base.Dict.{Dict, lookup, pop, contains}
use mintzy_plugin_kelly_opt.Symbols.{present}
use mintzy_plugin_kelly_opt.RedisKeys.{
  session_pid_key, session_meta_key, session_cleanup_keys, session_redis_ttl,
}
use mintzy_plugin_kelly_opt.Redis.{SessionMeta}
use mintzy_plugin_kelly_opt.Machine.{Machine, Signalled, delivered, no_such_process, not_permitted}

-- The environment does not set LIVE_START_WORKER_GRACE_SECONDS: one minute.
abbrev pub live_start_worker_grace : ℕ
live_start_worker_grace = 60000

-- A worker process as the registry keeps it.
pub record Worker : Type 0 where
  pub pid : ℕ
  pub strategy : Option Text
  pub symbols : List Text

-- The class state: the registry of this gunicorn process, and the world that it shares.
pub record Manager (W : Type 0) : Type 0 where
  pub workers : Dict Worker
  pub world : W

-- `strategy and strategy != "B"`
unfoldable pub is_live_strategy : Option Text → Bool
is_live_strategy strategy = elim (present strategy) [
  | none ↦ false
  | some s ↦ not (text_eq s (codes "B"))
]

-- A meta document is live by its strategy, or, where it has none, while it is fresh.
unfoldable pub is_live_worker_meta : Option SessionMeta → ℕ → Bool
unfolding is_live_strategy
is_live_worker_meta none now = false
is_live_worker_meta (some meta) now =
    if is_live_strategy meta.strategy then true else elim meta.started_at [
      | none ↦ false
      | some started_at ↦
          not (is_some meta.strategy) && ltb now (started_at + live_start_worker_grace)
    ]

module _ (M : Machine) where
  open M use {redis, now, sleep, probe, sigkill, is_alive, set_stop_event, join, json_loads}
  open redis use {Store, get, setex, delete}

  -- The part of `_cleanup_worker` that ends the process.
  unfoldable pub end_process : ℕ → Store → Store
  end_process pid w =
      if not (is_alive pid w)
      then w
      else let w1 = join pid 5000 (set_stop_event pid w) in
        if not (is_alive pid w1)
        then w1
        else let w2 = join pid 2000 (M.terminate pid w1) in
          if is_alive pid w2 then M.kill pid w2 else w2

  unfoldable pub cleanup_worker : Text → Manager Store → Manager Store
  unfolding end_process
  cleanup_worker session_id m = elim (lookup session_id m.workers) [
    | none ↦ m
    | some worker ↦ record {
      workers = pop session_id m.workers;
      world = end_process worker.pid m.world;
    }
  ]

  unfoldable pub pid_alive : ℕ → Store → Bool
  pid_alive pid w = elim (probe pid w) [
    | delivered ↦ true
    | no_such_process ↦ false
    | not_permitted ↦ true
  ]

  unfoldable pub get_redis_pid : Text → Store → Option ℕ
  get_redis_pid session_id w = elim (get (session_pid_key session_id) w) [
    | raised ↦ none
    | returned pid_str ↦ elim (present pid_str) [
      | none ↦ none
      | some s ↦ elim (M.parse_int s) [ raised ↦ none | returned pid ↦ some pid ]
    ]
  ]

  unfoldable pub get_session_worker_meta : Text → Store → Option SessionMeta
  get_session_worker_meta session_id w = elim (get (session_meta_key session_id) w) [
    | raised ↦ none
    | returned raw ↦ elim (present raw) [
      | none ↦ none
      | some s ↦ elim (json_loads s) [ raised ↦ none | returned meta ↦ some meta ]
    ]
  ]

  unfoldable pub set_session_worker_meta : Text → Option Text → ℕ → List Text → Store → Store
  set_session_worker_meta session_id strategy pid symbols w =
      let meta : SessionMeta = record {
        strategy = strategy;
        pid = some pid;
        started_at = some (now w);
        symbols = if is_empty symbols then none else some symbols;
        reserved = false;
      } in
      (setex (session_meta_key session_id) session_redis_ttl (M.json_dumps meta) w).1

  unfoldable pub delete_session_redis_keys : Text → Store → Store
  delete_session_redis_keys session_id w = (delete (session_cleanup_keys session_id) w).1

  unfoldable pub session_has_live_worker : Text → Manager Store → Bool
  unfolding is_live_strategy
  session_has_live_worker session_id m =
      let local_is_live : Bool = elim (lookup session_id m.workers) [
        | none ↦ false
        | some worker ↦ is_alive worker.pid m.world && is_live_strategy worker.strategy
      ] in
      is_live_worker_meta (get_session_worker_meta session_id m.world) (now m.world)
      || local_is_live

  -- The loop polls every half second until the deadline; the last answer is a probe of its own. The
  -- rounds are counted down, and `wait_for_pid_exit` allows as many as the timeout has milliseconds.
  unfoldable pub wait_until : ℕ → ℕ → ℕ → Store → Bool × Store
  unfolding pid_alive
  wait_until zero deadline pid w = (not (pid_alive pid w), w)
  wait_until (suc rounds) deadline pid w =
      let rest = wait_until rounds deadline pid (sleep 500 w) in
      if ltb (now w) deadline
      then if not (pid_alive pid w) then (true, w) else rest
      else (not (pid_alive pid w), w)

  unfoldable pub wait_for_pid_exit : ℕ → ℕ → Store → Bool × Store
  unfolding wait_until
  wait_for_pid_exit pid timeout w = wait_until timeout (now w + timeout) pid w
