-- ===== src/Lifecycle/Start.antt =====
-- start_session of session_worker/lifecycle.py: the checks, the parse of the symbols, the reservation,
-- the process and the keys. What it raises is `raised`; the health monitor is not modelled.

pub mod Admission
use mintzy_plugin_kelly_opt.Base.{
  ℕ, zero, suc, ◌+◌, Bool, true, false, ◌&&◌, ◌||◌, not, Option, none, some, List, [], ◌∷◌, ◌++◌,
  map, keep, length, is_empty, get_or, Call, returned, raised, if◌then◌else◌, ltb,
}
use mintzy_plugin_kelly_opt.Base.Text.{Text, codes, text_eq, lower}
use mintzy_plugin_kelly_opt.Base.Dict.{Dict, lookup, insert, values}
use mintzy_plugin_kelly_opt.Symbols.{Environ, normalize_symbol, present}
use mintzy_plugin_kelly_opt.RedisKeys.{session_pid_key, session_meta_key, session_redis_ttl}
use mintzy_plugin_kelly_opt.Redis.{SessionMeta}
use mintzy_plugin_kelly_opt.Machine.{Machine, Signalled, delivered, no_such_process, not_permitted}
use mintzy_plugin_kelly_opt.Registry.{Worker, Manager, cleanup_worker, get_redis_pid, pid_alive}
use mintzy_plugin_kelly_opt.Registry.Termination.{reconcile_session_registry}

-- Python's floats as `start_session` reads them: `float(x)`, the defaults 0 and 0.02, and `x <= 0`.
pub record Floats : Type 1 where
  pub Raw : Type 0
  pub Float : Type 0
  pub float : Raw → Call Float
  pub no_capital : Raw
  pub default_stop_loss : Raw
  pub le_zero : Float → Bool

-- An entry of the session document's symbols, where it is a dictionary. `str(sym)` is the text.
pub record Entry (Raw : Type 0) : Type 0 where
  pub symbol : Option Text
  pub capital : Option Raw
  pub stop_loss : Option Raw

pub record Allocation (Float : Type 0) : Type 0 where
  pub capital : Float
  pub stop_loss : Float

-- The session document; `broker` is the broker's configuration, whose keys must be there.
pub record SessionDoc (Raw Broker : Type 0) : Type 0 where
  pub strategy : Option Text
  pub symbols : List (Option (Entry Raw))
  pub leverage_multiplier : Option Raw
  pub broker : Call Broker

-- What the worker process is started with.
pub record Launch (Float Broker : Type 0) : Type 0 where
  pub session_id : Text
  pub strategy : Text
  pub symbols : List Text
  pub allocations : Dict (Allocation Float)
  pub broker : Broker
  pub leverage_multiplier : Option Float

unfoldable pub parse_symbol : Text → Text
parse_symbol raw =
    let sym = normalize_symbol raw in if text_eq sym (codes "LTIM") then codes "LTM" else sym

-- `[(s or "").upper().replace("-EQ", "").strip() for s in symbols if s]`
unfoldable pub reservation_symbols : List Text → List Text
reservation_symbols symbols = map normalize_symbol (keep (λ s. not (is_empty s)) symbols)

unfoldable pub strict_meta_enabled : Environ → Bool
strict_meta_enabled environ =
    let v = lower (get_or (environ (codes "EOD_STRICT_REDIS_META")) (codes "false")) in
    text_eq v (codes "1") || (text_eq v (codes "true") || text_eq v (codes "yes"))

module _ (F : Floats) where
  open F use {Raw, Float, float}

  -- The loop over the entries; both numbers are read before the symbol is looked at.
  unfoldable pub parse_entries :
      List (Option (Entry Raw))
      → List Text
      → Dict (Allocation Float)
      → Call (List Text × Dict (Allocation Float))
  unfolding parse_symbol
  parse_entries [] symbols allocations = returned (symbols, allocations)
  parse_entries (none ∷ entries) symbols allocations = parse_entries entries symbols allocations
  parse_entries (some e ∷ entries) symbols allocations =
      elim (float (get_or e.capital F.no_capital)) [
        | raised ↦ raised
        | returned cap ↦ elim (float (get_or e.stop_loss F.default_stop_loss)) [
          | raised ↦ raised
          | returned sl ↦ elim (present e.symbol) [
            | none ↦ parse_entries entries symbols allocations
            | some raw ↦
                parse_entries entries (symbols ++ parse_symbol raw ∷ [])
                  (insert (parse_symbol raw) (record { capital = cap; stop_loss = sl }) allocations)
          ]
        ]
      ]

  -- A multiplier that is no number or not positive counts as none.
  unfoldable pub parse_leverage : Option Raw → Option Float
  parse_leverage none = none
  parse_leverage (some raw) = elim (float raw) [
    | raised ↦ none
    | returned x ↦ if F.le_zero x then none else some x
  ]

module _ (M : Machine) where
  open M use {redis, now, sleep, is_alive, sigterm, join}
  open redis use {Store, setex, delete}

  -- The sum over the registry of the workers that are alive.
  unfoldable pub active_workers : List Worker → Store → ℕ
  active_workers [] w = 0
  active_workers (worker ∷ workers) w =
      if is_alive worker.pid w then suc (active_workers workers w) else active_workers workers w

  -- The checks before the document is read: no worker of the session may be alive, neither here nor
  -- in Redis, and fewer than `max_workers` workers of this process.
  unfoldable pub admission : Text → ℕ → Manager Store → Call (Unit {0}) × Manager Store
  unfolding active_workers
  admission session_id max_workers m0 =
      let m1 = reconcile_session_registry M session_id m0 in
      let local : Option Bool = elim (lookup session_id m1.workers) [
        | none ↦ none
        | some worker ↦ some (is_alive worker.pid m1.world)
      ] in
      let m = if get_or local true then m1 else cleanup_worker M session_id m1 in
      let in_redis : Bool = elim (get_redis_pid M session_id m.world) [
        | none ↦ false
        | some redis_pid ↦ pid_alive M redis_pid m.world
      ] in
      if get_or local false
      then (raised, m1)
      else if in_redis
      then (raised, m)
      else if not (ltb (active_workers (values m.workers) m.world) max_workers)
      then (raised, m)
      else (returned tt, m)

  -- The meta document of the reservation, which is without a pid, and of the worker.
  abbrev pub meta_of : Text → Option ℕ → List Text → ℕ → SessionMeta
  meta_of strategy pid symbols started_at = record {
    strategy = some strategy;
    pid = pid;
    started_at = some started_at;
    symbols = some symbols;
    reserved = elim pid [ none ↦ true | some p ↦ false ];
  }

  -- The reservation of the meta key; a failure is logged.
  unfoldable pub reserve_meta : Text → Text → List Text → Store → Store
  reserve_meta session_id strategy symbols w =
      (setex (session_meta_key session_id) session_redis_ttl
        (M.json_dumps (meta_of strategy none symbols (now w))) w).1

  -- One attempt to write both keys as one.
  unfoldable pub write_meta : Text → Text → ℕ → List Text → Store → Call (Unit {0}) × Store
  write_meta session_id strategy pid symbols w =
      let payload = M.json_dumps (meta_of strategy (some pid) symbols (now w)) in
      M.pipe_setex
        ((session_pid_key session_id, session_redis_ttl, M.show_int pid)
          ∷ (session_meta_key session_id, session_redis_ttl, payload)
          ∷ [])
        w

  -- The attempts, with the sleeps between them.
  unfoldable pub save_meta : List ℕ → Text → Text → ℕ → List Text → Store → Bool × Store
  save_meta [] session_id strategy pid symbols w =
      let (r, w1) = write_meta session_id strategy pid symbols w in
      elim r [ returned u ↦ (true, w1) | raised ↦ (false, w1) ]
  save_meta (t ∷ sleeps) session_id strategy pid symbols w =
      let (r, w1) = write_meta session_id strategy pid symbols w in
      elim r [
        | returned u ↦ (true, w1)
        | raised ↦ save_meta sleeps session_id strategy pid symbols (sleep t w1)
      ]

  -- The end of a worker whose keys could not be written; what it raises is logged.
  unfoldable pub abandon : ℕ → Store → Store
  abandon pid w =
      if not (is_alive pid w)
      then w
      else let (r, w1) = sigterm pid w in
        elim r [
          | no_such_process ↦ w1
          | not_permitted ↦ w1
          | delivered ↦
              let w2 = join pid 10000 w1 in
              if is_alive pid w2 then join pid 5000 (M.terminate pid w2) else w2
        ]

  module _ (F : Floats) {Broker : Type 0}
      (process_start : Launch F.Float Broker → Store → Call ℕ × Store) where
    -- The part from the reservation on; the result is the pid of the new worker.
    unfoldable pub launch : Environ → Launch F.Float Broker → Manager Store → Call ℕ × Manager Store
    unfolding reservation_symbols
    launch environ l m =
        let names = reservation_symbols l.symbols in
        let (spawned, w2) = process_start l (reserve_meta l.session_id l.strategy names m.world) in
        elim spawned [
          | raised ↦
              (raised, record m { world = (delete (session_meta_key l.session_id ∷ []) w2).1 })
          | returned pid ↦
              let (saved, w3) = save_meta (100 ∷ 200 ∷ []) l.session_id l.strategy pid names w2 in
              if not saved && (strict_meta_enabled environ && not (text_eq l.strategy (codes "B")))
              then (raised, record m { world = abandon pid w3 })
              else (
                returned pid,
                record {
                  workers =
                      insert l.session_id
                        (record { pid = pid; strategy = some l.strategy; symbols = names })
                        m.workers;
                  world = w3;
                },
              )
        ]

    -- The part behind the parse: an empty list of symbols and a missing key of the broker raise.
    unfoldable pub start_parsed :
        Environ
        → Text
        → SessionDoc F.Raw Broker
        → Call (List Text × Dict (Allocation F.Float))
        → Call Broker
        → Manager Store
        → Call ℕ × Manager Store
    start_parsed environ session_id doc raised broker m = (raised, m)
    start_parsed environ session_id doc (returned parsed) raised m = (raised, m)
    start_parsed environ session_id doc (returned (symbols, allocations)) (returned broker) m =
        let l : Launch F.Float Broker = record {
          session_id = session_id;
          strategy = get_or doc.strategy (codes "C");
          symbols = symbols;
          allocations = allocations;
          broker = broker;
          leverage_multiplier = parse_leverage F doc.leverage_multiplier;
        } in
        if is_empty symbols then (raised, m) else launch environ l m

    unfoldable pub start_session :
        Environ → ℕ → Text → SessionDoc F.Raw Broker → Manager Store → Call ℕ × Manager Store
    start_session environ max_workers session_id doc m0 =
        let (admitted, m) = admission session_id max_workers m0 in
        elim admitted [
          | raised ↦ (raised, m)
          | returned u ↦
              start_parsed environ session_id doc (parse_entries F doc.symbols [] []) doc.broker m
        ]
