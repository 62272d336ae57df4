-- ===== src/Lifecycle/Start/Admission.antt =====
-- What start_session guarantees: room for the worker, no second worker of the session, and an
-- allocation for every symbol.
use mintzy_plugin_kelly_opt.Base.{
  ℕ, ◌<◌, ◌≡◌, refl, true, Option, none, some, List, [], ◌∷◌, ◌++◌, get_or, All, Call, returned,
  raised, arith, Option-cases, Call-cases, inl, inr,
}
use mintzy_plugin_kelly_opt.Base.Text.{Text, codes, text_eq_iff}
use mintzy_plugin_kelly_opt.Base.Dict.{Dict, insert, values, contains, lookup-insert, lookup-pop}
use mintzy_plugin_kelly_opt.Symbols.{Environ, present}
use mintzy_plugin_kelly_opt.Machine.{Machine}
use mintzy_plugin_kelly_opt.Registry.{Worker, Manager, cleanup_worker}
use mintzy_plugin_kelly_opt.Registry.Termination.{reconcile_session_registry}
use mintzy_plugin_kelly_opt.Registry.Cleared.{IsCleared}
use mintzy_plugin_kelly_opt.Lifecycle.Start.{
  Floats, Entry, Allocation, SessionDoc, Launch, parse_symbol, parse_entries, active_workers,
  admission, launch, start_parsed, start_session, parse_leverage, reservation_symbols,
}

module _ (F : Floats) where
  open F use {Raw, Float, float}

  -- Every symbol in a list has an allocation.
  abbrev pub AllHaveCapital : List Text → Dict (Allocation Float) → Type 0
  AllHaveCapital symbols allocations = All (λ s. contains s allocations ≡ true) symbols

  AllHaveCapital-insert :
      (k : Text) (a : Allocation Float) (symbols : List Text)
      (allocations : Dict (Allocation Float))
      → AllHaveCapital symbols allocations
      → AllHaveCapital (symbols ++ k ∷ []) (insert k a allocations)
  AllHaveCapital-insert k a [] allocations h =
      (ground (arith, lookup-insert k k a allocations, text_eq_iff k k), tt)
  AllHaveCapital-insert k a (s ∷ symbols) allocations h = (
    ground (arith, h.0, lookup-insert k s a allocations),
    AllHaveCapital-insert k a symbols allocations h.1,
  )

  -- The parse of a session document, begun with lists in which every symbol has an allocation,
  -- ends with such lists where it does not raise.
  parse_entries-AllHaveCapital :
      (entries : List (Option (Entry Raw))) (symbols symbols' : List Text)
      (allocations allocations' : Dict (Allocation Float))
      → AllHaveCapital symbols allocations
      → parse_entries F entries symbols allocations ≡ returned (symbols', allocations')
      → AllHaveCapital symbols' allocations'
  unfolding parse_entries
  parse_entries-AllHaveCapital [] symbols symbols' allocations allocations' h e =
      ground (arith, e, h)
  parse_entries-AllHaveCapital (none ∷ entries) symbols symbols' allocations allocations' h e =
      parse_entries-AllHaveCapital entries symbols symbols' allocations allocations' h e
  parse_entries-AllHaveCapital (some x ∷ entries) symbols symbols' allocations allocations' h e =
      elim (Call-cases (float (get_or x.capital F.no_capital))) [
        | inl r ↦ ground (arith, e, r)
        | inr (cap, ec) ↦ elim (Call-cases (float (get_or x.stop_loss F.default_stop_loss))) [
          | inl r ↦ ground (arith, e, ec, r)
          | inr (sl, es) ↦ elim (Option-cases (present x.symbol)) [
            | inl n ↦
                parse_entries-AllHaveCapital entries symbols symbols' allocations allocations' h
                  (ground (arith, e, ec, es, n))
            | inr (raw, n) ↦
                let a : Allocation Float = record { capital = cap; stop_loss = sl } in
                parse_entries-AllHaveCapital entries (symbols ++ parse_symbol raw ∷ []) symbols'
                  (insert (parse_symbol raw) a allocations) allocations'
                  (AllHaveCapital-insert (parse_symbol raw) a symbols allocations h)
                  (ground (arith, e, ec, es, n))
          ]
        ]
      ]

module _ (M : Machine) where
  open M use {redis, is_alive}
  open redis use {Store}

  admission_lem :
      (session_id : Text) (max_workers : ℕ) (m : Manager Store)
      → let (r, m1) = admission M session_id max_workers m in
        r ≡ returned tt
        → IsCleared M session_id m1 × (active_workers M (values m1.workers) m1.world < max_workers)
  unfolding admission cleanup_worker
  admission_lem session_id max_workers m h =
      let m1 = reconcile_session_registry M session_id m in
      (
        (
          ground (
            arith,
            h,
            lookup-pop session_id session_id m1.workers,
            text_eq_iff session_id session_id,
          ),
          λ p e. ground (arith, h, e),
        ),
        ground (arith, h),
      )

  module _ (F : Floats) {Broker : Type 0}
      (process_start : Launch F.Float Broker → Store → Call ℕ × Store) where
    open F use {Raw, Float}

    launched_lem :
        (environ : Environ) (l : Launch Float Broker) (m : Manager Store) (pid : ℕ)
        → let (r, m1) = launch M F process_start environ l m in
          r ≡ returned pid
          → (worker : Worker) × (worker.pid ≡ pid)
            × (m1.workers ≡ insert l.session_id worker m.workers)
    unfolding launch
    launched_lem environ l m pid h =
        let names = reservation_symbols l.symbols in
        (record { pid = pid; strategy = some l.strategy; symbols = names }, refl, ground (arith, h))

    not_launched_lem :
        (environ : Environ) (l : Launch Float Broker) (m : Manager Store)
        → let (r, m1) = launch M F process_start environ l m in r ≡ raised → m1.workers ≡ m.workers
    unfolding launch
    not_launched_lem environ l m h = ground (arith, h)

    parsed_lem :
        (environ : Environ) (session_id : Text) (doc : SessionDoc Raw Broker)
        (parsed : Call (List Text × Dict (Allocation Float))) (broker : Call Broker)
        (m : Manager Store) (pid : ℕ)
        → let (r, m1) = start_parsed M F process_start environ session_id doc parsed broker m in
          r ≡ returned pid
          → (worker : Worker) × (worker.pid ≡ pid)
            × (m1.workers ≡ insert session_id worker m.workers)
    unfolding start_parsed
    parsed_lem environ session_id doc raised broker m pid h = ground (arith, h)
    parsed_lem environ session_id doc (returned parsed) raised m pid h = ground (arith, h)
    parsed_lem environ session_id doc (returned ([], allocations)) (returned broker) m pid h =
        ground (arith, h)
    parsed_lem environ session_id doc (returned (s ∷ symbols, allocations)) (returned broker) m pid
          h =
        launched_lem environ
          (record {
            session_id = session_id;
            strategy = get_or doc.strategy (codes "C");
            symbols = s ∷ symbols;
            allocations = allocations;
            broker = broker;
            leverage_multiplier = parse_leverage F doc.leverage_multiplier;
          })
          m pid h

    not_parsed_lem :
        (environ : Environ) (session_id : Text) (doc : SessionDoc Raw Broker)
        (parsed : Call (List Text × Dict (Allocation Float))) (broker : Call Broker)
        (m : Manager Store)
        → let (r, m1) = start_parsed M F process_start environ session_id doc parsed broker m in
          r ≡ raised → m1.workers ≡ m.workers
    unfolding start_parsed
    not_parsed_lem environ session_id doc raised broker m h = refl
    not_parsed_lem environ session_id doc (returned parsed) raised m h = refl
    not_parsed_lem environ session_id doc (returned ([], allocations)) (returned broker) m h = refl
    not_parsed_lem environ session_id doc (returned (s ∷ symbols, allocations)) (returned broker) m
          h =
        not_launched_lem environ
          (record {
            session_id = session_id;
            strategy = get_or doc.strategy (codes "C");
            symbols = s ∷ symbols;
            allocations = allocations;
            broker = broker;
            leverage_multiplier = parse_leverage F doc.leverage_multiplier;
          })
          m h

    -- Where the start of a session returns a pid, the checks left neither a local entry nor a live
    -- pid of the session in Redis, and fewer live workers in the registry than are allowed; and
    -- the registry is the one that the checks left with the new worker added.
    pub started_alone :
        (environ : Environ) (max_workers : ℕ) (session_id : Text) (doc : SessionDoc Raw Broker)
        (m : Manager Store) (pid : ℕ)
        → let (r, m1) = start_session M F process_start environ max_workers session_id doc m in
          let a = (admission M session_id max_workers m).1 in
          r ≡ returned pid
          → IsCleared M session_id a
            × (active_workers M (values a.workers) a.world < max_workers)
            × (worker : Worker) × (worker.pid ≡ pid)
            × (m1.workers ≡ insert session_id worker a.workers)
    unfolding start_session
    started_alone environ max_workers session_id doc m pid h =
        let a = (admission M session_id max_workers m).1 in
        let parsed = parse_entries F doc.symbols [] [] in
        elim (Call-cases (admission M session_id max_workers m).0) [
          | inl r ↦ ground (arith, h, r)
          | inr (u, e) ↦
              let (cleared, room) = admission_lem session_id max_workers m e in
              let (worker, of_pid, registered) =
                parsed_lem environ session_id doc parsed doc.broker a pid (ground (arith, h, e)) in
              (cleared, room, worker, of_pid, ground (arith, e, registered))
        ]

    -- A start that raises leaves the registry as the checks left it.
    failed_start_registers_none :
        (environ : Environ) (max_workers : ℕ) (session_id : Text) (doc : SessionDoc Raw Broker)
        (m : Manager Store)
        → let (r, m1) = start_session M F process_start environ max_workers session_id doc m in
          r ≡ raised → m1.workers ≡ (admission M session_id max_workers m).1.workers
    unfolding start_session
    failed_start_registers_none environ max_workers session_id doc m h =
        let a = (admission M session_id max_workers m).1 in
        let parsed = parse_entries F doc.symbols [] [] in
        ground (arith, h, not_parsed_lem environ session_id doc parsed doc.broker a)
