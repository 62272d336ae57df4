-- ===== src/Lifecycle/SymbolExit/Answer.antt =====
-- The wait for a worker's answer, the key under which it comes, and the stop of every session.
use mintzy_plugin_kelly_opt.Base.{
  ℕ, zero, suc, ◌+◌, ◌*◌, ◌≤◌, ◌≡◌, ◌≢◌, refl, none, List, [], ◌∷◌, returned, if◌then◌else◌, arith,
  Bool-cases, Option-cases, Call-cases, inl, inr,
}
use mathlib.Core.Path.{ap₂}
use mintzy_plugin_kelly_opt.Base.Text.{Text, upper, upper_code, text_eq, text_eq_iff}
use mintzy_plugin_kelly_opt.Base.Dict.{Dict, lookup, keys, lookup-pop}
use mintzy_plugin_kelly_opt.Symbols.{present}
use mintzy_plugin_kelly_opt.RedisKeys.{exit_result_key}
use mintzy_plugin_kelly_opt.Machine.{Machine}
use mintzy_plugin_kelly_opt.Registry.{Worker, Manager}
use mintzy_plugin_kelly_opt.Registry.Cleared.{SleepsAsTold}
use mintzy_plugin_kelly_opt.Lifecycle.{stop_session}
use mintzy_plugin_kelly_opt.Lifecycle.SymbolExit.{
  ExitChannel, take_result, await_result, stop_each, stop_all_sessions,
}

module _ (M : Machine) where
  open M use {redis, now, sleep}
  open redis use {Store, get}

  module _ {Result : Type 0} (C : ExitChannel Store Result) where
    take_result_lem :
        (result_key raw : Text) (w : Store) → (take_result M C result_key raw w).0 ≢ returned none
    unfolding take_result
    take_result_lem result_key raw w h = ground (arith, h)

    -- The manager gives up on an answer only after half a second for each round, if time.sleep
    -- sleeps as long as it is told.
    await_result_lem :
        (rounds : ℕ) (result_key : Text) (w : Store)
        → SleepsAsTold M
        → let (r, w1) = await_result M C rounds result_key w in
          r ≡ returned none → now w + 500 * rounds ≤ now w1
    unfolding await_result
    await_result_lem zero result_key w s h = omega arith
    await_result_lem (suc rounds) result_key w s h =
        let w1 = sleep 500 w in
        elim (Call-cases (get result_key w1)) [
          | inl e ↦ ground (arith, h, e)
          | inr (raw, e) ↦ elim (Option-cases (present raw)) [
            | inl n ↦ ground (arith, h, e, n, s 500 w, await_result_lem rounds result_key w1 s)
            | inr (x, n) ↦ ground (arith, h, e, n, take_result_lem result_key x w1)
          ]
        ]

  -- A stop of a session removes it from the registry and nothing else.
  lookup-stop_session :
      (j session_id : Text) (m : Manager Store)
      → lookup j (stop_session M session_id m).1.workers
        ≡ (if text_eq session_id j then none else lookup j m.workers)
  unfolding stop_session
  lookup-stop_session j session_id m =
      ground (arith, text_eq_iff session_id j, lookup-pop session_id j m.workers)

  lookup-stop_each :
      (j : Text) (session_ids : List Text) (m : Manager Store)
      → lookup j m.workers ≡ none
      → lookup j (stop_each M session_ids m).workers ≡ none
  unfolding stop_each
  lookup-stop_each j [] m h = h
  lookup-stop_each j (i ∷ session_ids) m h =
      lookup-stop_each j session_ids (stop_session M i m).1
        (ground (arith, h, lookup-stop_session j i m))

  stopped_each :
      (j : Text) (d : Dict Worker) (m : Manager Store)
      → lookup j m.workers ≡ lookup j d
      → lookup j (stop_each M (keys d) m).workers ≡ none
  unfolding stop_each keys lookup
  stopped_each j [] m h = h
  stopped_each j ((i, v) ∷ d) m h =
      let m1 = (stop_session M i m).1 in
      elim (Bool-cases (text_eq i j)) [
        | inl e ↦ lookup-stop_each j (keys d) m1 (ground (arith, e, lookup-stop_session j i m))
        | inr n ↦ stopped_each j d m1 (ground (arith, n, h, lookup-stop_session j i m))
      ]

  -- After the stop of all sessions, no session has an entry in the registry.
  stop_all_empties :
      (m : Manager Store) (j : Text) → lookup j (stop_all_sessions M m).workers ≡ none
  unfolding stop_all_sessions
  stop_all_empties m j = stopped_each j m.workers m refl

upper_code_twice : (c : ℕ) → upper_code (upper_code c) ≡ upper_code c
unfolding upper_code
upper_code_twice c = ground arith

upper_twice : (s : Text) → upper (upper s) ≡ upper s
unfolding upper
upper_twice [] = refl
upper_twice (c ∷ s) = ap₂ (λ x xs. x ∷ xs) (upper_code_twice c) (upper_twice s)

-- The result key of a symbol in capitals is that of the symbol.
pub result_key_upper :
    (session_id symbol : Text)
    → exit_result_key session_id (upper symbol) ≡ exit_result_key session_id symbol
unfolding exit_result_key
result_key_upper session_id symbol = rw (upper_twice symbol) refl
