-- ===== src/Lifecycle/SymbolExit.antt =====
-- exit_symbol_for_session and stop_all_sessions of session_worker/lifecycle.py: the exit of one symbol
-- by a request in Redis that the worker process answers, and the stop of every session.
pub mod Answer
pub mod Served
use mintzy_plugin_kelly_opt.Base.{
  ℕ, zero, suc, Option, none, some, List, [], ◌∷◌, Call, returned, raised,
}
use mintzy_plugin_kelly_opt.Base.Text.{Text, upper}
use mintzy_plugin_kelly_opt.Base.Dict.{lookup, keys}
use mintzy_plugin_kelly_opt.Symbols.{present}
use mintzy_plugin_kelly_opt.RedisKeys.{session_pid_key, exit_request_key, exit_result_key}
use mintzy_plugin_kelly_opt.Machine.{Machine}
use mintzy_plugin_kelly_opt.Registry.{Manager}
use mintzy_plugin_kelly_opt.Lifecycle.{stop_session}

-- The queue of requests and the JSON of a request and a result, from outside the repository.
pub record ExitChannel (Store Result : Type 0) : Type 0 where
  pub rpush : Text → Text → Store → Call (Unit {0}) × Store
  pub dumps_request : Text → Text
  pub loads_result : Text → Call Result

-- The answers: the worker's result, and the four messages.
pub data ExitReply (Result : Type 0) : Type 0 where
  answered : Result → ExitReply Result
  not_running check_failed request_sent send_failed : ExitReply Result

module _ (M : Machine) where
  open M use {redis, sleep}
  open redis use {Store, get, delete, expire}

  module _ {Result : Type 0} (C : ExitChannel Store Result) where
    open C use {rpush, dumps_request, loads_result}

    -- What follows where the key has the worker's result.
    unfoldable pub take_result : Text → Text → Store → Call (Option Result) × Store
    take_result result_key raw w =
        let (r, w1) = delete (result_key ∷ []) w in
        elim r [
          | raised ↦ (raised, w1)
          | returned u ↦ elim (loads_result raw) [
            | raised ↦ (raised, w1)
            | returned result ↦ (returned (some result), w1)
          ]
        ]

    -- The rounds that are left, half a second each.
    unfoldable pub await_result : ℕ → Text → Store → Call (Option Result) × Store
    await_result zero result_key w = (returned none, w)
    await_result (suc rounds) result_key w =
        let w1 = sleep 500 w in
        elim (get result_key w1) [
          | raised ↦ (raised, w1)
          | returned raw ↦ elim (present raw) [
            | none ↦ await_result rounds result_key w1
            | some s ↦ take_result result_key s w1
          ]
        ]

    -- The request and the wait of twenty rounds.
    unfoldable pub request_exit : Text → Text → Store → Call (Option Result) × Store
    request_exit session_id symbol w =
        let (pushed, w1) = rpush (exit_request_key session_id) (dumps_request (upper symbol)) w in
        elim pushed [
          | raised ↦ (raised, w1)
          | returned u ↦
              let (kept, w2) = expire (exit_request_key session_id) 300 w1 in
              elim kept [
                | raised ↦ (raised, w2)
                | returned v ↦ await_result 20 (exit_result_key session_id symbol) w2
              ]
        ]

    -- The check that the session runs, here or in Redis; `none` lets the request through.
    unfoldable pub refusal : Text → Manager Store → Option (ExitReply Result)
    refusal session_id m = elim (lookup session_id m.workers) [
      | some worker ↦ none
      | none ↦ elim (get (session_pid_key session_id) m.world) [
        | raised ↦ some check_failed
        | returned pid_str ↦ elim (present pid_str) [ none ↦ some not_running | some s ↦ none ]
      ]
    ]

    unfoldable pub exit_symbol_for_session : Text → Text → Manager Store → ExitReply Result × Store
    exit_symbol_for_session session_id symbol m = elim (refusal session_id m) [
      | some reply ↦ (reply, m.world)
      | none ↦
          let (r, w) = request_exit session_id symbol m.world in
          elim r [
            | raised ↦ (send_failed, w)
            | returned none ↦ (request_sent, w)
            | returned (some result) ↦ (answered result, w)
          ]
    ]

  unfoldable pub stop_each : List Text → Manager Store → Manager Store
  stop_each [] m = m
  stop_each (session_id ∷ session_ids) m = stop_each session_ids (stop_session M session_id m).1

  -- The monitor's own stop is not modelled.
  unfoldable pub stop_all_sessions : Manager Store → Manager Store
  unfolding stop_each
  stop_all_sessions m = stop_each (keys m.workers) m
