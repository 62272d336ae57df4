-- ===== src/Lifecycle/SymbolExit/Served.antt =====
-- The other side of a symbol's exit: the body of the monitor loop of session_worker/trader_worker.py
-- that serves a request, and the way of a request to the worker and of its result back.
use mintzy_plugin_kelly_opt.Base.{
  ℕ, ◌≡◌, Option, none, some, List, [], ◌∷◌, Call, returned, raised, arith,
}
use mintzy_plugin_kelly_opt.Base.Text.{Text, upper}
use mintzy_plugin_kelly_opt.Symbols.{present}
use mintzy_plugin_kelly_opt.Redis.{Redis}
use mintzy_plugin_kelly_opt.RedisKeys.{exit_request_key, exit_result_key}
use mintzy_plugin_kelly_opt.Machine.{Machine}
use mintzy_plugin_kelly_opt.Lifecycle.SymbolExit.{
  ExitChannel, take_result, await_result, request_exit,
}
use mintzy_plugin_kelly_opt.Lifecycle.SymbolExit.Answer.{result_key_upper}

-- What the worker uses: the queue, the JSON of a request, of which it reads the symbol, and of a
-- result, and the trader's exit of a symbol.
pub record ExitServer (Store Result : Type 0) : Type 0 where
  pub lpop : Text → Store → Call (Option Text) × Store
  pub loads_symbol : Text → Call Text
  pub exit_single_position : Text → Store → Call Result × Store
  pub dumps_result : Result → Text

module _ (R : Redis) {Result : Type 0} (W : ExitServer R.Store Result) where
  open R use {Store, setex}
  open W use {lpop, loads_symbol, exit_single_position, dumps_result}

  -- The exit of the symbol that a request names. What is raised here is logged and dropped.
  unfoldable pub answer_request : Text → Text → Store → Store
  answer_request session_id raw w = elim (loads_symbol raw) [
    | raised ↦ w
    | returned symbol ↦
        let (r, w1) = exit_single_position symbol w in
        elim r [
          | raised ↦ w1
          | returned result ↦
              (setex (exit_result_key session_id symbol) 60 (dumps_result result) w1).1
        ]
  ]

  unfoldable pub serve_exit : Text → Store → Store
  unfolding answer_request
  serve_exit session_id w =
      let (r, w1) = lpop (exit_request_key session_id) w in
      elim r [
        | raised ↦ w1
        | returned raw ↦ elim (present raw) [ none ↦ w1 | some s ↦ answer_request session_id s w1 ]
      ]

module _ (M : Machine) {Result : Type 0} (C : ExitChannel M.redis.Store Result)
    (W : ExitServer M.redis.Store Result) where
  open M use {redis, sleep}
  open redis use {Store, get, setex, delete, expire}
  open C use {rpush, dumps_request, loads_result}
  open W use {lpop, loads_symbol, exit_single_position, dumps_result}

  -- The two JSON formats are read as they were written, no text of theirs is empty, a key that was
  -- set can be read at once, and a deletion does not raise.
  pub record IsFaithful : Type 0 where
    pub request_read : (s : Text) → loads_symbol (dumps_request s) ≡ returned s
    pub request_text : (s : Text) → present (some (dumps_request s)) ≡ some (dumps_request s)
    pub result_read : (r : Result) → loads_result (dumps_result r) ≡ returned r
    pub result_text : (r : Result) → present (some (dumps_result r)) ≡ some (dumps_result r)
    pub key_read :
        (k v : Text) (ttl : ℕ) (w : Store) → get k (setex k ttl v w).1 ≡ returned (some v)
    pub deleted : (ks : List Text) (w : Store) → (delete ks w).0 ≡ returned tt

  module _ (session_id symbol : Text) (w : Store) where
    -- The request is in its queue, and the key of the queue has its time to live.
    abbrev pub requested : Store
    requested =
        (expire (exit_request_key session_id) 300
          (rpush (exit_request_key session_id) (dumps_request (upper symbol)) w).1).1

    -- If the JSON of requests and results reads as it was written and is never empty, a key that
    -- was set can be read at once and a deletion does not raise, then a request for the exit of a
    -- symbol, which the manager pushes without an error and which the worker pops and serves while
    -- the manager sleeps, is answered with the result of the exit of the symbol in capitals by the
    -- worker.
    pub request_is_answered :
        IsFaithful
        → (rpush (exit_request_key session_id) (dumps_request (upper symbol)) w).0 ≡ returned tt
        → (expire
            (exit_request_key session_id)
            300
            (rpush (exit_request_key session_id) (dumps_request (upper symbol)) w).1).0
          ≡ returned tt
        → sleep 500 requested ≡ serve_exit redis W session_id requested
        → {w1 : Store}
        → lpop (exit_request_key session_id) requested
          ≡ (returned (some (dumps_request (upper symbol))), w1)
        → {result : Result} → (exit_single_position (upper symbol) w1).0 ≡ returned result
        → (request_exit M C session_id symbol w).0 ≡ returned (some result)
    unfolding request_exit await_result take_result serve_exit answer_request
    request_is_answered law pushed kept slept {w1} popped {result} exited =
        let request_read = law.request_read (upper symbol) in
        let request_text = law.request_text (upper symbol) in
        let result_read = law.result_read result in
        let result_text = law.result_text result in
        let same_key = result_key_upper session_id symbol in
        let w2 = (exit_single_position (upper symbol) w1).1 in
        let key_read =
          law.key_read (exit_result_key session_id symbol) (dumps_result result) 60 w2 in
        let deleted =
          law.deleted (exit_result_key session_id symbol ∷ [])
            (setex (exit_result_key session_id symbol) 60 (dumps_result result) w2).1 in
        ground arith
