-- ===== src/Examples/Exits.antt =====
-- Examples for the exit of one symbol and the stop of all sessions.
use mintzy_plugin_kelly_opt.Base.{
  ℕ, ◌≡◌, refl, ap, some, [], ◌∷◌, length, Call, returned, raised, arith,
}
use mintzy_plugin_kelly_opt.Base.Text.{
  Text, codes, text_eq, text_eq_iff, upper, strip, drop_eq_suffix,
}
use mintzy_plugin_kelly_opt.Base.Dict.{Dict, lookup, insert, pop, lookup-insert}
use mintzy_plugin_kelly_opt.RedisKeys.{exit_request_key, exit_result_key}
use mintzy_plugin_kelly_opt.Registry.{Manager}
use mintzy_plugin_kelly_opt.Lifecycle.SymbolExit.{
  ExitChannel, answered, request_sent, await_result, take_result, request_exit, refusal,
  exit_symbol_for_session,
}
use mintzy_plugin_kelly_opt.Lifecycle.SymbolExit.Served.{
  ExitServer, serve_exit, IsFaithful, request_is_answered,
}
use mintzy_plugin_kelly_opt.Machine.{Machine}
use mintzy_plugin_kelly_opt.Examples.Computer.{Computer, computer, stop}

-- A channel whose every result is 7.
abbrev channel : ExitChannel Computer ℕ
channel = record {
  rpush = λ k v c. (returned tt, c);
  dumps_request = λ s. s;
  loads_result = λ s. returned 7;
}

abbrev quiet : Computer
quiet = record { strings = []; running = 7 ∷ 8 ∷ []; clock = 5 }

abbrev two_sessions : Manager Computer
two_sessions = record {
  workers =
      (codes "s1", record { pid = 7; strategy = some (codes "B"); symbols = [] })
      ∷ (codes "s2", record { pid = 8; strategy = some (codes "C"); symbols = [] })
      ∷ [];
  world = quiet;
}

abbrev answering : Manager Computer
answering = record two_sessions {
  world = record quiet { strings = (codes "autotrader:exit_result:s1:TCS", codes "{}") ∷ [] };
}

exit_answered :
    (exit_symbol_for_session computer channel (codes "s1") (codes "tcs-eq") answering).0
    ≡ answered 7
unfolding exit_symbol_for_session refusal request_exit await_result take_result lookup text_eq
    exit_result_key upper strip drop_eq_suffix
exit_answered = refl

exit_pending :
    (exit_symbol_for_session computer channel (codes "s1") (codes "TCS") two_sessions).0
    ≡ request_sent
unfolding exit_symbol_for_session refusal request_exit await_result lookup text_eq
exit_pending = refl

-- A queue of one request, and JSON texts of a request and of a result.
unfoldable read_symbol : Text → Call Text
read_symbol [] = raised
read_symbol (c ∷ s) = returned s

unfoldable read_result : Text → Call ℕ
read_result [] = raised
read_result (r ∷ s) = returned r

abbrev wire : ExitChannel Computer ℕ
wire = record {
  rpush = λ k v c. (returned tt, record c { strings = insert k v c.strings });
  dumps_request = λ s. 34 ∷ s;
  loads_result = read_result;
}

-- The exit of a symbol ends the process of pid 8 and gives the length of the symbol.
abbrev server : ExitServer Computer ℕ
server = record {
  lpop = λ k c. (returned (lookup k c.strings), record c { strings = pop k c.strings });
  loads_symbol = read_symbol;
  exit_single_position = λ s c. (returned (length s), stop 8 c);
  dumps_result = λ r. r ∷ [];
}

-- While the manager sleeps the worker of s1 serves its queue once.
abbrev serving : Machine
serving = record computer { sleep = λ t c. serve_exit computer.redis server (codes "s1") c }

lookup-insert-same : (k v : Text) (d : Dict Text) → lookup k (insert k v d) ≡ some v
lookup-insert-same k v d = ground (arith, lookup-insert k k v d, text_eq_iff k k)

wire-IsFaithful : IsFaithful serving wire server
unfolding read_symbol read_result
wire-IsFaithful = record {
  request_read = λ s. refl;
  request_text = λ s. refl;
  result_read = λ r. refl;
  result_text = λ r. refl;
  key_read = λ k v ttl w. ap returned (lookup-insert-same k v w.strings);
  deleted = λ ks w. refl;
}

request_is_answered_example :
    (request_exit serving wire (codes "s1") (codes "tcs") quiet).0 ≡ returned (some 3)
unfolding upper lookup insert text_eq exit_request_key
request_is_answered_example =
    request_is_answered serving wire server (codes "s1") (codes "tcs") quiet wire-IsFaithful refl
      refl refl refl refl
