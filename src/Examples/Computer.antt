-- ===== src/Examples/Computer.antt =====
-- A machine for the examples: its processes die at once when they are signalled, its Redis holds the
-- keys in memory and never fails, and a pid is written as the text of its one code point.
use mintzy_plugin_kelly_opt.Base.{
  ℕ, ◌+◌, Bool, not, List, [], ◌∷◌, keep, any, Call, returned, raised, if◌then◌else◌, ◌==◌,
}
use mintzy_plugin_kelly_opt.Base.Text.{Text, codes}
use mintzy_plugin_kelly_opt.Base.Dict.{Dict, lookup, insert, pop}
use mintzy_plugin_kelly_opt.Machine.{Machine, Signalled, delivered, no_such_process, exited}

pub record Computer : Type 0 where
  pub strings : Dict Text
  pub running : List ℕ
  pub clock : ℕ

abbrev pub runs : ℕ → Computer → Bool
runs pid c = any (λ p. p == pid) c.running

abbrev pub stop : ℕ → Computer → Computer
stop pid c = record c { running = keep (λ p. not (p == pid)) c.running }

abbrev pub signal : ℕ → Computer → Signalled × Computer
signal pid c = if runs pid c then (delivered, stop pid c) else (no_such_process, c)

abbrev pub remove : List Text → Dict Text → Dict Text
remove [] d = d
remove (k ∷ ks) d = pop k (remove ks d)

abbrev pub store_all : List (Text × ℕ × Text) → Dict Text → Dict Text
store_all [] d = d
store_all ((k, ttl, v) ∷ rows) d = insert k v (store_all rows d)

abbrev pub parse_pid : Text → Call ℕ
parse_pid (p ∷ []) = returned p
parse_pid s = raised

abbrev pub computer : Machine
computer = record {
  redis = record {
    Store = Computer;
    get = λ k c. returned (lookup k c.strings);
    smembers = λ k c. returned [];
    setex = λ k ttl v c. (returned tt, record c { strings = insert k v c.strings });
    delete = λ ks c. (returned tt, record c { strings = remove ks c.strings });
    sadd = λ k m c. (returned tt, c);
    expire = λ k ttl c. (returned tt, c);
  };
  now = λ c. c.clock;
  sleep = λ t c. record c { clock = c.clock + t };
  probe = λ pid c. if runs pid c then delivered else no_such_process;
  sigkill = signal;
  sigterm = signal;
  is_alive = runs;
  set_stop_event = λ pid c. c;
  join = λ pid t c. c;
  terminate = stop;
  kill = stop;
  psutil_wait = λ pid t c. (exited, c);
  pipe_setex = λ rows c. (returned tt, record c { strings = store_all rows c.strings });
  json_loads = λ s. raised;
  json_dumps = λ meta. codes "{}";
  parse_int = parse_pid;
  show_int = λ p. p ∷ [];
}
