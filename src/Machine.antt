-- ===== src/Machine.antt =====
-- What the session manager uses of the machine: the Redis client, the worker processes, the clock,
-- and the texts that `json` and `int` read and write. All of it comes from outside the repository.
-- The store of the client is the world of the machine: an action returns the world as it finds it
-- when it ends, with all that others did meanwhile, and between two actions nothing changes.
use mintzy_plugin_kelly_opt.Base.{ℕ, Bool, Call, List}
use mintzy_plugin_kelly_opt.Base.Text.{Text}
use mintzy_plugin_kelly_opt.Redis.{Redis, SessionMeta}

-- The outcomes of `os.kill`: sent, ProcessLookupError, PermissionError.
pub data Signalled : Type 0 where
  delivered no_such_process not_permitted : Signalled

-- How `psutil.Process(pid).wait(timeout)` ends: the process has exited, psutil is not installed,
-- TimeoutExpired, NoSuchProcess, another exception.
pub data PsutilWait : Type 0 where
  exited not_installed timeout_expired gone failed : PsutilWait

-- A child process is named by its pid. Times are milliseconds.
pub record Machine : Type 1 where
  pub redis : Redis
  -- `time.time()` and `time.sleep`.
  pub now : redis.Store → ℕ
  pub sleep : ℕ → redis.Store → redis.Store
  -- `os.kill(pid, 0)`, and `os.kill` with SIGKILL and SIGTERM.
  pub probe : ℕ → redis.Store → Signalled
  pub sigkill : ℕ → redis.Store → Signalled × redis.Store
  pub sigterm : ℕ → redis.Store → Signalled × redis.Store
  -- `process.is_alive()`, `stop_event.set()`, `process.join(timeout)`, `process.terminate()` and
  -- `process.kill()` of a child.
  pub is_alive : ℕ → redis.Store → Bool
  pub set_stop_event : ℕ → redis.Store → redis.Store
  pub join : ℕ → ℕ → redis.Store → redis.Store
  pub terminate : ℕ → redis.Store → redis.Store
  pub kill : ℕ → redis.Store → redis.Store
  pub psutil_wait : ℕ → ℕ → redis.Store → PsutilWait × redis.Store
  -- A pipeline of `setex` commands that is executed as one.
  pub pipe_setex : List (Text × ℕ × Text) → redis.Store → Call (Unit {0}) × redis.Store
  -- `json.loads` and `json.dumps` of a session's meta document, `int(s)` and `str(n)`.
  pub json_loads : Text → Call SessionMeta
  pub json_dumps : SessionMeta → Text
  pub parse_int : Text → Call ℕ
  pub show_int : ℕ → Text
