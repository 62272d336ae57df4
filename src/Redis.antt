-- ===== src/Redis.antt =====
-- The Redis client and the JSON of the session documents, as the program uses them. Both come from
-- outside the repository: the client is an interface, and so are `json.loads` and `json.dumps`.
use mintzy_plugin_kelly_opt.Base.{ℕ, Bool, List, Option, Call}
use mintzy_plugin_kelly_opt.Base.Text.{Text}

-- The document under a session's meta key. A field is `none` where the key is missing
-- or null; `reserved` tells whether that key is there.
pub record SessionMeta : Type 0 where
  pub strategy : Option Text
  pub pid : Option ℕ
  pub started_at : Option ℕ
  pub symbols : Option (List Text)
  pub reserved : Bool

-- The calls that the program makes of a client. A read does not change the store; a write returns
-- the store as it leaves it, also when it raises.
pub record Redis : Type 1 where
  pub Store : Type 0
  pub get : Text → Store → Call (Option Text)
  pub smembers : Text → Store → Call (List Text)
  pub setex : Text → ℕ → Text → Store → Call (Unit {0}) × Store
  pub delete : List Text → Store → Call (Unit {0}) × Store
  pub sadd : Text → Text → Store → Call (Unit {0}) × Store
  pub expire : Text → ℕ → Store → Call (Unit {0}) × Store
