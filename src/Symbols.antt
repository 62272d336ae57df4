-- ===== src/Symbols.antt =====
-- utils/session_symbols.py: which symbols belong to a session, and the broker positions among them.
pub mod AllowList
use mintzy_plugin_kelly_opt.Base.{
  ℕ, Bool, true, false, ◌||◌, not, Option, none, some, List, [], ◌∷◌, map, keep, is_empty, get_or,
  Call, returned, raised, if◌then◌else◌,
}
use mintzy_plugin_kelly_opt.Base.Int.{ℤ}
use mintzy_plugin_kelly_opt.Base.Text.{Text, codes, text_eq, upper, lower, drop_eq_suffix, strip}
use mintzy_plugin_kelly_opt.Base.SymbolSet.{of_list, union, member}
use mintzy_plugin_kelly_opt.RedisKeys.{session_meta_key, session_symbols_traded_key}
use mintzy_plugin_kelly_opt.Redis.{Redis, SessionMeta}

-- The environment: `os.environ.get(name)`.
abbrev pub Environ : Type 0
Environ = Text → Option Text

-- A row of the broker's position list. A missing or None symbol is the empty text, and a missing
-- or None quantity is 0, as every reader of a row takes them. Prices are only copied; a missing one stands for 0.
pub record BrokerPosition (F : Type 0) : Type 0 where
  pub symbol : Text
  pub side : Option Text
  pub qty : ℤ
  pub ltp : Option F

unfoldable pub normalize_symbol : Text → Text
normalize_symbol sym = strip (drop_eq_suffix (upper sym))

-- The values that switch a flag on.
unfoldable pub is_enabled : Option Text → Bool
is_enabled value =
    let v = lower (get_or value (codes "true")) in
    text_eq v (codes "1") || (text_eq v (codes "true") || text_eq v (codes "yes"))

unfoldable pub exit_only_session_symbols_enabled : Environ → Bool
exit_only_session_symbols_enabled environ = is_enabled (environ (codes "EXIT_ONLY_SESSION_SYMBOLS"))

-- `{normalize_symbol(s) for s in xs if s}`
unfoldable pub normalized_set : List Text → List Text
normalized_set xs = of_list (map normalize_symbol (keep (λ s. not (is_empty s)) xs))

unfoldable pub merge_symbol_fallbacks : List Text → List Text → List Text
merge_symbol_fallbacks fallback_symbols ledger_symbols =
    union (normalized_set ledger_symbols) (normalized_set fallback_symbols)

-- A session id that is missing or empty is falsy.
abbrev pub present : Option Text → Option Text
present none = none
present (some []) = none
present (some (c ∷ s)) = some (c ∷ s)

-- The choice between the meta document's symbols and the fallbacks.
unfoldable pub choose_symbols : Call (List Text) → List Text → List Text → List Text
choose_symbols meta fallback traded =
    let merged_with_traded = union traded fallback in
    let otherwise = if is_empty merged_with_traded then fallback else merged_with_traded in
    elim meta [
      | raised ↦ otherwise
      | returned [] ↦ otherwise
      | returned (s ∷ normalized) ↦ union traded (s ∷ normalized)
    ]

module _ (R : Redis) (json_loads : Text → Call SessionMeta) where
  open R use {Store, get, smembers}

  unfoldable pub symbols_traded_from_redis : Option Store → Text → List Text
  symbols_traded_from_redis none session_id = []
  symbols_traded_from_redis (some client) session_id =
      elim (smembers (session_symbols_traded_key session_id) client) [
        | returned members ↦ normalized_set members
        | raised ↦ []
      ]

  -- The symbols that the session's meta document names: `raised` where the read or the JSON fails,
  -- and the empty set where the document is missing or has none.
  unfoldable pub meta_symbols : Store → Text → Call (List Text)
  meta_symbols client session_id = elim (get (session_meta_key session_id) client) [
    | raised ↦ raised
    | returned none ↦ returned []
    | returned (some []) ↦ returned []
    | returned (some (c ∷ raw)) ↦ elim (json_loads (c ∷ raw)) [
      | raised ↦ raised
      | returned meta ↦ returned (normalized_set (get_or meta.symbols []))
    ]
  ]

  unfoldable pub get_session_symbols_from_redis :
      Option Store → Option Text → List Text → List Text → List Text
  get_session_symbols_from_redis redis_client session_id fallback_symbols ledger_symbols =
      let fallback = merge_symbol_fallbacks fallback_symbols ledger_symbols in
      elim (present session_id) [
        | none ↦ fallback
        | some sid ↦ elim redis_client [
          | none ↦ fallback
          | some client ↦
              choose_symbols (meta_symbols client sid) fallback
                (symbols_traded_from_redis (some client) sid)
        ]
      ]

  unfoldable pub filter_broker_positions_for_session :
      {F : Type 0}
      → Environ
      → List (BrokerPosition F)
      → Option Text
      → Option Store
      → List Text
      → List (BrokerPosition F)
  filter_broker_positions_for_session environ broker_positions session_id redis_client fallback =
      if not (exit_only_session_symbols_enabled environ)
      then broker_positions
      else let allowed = get_session_symbols_from_redis redis_client session_id fallback [] in
        if is_empty allowed
        then []
        else keep (λ p. member (normalize_symbol p.symbol) allowed) broker_positions
