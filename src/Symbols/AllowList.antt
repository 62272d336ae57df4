-- ===== src/Symbols/AllowList.antt =====
-- What the allow-list of utils/session_symbols.py holds, for every outcome of the Redis reads.
use mintzy_plugin_kelly_opt.Base.{
  ℕ, ◌≡◌, refl, ◌∙◌, Bool, false, ◌&&◌, ◌||◌, not, Option, none, some, List, [], ◌∷◌, map, keep,
  any, arith, is_empty, get_or, Call, returned, raised, if◌then◌else◌, Call-cases, inl, inr,
}
use mintzy_plugin_kelly_opt.Base.Text.{Text, text_eq}
use mintzy_plugin_kelly_opt.Base.SymbolSet.{
  of_list, union, add, member, member-of_list, member-union,
}
use mintzy_plugin_kelly_opt.Redis.{Redis, SessionMeta}
use mintzy_plugin_kelly_opt.RedisKeys.{session_meta_key, session_symbols_traded_key}
use mintzy_plugin_kelly_opt.Symbols.{
  normalize_symbol, normalized_set, merge_symbol_fallbacks, symbols_traded_from_redis, meta_symbols,
  choose_symbols, get_session_symbols_from_redis,
}

-- A list names a symbol: one of its texts that are not empty has it as its normal form.
abbrev pub names : Text → List Text → Bool
names y [] = false
names y (s ∷ xs) = (not (is_empty s) && text_eq (normalize_symbol s) y) || names y xs

-- A list names any symbol.
abbrev pub names_any : List Text → Bool
names_any xs = any (λ s. not (is_empty s)) xs

-- What the keys of the traded symbols hold.
abbrev pub read_members : Call (List Text) → List Text
read_members raised = []
read_members (returned members) = members

-- What the key of the meta document holds, read as a document.
abbrev pub read_meta : (Text → Call SessionMeta) → Call (Option Text) → List Text
read_meta json_loads raised = []
read_meta json_loads (returned none) = []
read_meta json_loads (returned (some [])) = []
read_meta json_loads (returned (some (c ∷ raw))) = elim (json_loads (c ∷ raw)) [
  | raised ↦ []
  | returned meta ↦ get_or meta.symbols []
]

member-map :
    (y : Text) (xs : List Text)
    → member y (map normalize_symbol (keep (λ s. not (is_empty s)) xs)) ≡ names y xs
unfolding member
member-map y [] = refl
member-map y ([] ∷ xs) = member-map y xs
member-map y ((c ∷ s) ∷ xs) = ground (arith, member-map y xs)

member-normalized_set : (y : Text) (xs : List Text) → member y (normalized_set xs) ≡ names y xs
unfolding normalized_set
member-normalized_set y xs =
    member-of_list y (map normalize_symbol (keep (λ s. not (is_empty s)) xs)) ∙ member-map y xs

is_empty-add : (x : Text) (s : List Text) → is_empty (add x s) ≡ false
unfolding add
is_empty-add x [] = refl
is_empty-add x (y ∷ s) = ground arith

is_empty-normalized_set : (xs : List Text) → is_empty (normalized_set xs) ≡ not (names_any xs)
unfolding normalized_set of_list
is_empty-normalized_set [] = refl
is_empty-normalized_set ([] ∷ xs) = is_empty-normalized_set xs
is_empty-normalized_set ((c ∷ s) ∷ xs) = is_empty-add _ _

or_fallback :
    (y : Text) (m f : List Text) (b : Bool)
    → member y m ≡ (b || member y f)
    → member y (if is_empty m then f else m) ≡ (b || member y f)
unfolding member
or_fallback y [] f b h = ground arith
or_fallback y (x ∷ m) f b h = h

-- The set that a reading of the meta document gives, empty where it fails.
abbrev or_none : Call (List Text) → List Text
or_none raised = []
or_none (returned names) = names

choose_symbols_lem :
    (y : Text) (meta : Call (List Text)) (fallback traded : List Text)
    → member y (choose_symbols meta fallback traded) ≡ (
        member y traded
        || (if is_empty (or_none meta) then member y fallback else member y (or_none meta)))
unfolding choose_symbols
choose_symbols_lem y raised fallback traded =
    or_fallback y (union traded fallback) fallback (member y traded)
      (member-union y traded fallback)
choose_symbols_lem y (returned []) fallback traded =
    or_fallback y (union traded fallback) fallback (member y traded)
      (member-union y traded fallback)
choose_symbols_lem y (returned (s ∷ names)) fallback traded = member-union y traded (s ∷ names)

module _ (R : Redis) (json_loads : Text → Call SessionMeta) where
  open R use {Store, get, smembers}

  member-traded :
      (client : Store) (sid y : Text)
      → member y (symbols_traded_from_redis R json_loads (some client) sid)
        ≡ names y (read_members (smembers (session_symbols_traded_key sid) client))
  unfolding symbols_traded_from_redis member
  member-traded client sid y =
      elim (Call-cases (smembers (session_symbols_traded_key sid) client)) [
        | inl q ↦ ground arith
        | inr (members, q) ↦ ground (arith, member-normalized_set y members)
      ]

  or_none-meta :
      (client : Store) (sid : Text)
      → or_none (meta_symbols R json_loads client sid)
        ≡ normalized_set (read_meta json_loads (get (session_meta_key sid) client))
  unfolding meta_symbols normalized_set of_list
  or_none-meta client sid = elim (Call-cases (get (session_meta_key sid) client)) [
    | inl q ↦ rw (q, meta_symbols) refl
    | inr (none, q) ↦ rw (q, meta_symbols) refl
    | inr (some [], q) ↦ rw (q, meta_symbols) refl
    | inr (some (c ∷ raw), q) ↦ elim (Call-cases (json_loads (c ∷ raw))) [
      | inl e ↦ rw (q, meta_symbols, read_meta, e) refl
      | inr (meta, e) ↦ rw (q, meta_symbols, read_meta, e) refl
    ]
  ]

  member-fallbacks :
      (y : Text) (fallback ledger : List Text)
      → member y (merge_symbol_fallbacks fallback ledger) ≡ (names y ledger || names y fallback)
  unfolding merge_symbol_fallbacks
  member-fallbacks y fallback ledger = ground (
    arith,
    member-union y (normalized_set ledger) (normalized_set fallback),
    member-normalized_set y ledger,
    member-normalized_set y fallback,
  )

  -- With a client and a session id, a symbol is allowed exactly if the set of traded symbols that
  -- Redis returns names it, or the meta document names it; where the document cannot be read or
  -- names no symbol, the session's ledger and the fallback take its place.
  pub allow_list_scope :
      (client : Store) (c : ℕ) (sid y : Text) (fallback ledger : List Text)
      → let documented = read_meta json_loads (get (session_meta_key (c ∷ sid)) client) in
        member y (
          get_session_symbols_from_redis R json_loads
            (some client)
            (some (c ∷ sid))
            fallback
            ledger)
        ≡ (names y (read_members (smembers (session_symbols_traded_key (c ∷ sid)) client))
            || (if names_any documented
                then names y documented
                else names y ledger || names y fallback))
  unfolding get_session_symbols_from_redis
  allow_list_scope client c sid y fallback ledger =
      let documented = read_meta json_loads (get (session_meta_key (c ∷ sid)) client) in
      ground (
        arith,
        choose_symbols_lem y (meta_symbols R json_loads client (c ∷ sid))
            (merge_symbol_fallbacks fallback ledger)
            (symbols_traded_from_redis R json_loads (some client) (c ∷ sid)),
        member-traded client (c ∷ sid) y,
        or_none-meta client (c ∷ sid),
        is_empty-normalized_set documented,
        member-normalized_set y documented,
        member-fallbacks y fallback ledger,
      )
