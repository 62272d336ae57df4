-- ===== src/Examples/Session.antt =====
-- Examples for the session side: symbols, ledger, exit plan and end-of-day guard.
use mintzy_plugin_kelly_opt.Base.{
  ℕ, ◌≤◌, ◌≡◌, refl, ◌≢◌, true, false, none, some, List, [], ◌∷◌, All, Call, returned, raised,
  get_or, arith, if◌then◌else◌,
}
use mintzy_plugin_kelly_opt.Base.Int.{ℤ, pos, negsuc, ◌+ℤ◌, neg}
use mintzy_plugin_kelly_opt.Base.Text.{Text, codes, text_eq, upper, lower, strip, drop_eq_suffix}
use mintzy_plugin_kelly_opt.Base.Dict.{Dict, lookup, insert, values, contains}
use mintzy_plugin_kelly_opt.Base.SymbolSet.{of_list, union, add, member, text_lt}
use mintzy_plugin_kelly_opt.Redis.{Redis, SessionMeta}
use mintzy_plugin_kelly_opt.RedisKeys.{
  session_cleanup_keys, session_meta_key, session_symbols_traded_key,
}
use mintzy_plugin_kelly_opt.RedisKeys.Distinct.{control_keys, cleanup_spares_control}
use mintzy_plugin_kelly_opt.Symbols.{
  Environ, BrokerPosition, normalize_symbol, is_enabled, exit_only_session_symbols_enabled,
  normalized_set, merge_symbol_fallbacks, symbols_traded_from_redis, meta_symbols, choose_symbols,
  get_session_symbols_from_redis,
}
use mintzy_plugin_kelly_opt.Symbols.AllowList.{allow_list_scope}
use mintzy_plugin_kelly_opt.Ledger.{
  Trader, buy, sell, eod_use_session_ledger_enabled, get_session_ledger, ledger_has_open_positions,
  entry, signed_fill_delta, get_trader_session_id,
}
use mintzy_plugin_kelly_opt.Ledger.Tracking.{
  Fill, apply_fills, HasLedger, IsTidy, ledger_tracks_fills, listed_iff_open,
}
use mintzy_plugin_kelly_opt.ExitPlan.{
  build_eod_exit_plan, broker_positions_to_map, effective_allow_list, open_symbols,
}
use mintzy_plugin_kelly_opt.ExitPlan.Quantities.{planned, IsSafe}
use mintzy_plugin_kelly_opt.ExitPlan.Build.{build_exact, build-IsSafe}
use mintzy_plugin_kelly_opt.EodExit.{try_begin_eod_exit}
use mintzy_plugin_kelly_opt.EodExit.Exclusion.{
  World, Reach, here, next, enter, fresh, at_most_one_runs,
}

-- A Redis that holds its keys in memory and never fails; nothing expires in it.
record Memory : Type 0 where
  strings : Dict Text
  sets : Dict (List Text)

without : List Text → Dict Text → Dict Text
without ks [] = []
without ks ((j, v) ∷ d) = let rest = without ks d in if member j ks then rest else (j, v) ∷ rest

abbrev memory : Redis
memory = record {
  Store = Memory;
  get = λ k s. returned (lookup k s.strings);
  smembers = λ k s. returned (get_or (lookup k s.sets) []);
  setex = λ k ttl v s. (returned tt, record s { strings = insert k v s.strings });
  delete = λ ks s. (returned tt, record s { strings = without ks s.strings });
  sadd = λ k m s.
      (returned tt, record s { sets = insert k (add m (get_or (lookup k s.sets) [])) s.sets });
  expire = λ k ttl s. (returned tt, s);
}

abbrev pub no_meta : Text → Call SessionMeta
no_meta raw = raised

abbrev store : Memory
store = record { strings = []; sets = [] }

-- No variable is set, so both switches are on.
abbrev pub environ : Environ
environ name = none

pub environ_scoped : exit_only_session_symbols_enabled environ ≡ true
unfolding exit_only_session_symbols_enabled is_enabled lower text_eq
environ_scoped = refl

pub environ_by_ledger : eod_use_session_ledger_enabled environ ≡ true
unfolding eod_use_session_ledger_enabled is_enabled lower text_eq
environ_by_ledger = refl

abbrev ledger : Dict ℤ
ledger = (codes "RELIANCE", pos 100) ∷ (codes "TCS", negsuc 49) ∷ (codes "INFY", pos 20) ∷ []

abbrev trader : Trader
trader = record {
  ui_session_id = some (codes "s1");
  session_id = none;
  has_lock = true;
  open_qty = some ledger;
}

-- The broker holds less of RELIANCE, more of TCS, INFY on the other side, and a manual position.
abbrev positions : List (BrokerPosition ℕ)
positions =
    record { symbol = codes "RELIANCE-EQ"; side = some buy; qty = pos 70; ltp = some 250000 }
    ∷ record { symbol = codes "TCS"; side = some sell; qty = pos 80; ltp = none }
    ∷ record { symbol = codes "INFY"; side = some sell; qty = pos 5; ltp = none }
    ∷ record { symbol = codes "HDFC"; side = none; qty = pos 10; ltp = none }
    ∷ []

normalize_reliance : normalize_symbol (codes " reliance-EQ") ≡ codes "RELIANCE"
unfolding normalize_symbol strip upper drop_eq_suffix
normalize_reliance = refl

-- The symbol map is not idempotent: a suffix can come together from the pieces around another.
normalize_not_idempotent :
    normalize_symbol (normalize_symbol (codes "A--EQEQ")) ≢ normalize_symbol (codes "A--EQEQ")
unfolding normalize_symbol strip upper drop_eq_suffix
normalize_not_idempotent e = cc e

build_exact_example :
    planned
      (codes "TCS")
      (build_eod_exit_plan memory no_meta environ trader (some store) positions []).0
    ≡ 50
unfolding effective_allow_list get_session_symbols_from_redis get_trader_session_id
    get_session_ledger merge_symbol_fallbacks choose_symbols meta_symbols symbols_traded_from_redis
    normalized_set normalize_symbol strip upper drop_eq_suffix open_symbols of_list union add
    text_eq text_lt member lookup broker_positions_to_map insert ledger_has_open_positions values
build_exact_example =
    build_exact memory no_meta environ trader (some store) positions [] environ_scoped
      environ_by_ledger (codes "TCS")

build-IsSafe_example :
    All
      (IsSafe (get_session_ledger trader) (broker_positions_to_map positions))
      (build_eod_exit_plan memory no_meta environ trader (some store) positions []).0
build-IsSafe_example =
    build-IsSafe memory no_meta environ trader (some store) positions [] environ_scoped
      environ_by_ledger

ledger_there : HasLedger environ trader ledger
ledger_there = record { enabled = environ_by_ledger; locked = refl; there = refl }

-- A flip of RELIANCE, a full exit of INFY by its action alone, and a fill of no known side.
abbrev fills : List Fill
fills =
    record {
      symbol = codes "reliance";
      qty = pos 200;
      action_type = codes "FLIP_TO_SHORT";
      side = sell;
    }
    ∷ record { symbol = codes "INFY-EQ"; qty = pos 20; action_type = codes "EXIT_LONG"; side = [] }
    ∷ record { symbol = codes "TCS"; qty = pos 9; action_type = codes "STOP_LOSS"; side = [] }
    ∷ []

ledger_tracks_fills_example :
    entry
      (codes "RELIANCE")
      (get_session_ledger (apply_fills memory environ (trader, some store) fills).0)
    ≡ negsuc 99
unfolding get_session_ledger lookup text_eq normalize_symbol strip upper drop_eq_suffix
    signed_fill_delta member ◌+ℤ◌ neg
ledger_tracks_fills_example =
    ledger_tracks_fills memory environ trader (some store) ledger fills (codes "RELIANCE")
      ledger_there

ledger-IsTidy : IsTidy ledger
unfolding lookup text_eq
ledger-IsTidy = record { unique = (refl, (refl, (refl, tt))); nonzero = λ k q e. ground arith }

listed_iff_open_example :
    contains
      (codes "INFY")
      (get_session_ledger (apply_fills memory environ (trader, some store) fills).0)
    ≡ false
unfolding get_session_ledger lookup text_eq normalize_symbol strip upper drop_eq_suffix
    signed_fill_delta member ◌+ℤ◌ neg
listed_iff_open_example =
    listed_iff_open memory environ trader (some store) ledger fills (codes "INFY") ledger_there
      ledger-IsTidy

-- The flag and the stop job survive the teardown of their own session.
cleanup_spares_control_example :
    All
      (λ k. member k (session_cleanup_keys (codes "s1")) ≡ false)
      (control_keys (codes "s1") (codes "TCS"))
cleanup_spares_control_example = cleanup_spares_control (codes "s1") (codes "s1") (codes "TCS")

-- A meta document that names INFY: TCS, from the ledger, is not allowed then.
abbrev named_meta : Text → Call SessionMeta
named_meta raw = returned (record {
  strategy = some (codes "C");
  pid = some 41;
  started_at = some 0;
  symbols = some (codes "infy" ∷ []);
  reserved = false;
})

abbrev store_with_meta : Memory
store_with_meta = record {
  strings = (codes "autotrader:session:s1:meta", codes "{}") ∷ [];
  sets = [];
}

allow_list_scope_example :
    member (codes "TCS") (
      get_session_symbols_from_redis memory named_meta
        (some store_with_meta)
        (some (codes "s1"))
        []
        (codes "TCS" ∷ []))
    ≡ false
unfolding meta_symbols symbols_traded_from_redis session_meta_key session_symbols_traded_key lookup
    text_eq merge_symbol_fallbacks normalized_set normalize_symbol strip upper drop_eq_suffix
    of_list union add text_lt member
allow_list_scope_example =
    allow_list_scope memory named_meta store_with_meta 115 (codes "1") (codes "TCS") []
      (codes "TCS" ∷ [])

-- One caller runs the exit to its end.
abbrev after_enter : World
after_enter = record {
  guard = record { exit_done = some false; in_progress = some true };
  running = 1;
}

Reach-enter : Reach fresh after_enter
unfolding try_begin_eod_exit
Reach-enter = next here (enter refl)

at_most_one_runs_example : after_enter.running ≤ 1
at_most_one_runs_example = at_most_one_runs Reach-enter
