-- ===== src/RedisKeys.antt =====
-- The Redis key builders of utils/redis_keys.py.
pub mod Distinct
use mintzy_plugin_kelly_opt.Base.{List, [], ◌∷◌, ◌++◌}
use mintzy_plugin_kelly_opt.Base.Text.{Text, codes, upper, drop_eq_suffix, strip}

abbrev pub session_prefix : Text
session_prefix = codes "autotrader:session:"

abbrev pub session_meta_suffix : Text
session_meta_suffix = codes ":meta"

abbrev pub session_order_ids_suffix : Text
session_order_ids_suffix = codes ":order_ids"

abbrev pub session_symbols_traded_suffix : Text
session_symbols_traded_suffix = codes ":symbols_traded"

-- `SESSION_REDIS_TTL`, in seconds.
abbrev pub session_redis_ttl : Prim.Native.Nat.ℕ
session_redis_ttl = 86400

unfoldable pub session_pid_key : Text → Text
session_pid_key session_id = session_prefix ++ session_id

unfoldable pub session_meta_key : Text → Text
session_meta_key session_id = session_prefix ++ (session_id ++ session_meta_suffix)

unfoldable pub session_order_ids_key : Text → Text
session_order_ids_key session_id = session_prefix ++ (session_id ++ session_order_ids_suffix)

unfoldable pub session_symbols_traded_key : Text → Text
session_symbols_traded_key session_id =
    session_prefix ++ (session_id ++ session_symbols_traded_suffix)

unfoldable pub simulation_stop_key : Text → Text
simulation_stop_key session_id = codes "autotrader:simulation_stop:" ++ session_id

unfoldable pub pyramid_result_key : Text → Text
pyramid_result_key session_id = codes "autotrader:pyramid_result:" ++ session_id

unfoldable pub stop_job_key : Text → Text
stop_job_key session_id = codes "autotrader:stop_job:" ++ session_id

unfoldable pub exit_request_key : Text → Text
exit_request_key session_id = codes "autotrader:exit_request:" ++ session_id

unfoldable pub exit_result_key : Text → Text → Text
exit_result_key session_id symbol =
    let sym = strip (drop_eq_suffix (upper symbol)) in
    codes "autotrader:exit_result:" ++ (session_id ++ (codes ":" ++ sym))

unfoldable pub exit_status_key : Text → Text
exit_status_key session_id = codes "autotrader:exit_status:" ++ session_id

unfoldable pub rms_exited_key : Text → Text
rms_exited_key session_id = codes "autotrader:rms_exited:" ++ session_id

unfoldable pub live_pnl_key : Text → Text
live_pnl_key session_id = codes "live_pnl:" ++ session_id

-- The keys that a session's teardown deletes.
unfoldable pub session_cleanup_keys : Text → List Text
unfolding session_pid_key session_meta_key session_order_ids_key session_symbols_traded_key
session_cleanup_keys session_id =
    session_pid_key session_id
    ∷ session_meta_key session_id
    ∷ session_order_ids_key session_id
    ∷ session_symbols_traded_key session_id
    ∷ []
