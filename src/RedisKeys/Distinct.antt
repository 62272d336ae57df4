-- ===== src/RedisKeys/Distinct.antt =====
-- Which keys of utils/redis_keys.py can meet: those that a teardown deletes, across sessions and
-- against the control keys that must outlive it.
use mintzy_plugin_kelly_opt.Base.{
  ◌≡◌, refl, sym, subst, ◌≢◌, true, false, ◌||◌, List, [], ◌∷◌, ◌++◌, arith, All, Bool-cases, inl,
  inr,
}
use mintzy_plugin_kelly_opt.Base.Text.{Text, text_eq}
use mintzy_plugin_kelly_opt.Base.SymbolSet.{member}
use mathlib.Core.List.{append-nil}
use mintzy_plugin_kelly_opt.RedisKeys.{
  session_meta_suffix, session_order_ids_suffix, session_symbols_traded_suffix, session_pid_key,
  session_meta_key, session_cleanup_keys, simulation_stop_key, pyramid_result_key, stop_job_key,
  exit_request_key, exit_result_key, exit_status_key, rms_exited_key, live_pnl_key,
}

-- A session id without a colon, as the program's generated ids are.
abbrev pub HasNoColon : Text → Type 0
HasNoColon = All (λ c. c ≢ 58)

-- What follows a session id in a key: nothing, or a colon and more.
abbrev IsTail : Text → Type 0
IsTail [] = Unit
IsTail (c ∷ u) = c ≡ 58

split_at_colon :
    (s t u v : Text)
    → HasNoColon s
    → HasNoColon t
    → IsTail u
    → IsTail v
    → text_eq (s ++ u) (t ++ v) ≡ true
    → s ≡ t
unfolding text_eq
split_at_colon [] [] u v hs ht hu hv e = refl
split_at_colon [] (y ∷ t) [] v hs ht hu hv e = ground arith
split_at_colon [] (y ∷ t) (c ∷ u) v hs ht hu hv e = ground arith
split_at_colon (x ∷ s) [] u [] hs ht hu hv e = ground arith
split_at_colon (x ∷ s) [] u (d ∷ v) hs ht hu hv e = ground arith
split_at_colon (x ∷ s) (y ∷ t) u v hs ht hu hv e =
    ground (arith, split_at_colon s t u v hs.1 ht.1 hu hv)

differ :
    (s t u v : Text)
    → HasNoColon s
    → HasNoColon t
    → IsTail u
    → IsTail v
    → s ≢ t
    → text_eq (s ++ u) (t ++ v) ≡ false
differ s t u v hs ht hu hv ne = elim (Bool-cases (text_eq (s ++ u) (t ++ v))) [
  | inl e ↦ absurd (ne (split_at_colon s t u v hs ht hu hv e))
  | inr e ↦ e
]

-- The control keys that must outlive a teardown: the stop flag, the handoff, the stop job, the
-- exit queue, result and status, the risk exits and the live figures.
abbrev pub control_keys : Text → Text → List Text
control_keys t symbol =
    simulation_stop_key t
    ∷ pyramid_result_key t
    ∷ stop_job_key t
    ∷ exit_request_key t
    ∷ exit_result_key t symbol
    ∷ exit_status_key t
    ∷ rms_exited_key t
    ∷ live_pnl_key t
    ∷ []

-- The teardown of a session deletes no control key (stop flag, handoff, stop job, exit queue,
-- result and status, risk exits, live figures) of that session or another.
pub cleanup_spares_control :
    (s t symbol : Text)
    → All (λ k. member k (session_cleanup_keys s) ≡ false) (control_keys t symbol)
unfolding session_cleanup_keys simulation_stop_key pyramid_result_key stop_job_key exit_request_key
    exit_result_key exit_status_key rms_exited_key live_pnl_key member text_eq
cleanup_spares_control s t symbol =
    (refl, (refl, (refl, (refl, (refl, (refl, (refl, (refl, tt))))))))

-- One session's keys against a text that holds another session's id.
spares_one :
    (s t u k : Text)
    → HasNoColon s
    → HasNoColon t
    → IsTail u
    → s ≢ t
    → k ≡ s ++ u
    → (text_eq t k
        || (text_eq (t ++ session_meta_suffix) k
            || (text_eq (t ++ session_order_ids_suffix) k
                || (text_eq (t ++ session_symbols_traded_suffix) k || false))))
      ≡ false
spares_one s t u k hs ht hu ne e =
    let apart = λ (v : Text) (hv : IsTail v).
      subst (λ r. text_eq (t ++ v) r ≡ false) (sym e)
        (differ t s v u ht hs hv hu (λ same. ne (sym same))) in
    ground (
      arith,
      subst (λ r. text_eq r k ≡ false) (append-nil t) (apart [] tt),
      apart session_meta_suffix refl,
      apart session_order_ids_suffix refl,
      apart session_symbols_traded_suffix refl,
    )

-- For two different session ids without a colon, none of the keys of the one is among those that
-- the teardown of the other deletes.
cleanup_spares_others :
    (s t : Text)
    → HasNoColon s
    → HasNoColon t
    → s ≢ t
    → All (λ k. member k (session_cleanup_keys t) ≡ false) (session_cleanup_keys s)
unfolding session_cleanup_keys member text_eq
cleanup_spares_others s t hs ht ne =
    let clear = λ (u k : Text) (hu : IsTail u) (e : k ≡ s ++ u). spares_one s t u k hs ht hu ne e in
    (
      clear [] s tt (sym (append-nil s)),
      (
        clear session_meta_suffix (s ++ session_meta_suffix) refl refl,
        (
          clear session_order_ids_suffix (s ++ session_order_ids_suffix) refl refl,
          (clear session_symbols_traded_suffix (s ++ session_symbols_traded_suffix) refl refl, tt),
        ),
      ),
    )

-- The colon matters: a session whose id ends in ":meta" has its process id stored under the meta key
-- of another session, for every such other session.
pub pid_key-meta_key : (s : Text) → session_pid_key (s ++ session_meta_suffix) ≡ session_meta_key s
unfolding session_pid_key session_meta_key
pid_key-meta_key s = refl
