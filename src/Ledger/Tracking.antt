-- ===== src/Ledger/Tracking.antt =====
-- The ledger of utils/session_ledger.py follows the fills: each symbol's entry is the signed sum of
-- its fills, and no flat symbol keeps an entry.
use mintzy_plugin_kelly_opt.Base.{
  ◌≡◌, refl, sym as p_sym, ◌∙◌, ap, true, false, ◌&&◌, ◌||◌, not, Option, none, some, List, [], ◌∷◌,
  arith, is_empty, get_or, if◌then◌else◌, Bool-cases, Option-cases, inl, inr,
}
use mintzy_plugin_kelly_opt.Base.Int.{
  ℤ, pos, pos_part, ◌+ℤ◌, is_zero, is_pos, +ℤ_assoc, +ℤ-zero, is_zero-eq,
}
use mintzy_plugin_kelly_opt.Base.Text.{Text, text_eq, text_eq_iff}
use mintzy_plugin_kelly_opt.Base.Dict.{
  Dict, contains, lookup, lookup-insert, lookup-pop, HasUniqueKeys, insert-HasUniqueKeys,
  pop-HasUniqueKeys,
}
use mintzy_plugin_kelly_opt.Redis.{Redis}
use mintzy_plugin_kelly_opt.Symbols.{Environ, normalize_symbol}
use mintzy_plugin_kelly_opt.Ledger.{
  Trader, eod_use_session_ledger_enabled, get_session_ledger, store_qty, signed_fill_delta,
  compute_ledger_qty_after_fill, entry, post_fill, apply_fill_to_session_ledger,
}

-- One confirmed fill, as the engine reports it.
pub record Fill : Type 0 where
  pub symbol : Text
  pub qty : ℤ
  pub action_type : Text
  pub side : Text

-- What a fill adds to the position of symbol `k`.
abbrev pub effect : Text → Fill → ℤ
effect k f =
    if text_eq (normalize_symbol f.symbol) k && (not (is_empty k) && is_pos f.qty)
    then get_or (signed_fill_delta (pos_part f.qty) f.side f.action_type) (pos 0)
    else pos 0

-- What a run of fills adds to it.
abbrev pub net_effect : Text → List Fill → ℤ
net_effect k [] = pos 0
net_effect k (f ∷ fs) = effect k f +ℤ net_effect k fs

pub entry-store_qty :
    (k sym : Text) (v : ℤ) (ledger : Dict ℤ)
    → entry k (store_qty sym v ledger) ≡ (if text_eq sym k then v else entry k ledger)
unfolding store_qty
entry-store_qty k sym v ledger =
    ground (arith, lookup-pop sym k ledger, lookup-insert sym k v ledger, is_zero-eq v)

-- The ledger with a change of a symbol's quantity, where the change is known.
abbrev shifted : Option ℤ → Text → Dict ℤ → Option (Dict ℤ)
shifted none sym ledger = none
shifted (some delta) sym ledger = some (store_qty sym (entry sym ledger +ℤ delta) ledger)

post_fill-shifted :
    (ledger : Dict ℤ) (sym action side : Text) (qty : ℤ)
    → is_pos qty ≡ true
    → post_fill ledger sym qty action side
      ≡ shifted (signed_fill_delta (pos_part qty) side action) sym ledger
unfolding post_fill compute_ledger_qty_after_fill
post_fill-shifted ledger sym action side qty h =
    ground (arith, Option-cases (signed_fill_delta (pos_part qty) side action))

entry-shifted :
    (k sym : Text) (delta : Option ℤ) (ledger : Dict ℤ)
    → entry k (get_or (shifted delta sym ledger) ledger)
      ≡ entry k ledger +ℤ (if text_eq sym k then get_or delta (pos 0) else pos 0)
entry-shifted k sym none ledger = ground (arith, +ℤ-zero (entry k ledger))
entry-shifted k sym (some delta) ledger = ground (
  arith,
  entry-store_qty k sym (entry sym ledger +ℤ delta) ledger,
  +ℤ-zero (entry k ledger),
  text_eq_iff sym k,
)

-- A ledger after one fill.
abbrev step : Dict ℤ → Fill → Dict ℤ
step ledger f =
    let sym = normalize_symbol f.symbol in
    if is_empty sym || not (is_pos f.qty)
    then ledger
    else get_or (post_fill ledger sym f.qty f.action_type f.side) ledger

entry-step :
    (k : Text) (ledger : Dict ℤ) (f : Fill) → entry k (step ledger f) ≡ entry k ledger +ℤ effect k f
entry-step k ledger f =
    let sym = normalize_symbol f.symbol in
    let delta = signed_fill_delta (pos_part f.qty) f.side f.action_type in
    elim (Bool-cases (is_empty sym || not (is_pos f.qty))) [
      | inl skipped ↦ ground (arith, +ℤ-zero (entry k ledger), text_eq_iff sym k)
      | inr counted ↦ ground (
        arith,
        post_fill-shifted ledger sym f.action_type f.side f.qty,
        entry-shifted k sym delta ledger,
        +ℤ-zero (entry k ledger),
        text_eq_iff sym k,
      )
    ]

-- The ledger is switched on and there, with its lock.
pub record HasLedger (environ : Environ) (t : Trader) (ledger : Dict ℤ) : Type 0 where
  pub enabled : eod_use_session_ledger_enabled environ ≡ true
  pub locked : t.has_lock ≡ true
  pub there : t.open_qty ≡ some ledger

get_session_ledger-HasLedger :
    {environ : Environ} {t : Trader} {ledger : Dict ℤ}
    → HasLedger environ t ledger
    → get_session_ledger t ≡ ledger
unfolding get_session_ledger
get_session_ledger-HasLedger {environ} {t} h = ap (λ o. get_or o []) h.there

-- No symbol is listed twice, and none is listed as flat.
pub record IsTidy (ledger : Dict ℤ) : Type 0 where
  pub unique : HasUniqueKeys ledger
  pub nonzero : (k : Text) (q : ℤ) → lookup k ledger ≡ some q → is_zero q ≡ false

store_qty-IsTidy :
    (sym : Text) (v : ℤ) (ledger : Dict ℤ) → IsTidy ledger → IsTidy (store_qty sym v ledger)
unfolding store_qty
store_qty-IsTidy sym v ledger h = record {
  unique =
      ground
        (arith, insert-HasUniqueKeys sym v ledger h.unique, pop-HasUniqueKeys sym ledger h.unique);
  nonzero =
      λ k q e. ground (arith, lookup-pop sym k ledger, lookup-insert sym k v ledger, h.nonzero k q);
}

shifted-IsTidy :
    (delta : Option ℤ) (sym : Text) (ledger : Dict ℤ)
    → IsTidy ledger
    → IsTidy (get_or (shifted delta sym ledger) ledger)
shifted-IsTidy none sym ledger h = h
shifted-IsTidy (some delta) sym ledger h = store_qty-IsTidy sym (entry sym ledger +ℤ delta) ledger h

step-IsTidy : (ledger : Dict ℤ) (f : Fill) → IsTidy ledger → IsTidy (step ledger f)
step-IsTidy ledger f h =
    let sym = normalize_symbol f.symbol in
    let delta = signed_fill_delta (pos_part f.qty) f.side f.action_type in
    elim (Bool-cases (is_empty sym || not (is_pos f.qty))) [
      | inl skipped ↦ rw skipped h
      | inr counted ↦ rw counted (
          rw (post_fill-shifted ledger sym f.action_type f.side f.qty (ground arith))
            (shifted-IsTidy delta sym ledger h))
    ]

contains-entry :
    (k : Text) (ledger : Dict ℤ)
    → IsTidy ledger
    → contains k ledger ≡ not (is_zero (entry k ledger))
contains-entry k ledger h = elim (Option-cases (lookup k ledger)) [
  | inl e ↦ rw e refl
  | inr (q, e) ↦ rw e (rw (h.nonzero k q e) refl)
]

module _ (R : Redis) where
  open R use {Store}

  -- The fills in turn, each with the client as the one before has left it.
  pub apply_fills : Environ → Trader × Option Store → List Fill → Trader × Option Store
  apply_fills environ s [] = s
  apply_fills environ s (f ∷ fs) =
      apply_fills environ
        (apply_fill_to_session_ledger R environ s f.symbol f.qty f.action_type f.side) fs

  apply_fill-step :
      (environ : Environ) (t : Trader) (client : Option Store) (ledger : Dict ℤ) (f : Fill)
      → HasLedger environ t ledger
      → HasLedger environ
          (apply_fill_to_session_ledger R environ (t, client) f.symbol f.qty f.action_type f.side).0
          (step ledger f)
  unfolding apply_fill_to_session_ledger
  apply_fill-step environ t client ledger f h = record {
    enabled = h.enabled;
    locked = ground (arith, h.enabled, h.locked, h.there);
    there = ground (arith, h.enabled, h.locked, h.there);
  }

  -- With the ledger switched on and there, after any fills a symbol's entry is what it was plus
  -- the signed sum of the symbol's fills.
  pub ledger_tracks_fills :
      (environ : Environ) (t : Trader) (client : Option Store) (ledger : Dict ℤ) (fs : List Fill)
      (k : Text)
      → HasLedger environ t ledger
      → entry k (get_session_ledger (apply_fills environ (t, client) fs).0)
        ≡ entry k (get_session_ledger t) +ℤ net_effect k fs
  unfolding apply_fills
  ledger_tracks_fills environ t client ledger [] k h =
      p_sym (+ℤ-zero (entry k (get_session_ledger t)))
  ledger_tracks_fills environ t client ledger (f ∷ fs) k h =
      let (t', client') =
        apply_fill_to_session_ledger R environ (t, client) f.symbol f.qty f.action_type f.side in
      let h' = apply_fill-step environ t client ledger f h in
      ledger_tracks_fills environ t' client' (step ledger f) fs k h'
      ∙ rw (get_session_ledger-HasLedger h', get_session_ledger-HasLedger h, entry-step k ledger f)
          (+ℤ_assoc (entry k ledger) (effect k f) (net_effect k fs))

  apply_fills-IsTidy :
      (environ : Environ) (t : Trader) (client : Option Store) (ledger : Dict ℤ) (fs : List Fill)
      → HasLedger environ t ledger
      → IsTidy ledger
      → IsTidy (get_session_ledger (apply_fills environ (t, client) fs).0)
  unfolding apply_fills
  apply_fills-IsTidy environ t client ledger [] h tidy = rw (get_session_ledger-HasLedger h) tidy
  apply_fills-IsTidy environ t client ledger (f ∷ fs) h tidy =
      let (t', client') =
        apply_fill_to_session_ledger R environ (t, client) f.symbol f.qty f.action_type f.side in
      apply_fills-IsTidy environ t' client' (step ledger f) fs
        (apply_fill-step environ t client ledger f h) (step-IsTidy ledger f tidy)

  -- From a tidy ledger that is switched on and there, after any fills a symbol is listed exactly
  -- if its entry before and its fills do not cancel out.
  pub listed_iff_open :
      (environ : Environ) (t : Trader) (client : Option Store) (ledger : Dict ℤ) (fs : List Fill)
      (k : Text)
      → HasLedger environ t ledger
      → IsTidy ledger
      → contains k (get_session_ledger (apply_fills environ (t, client) fs).0)
        ≡ not (is_zero (entry k (get_session_ledger t) +ℤ net_effect k fs))
  listed_iff_open environ t client ledger fs k h tidy =
      contains-entry k (get_session_ledger (apply_fills environ (t, client) fs).0)
        (apply_fills-IsTidy environ t client ledger fs h tidy)
      ∙ ap (λ q. not (is_zero q)) (ledger_tracks_fills environ t client ledger fs k h)
