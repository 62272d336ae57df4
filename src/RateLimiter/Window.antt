-- ===== src/RateLimiter/Window.antt =====
-- The rate limiter of order_execution.py grants at most `max_calls` calls in any window.
use mintzy_plugin_kelly_opt.Base.{
  ℕ, ◌+◌, ◌≤◌, ◌<◌, ◌≡◌, refl, sym as p_sym, ◌∙◌, ap, Bool, true, false, ◌&&◌, List, [], ◌∷◌, ◌++◌,
  keep, length, length-append, length-keep, Call, returned, leb, ltb, arith, Bool-cases, inl, inr,
  ◌⊎◌,
}
use mathlib.Core.Path.{subst, subst₂}
use native.Mathlib.Nat.{le_trans, le_refl}
use mintzy_plugin_kelly_opt.RateLimiter.{RateLimiter, new, in_window, sleep_time, admit, acquire}

-- `time.sleep` sleeps at least as long as it is told: where the window at `now` is full, the clock reads
-- the end of the oldest call's window or later.
abbrev pub Waits : RateLimiter → ℕ → ℕ → Type 0
Waits l now later =
    (oldest : ℕ) (others : List ℕ)
    → keep (in_window l.time_window now) l.calls ≡ oldest ∷ others
    → leb l.max_calls (length (oldest ∷ others)) ≡ true
    → oldest + l.time_window ≤ later

-- The calls of a limiter in their order, with the times granted, the last of them, and the state. The
-- clock does not go back.
pub data Runs (max_calls time_window : ℕ) : List ℕ → ℕ → RateLimiter → Type 0 where
  start : Runs max_calls time_window [] 0 (new max_calls time_window)
  call :
      {granted : List ℕ} {last : ℕ} {l l' : RateLimiter} (now later g : ℕ)
      → Runs max_calls time_window granted last l
      → last ≤ now
      → now ≤ later
      → Waits l now later
      → acquire l now later ≡ returned (g, l')
      → Runs max_calls time_window (granted ++ g ∷ []) g l'

keep-append : (p : ℕ → Bool) (xs ys : List ℕ) → keep p (xs ++ ys) ≡ keep p xs ++ keep p ys
keep-append p [] ys = refl
keep-append p (x ∷ xs) ys = ground (arith, keep-append p xs ys)

-- What is in a later window was in every earlier one.
keep-keep :
    (w a b : ℕ) (xs : List ℕ)
    → a ≤ b
    → keep (in_window w b) (keep (in_window w a) xs) ≡ keep (in_window w b) xs
keep-keep w a b [] h = refl
keep-keep w a b (x ∷ xs) h = ground (arith, keep-keep w a b xs h)

-- The limiter's list holds what the window holds of the grants, and is not longer than allowed.
record Tracks (granted : List ℕ) (last : ℕ) (l : RateLimiter) : Type 0 where
  bound : length l.calls ≤ l.max_calls
  recent :
      (g : ℕ)
      → last ≤ g
      → keep (in_window l.time_window g) granted ≡ keep (in_window l.time_window g) l.calls

-- The state after a grant at `g`, when the list was pruned at `a` before.
grant-Tracks :
    {granted : List ℕ} {last : ℕ} {l : RateLimiter} (a g : ℕ) (kept : List ℕ)
    → Tracks granted last l
    → last ≤ a
    → a ≤ g
    → keep (in_window l.time_window a) l.calls ≡ kept
    → length kept < l.max_calls
    → Tracks (granted ++ g ∷ []) g (record l { calls = kept ++ g ∷ [] })
grant-Tracks {granted} {last} {l} a g kept t la ag e room =
    let w = l.time_window in
    record {
      bound = omega (arith, length-append kept (g ∷ []));
      recent = λ k gk. rw (
        keep-append (in_window w k) granted (g ∷ []),
        keep-append (in_window w k) kept (g ∷ []),
        ← e,
        keep-keep w a k l.calls (le_trans ag gk),
        t.recent k (le_trans la (le_trans ag gk)),
      );
    }

head_kept : (p : ℕ → Bool) (xs : List ℕ) (o : ℕ) (rest : List ℕ) → keep p xs ≡ o ∷ rest → p o ≡ true
head_kept p [] o rest e = ground arith
head_kept p (x ∷ xs) o rest e = elim (Bool-cases (p x)) [
  | inl h ↦ ground arith
  | inr h ↦ head_kept p xs o rest (ground arith)
]

returned-injective :
    {x g : ℕ} {y l : RateLimiter}
    → ◌≡◌ {A = Call (ℕ × RateLimiter)} (returned (x, y)) (returned (g, l))
    → (x ≡ g) × (y ≡ l)
returned-injective e = ground arith

granted-Tracks :
    (granted : List ℕ) {x g : ℕ} {y l : RateLimiter}
    → Tracks (granted ++ x ∷ []) x y
    → ◌≡◌ {A = Call (ℕ × RateLimiter)} (returned (x, y)) (returned (g, l))
    → Tracks (granted ++ g ∷ []) g l
granted-Tracks granted t e =
    let (p, q) = returned-injective e in subst₂ (λ g l. Tracks (granted ++ g ∷ []) g l) p q t

admit-Tracks :
    {granted : List ℕ} {last : ℕ} {l l' : RateLimiter} (now later g : ℕ) (calls : List ℕ)
    → Tracks granted last l
    → last ≤ now
    → now ≤ later
    → Waits l now later
    → keep (in_window l.time_window now) l.calls ≡ calls
    → admit l now later calls ≡ returned (g, l')
    → Tracks (granted ++ g ∷ []) g l'
unfolding admit
admit-Tracks {granted} {l} now later g [] t ln nl wait e a = elim (Bool-cases (leb l.max_calls 0)) [
  | inl full ↦ ground arith
  | inr room ↦
      granted-Tracks granted (grant-Tracks now now [] t ln (le_refl now) e (ground arith))
        (rw room at a)
]
admit-Tracks {granted} {l} now later g (oldest ∷ others) t ln nl wait e a =
    let calls = oldest ∷ others in
    let w = l.time_window in
    let fits : length calls ≤ length l.calls =
      subst (λ k. length k ≤ length l.calls) e (length-keep (in_window w now) l.calls) in
    let inside : in_window w now oldest ≡ true =
      head_kept (in_window w now) l.calls oldest others e in
    let kept : keep (in_window w later) l.calls ≡ keep (in_window w later) calls =
      p_sym (keep-keep w now later l.calls nl) ∙ ap (keep (in_window w later)) e in
    let others_fit : length (keep (in_window w later) others) ≤ length others =
      length-keep (in_window w later) others in
    elim (Bool-cases (leb l.max_calls (length calls) && ltb 0 (sleep_time w now oldest))) [
      | inl sleeps ↦
          let gone : in_window w later oldest ≡ false = ground (arith, wait oldest others e) in
          granted-Tracks granted
            (grant-Tracks later later (keep (in_window w later) calls) t (le_trans ln nl)
              (le_refl later) kept (rw gone (omega (arith, t.bound))))
            (rw sleeps at a)
      | inr grants ↦
          granted-Tracks granted (grant-Tracks now now calls t ln (le_refl now) e (ground arith))
            (rw grants at a)
    ]

Runs-Tracks :
    {m w : ℕ} {granted : List ℕ} {last : ℕ} {l : RateLimiter}
    → Runs m w granted last l
    → Tracks granted last l
unfolding acquire
Runs-Tracks start = record { bound = omega arith; recent = λ g h. refl }
Runs-Tracks (call now later g r ln nl wait e) =
    admit-Tracks now later g _ (Runs-Tracks r) ln nl wait refl e

admit_settings :
    (l l' : RateLimiter) (now later g : ℕ) (calls : List ℕ)
    → admit l now later calls ≡ returned (g, l')
    → (l'.max_calls ≡ l.max_calls) × (l'.time_window ≡ l.time_window)
unfolding admit
admit_settings l l' now later g [] e = ground arith
admit_settings l l' now later g (oldest ∷ others) e = ground arith

Runs-settings :
    {m w : ℕ} {granted : List ℕ} {last : ℕ} {l : RateLimiter}
    → Runs m w granted last l
    → (l.max_calls ≡ m) × (l.time_window ≡ w)
unfolding acquire
Runs-settings start = (refl, refl)
Runs-settings (call {l = l} {l' = l'} now later g r ln nl wait e) =
    let (p, q) = Runs-settings r in
    let (p', q') = admit_settings l l' now later g _ e in (p' ∙ p, q' ∙ q)

-- When a call is granted, at most max_calls of the grants so far lie in the window that ends
-- there, if the clock does not go back and time.sleep sleeps as long as it is told.
pub window_bound :
    {max_calls time_window : ℕ} {granted : List ℕ} {last : ℕ} {l : RateLimiter}
    → Runs max_calls time_window granted last l
    → length (keep (in_window time_window last) granted) ≤ max_calls
window_bound {granted} {last} {l} r =
    let (p, q) = Runs-settings r in
    let t = Runs-Tracks r in
    rw (← p, ← q, t.recent last (le_refl last))
      (le_trans (length-keep (in_window l.time_window last) l.calls) t.bound)

admit_returns :
    (l : RateLimiter) (now later : ℕ) (calls : List ℕ)
    → 1 ≤ l.max_calls
    → (g : ℕ) × (l' : RateLimiter) × (admit l now later calls ≡ returned (g, l'))
      × ((g ≡ now) ⊎ (g ≡ later))
unfolding admit
admit_returns l now later [] h = (now, record l { calls = now ∷ [] }, ground arith, inl refl)
admit_returns l now later (oldest ∷ others) h =
    let calls = oldest ∷ others in
    elim (Bool-cases
      (leb l.max_calls (length calls) && ltb 0 (sleep_time l.time_window now oldest))) [
        | inl sleeps ↦ (
          later,
          record l { calls = keep (in_window l.time_window later) calls ++ later ∷ [] },
          rw sleeps,
          inr refl,
        )
        | inr grants ↦ (now, record l { calls = calls ++ now ∷ [] }, rw grants, inl refl)
      ]

-- A limiter that allows at least one call grants every call, at the first or the second reading of
-- the clock.
acquire_returns :
    (l : RateLimiter) (now later : ℕ)
    → 1 ≤ l.max_calls
    → (g : ℕ) × (l' : RateLimiter) × (acquire l now later ≡ returned (g, l'))
      × ((g ≡ now) ⊎ (g ≡ later))
unfolding acquire
acquire_returns l now later h =
    admit_returns l now later (keep (in_window l.time_window now) l.calls) h
