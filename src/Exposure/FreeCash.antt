-- ===== src/Exposure/FreeCash.antt =====
-- `_get_free_cash`, its fallback and `_sync_cash_with_broker` of exposure_risk.py in the live package:
-- the first figure of the broker's answer that is not negative. The keys of `data` are those of
-- Pyramid/Cash. Alerts and log lines are left out.
use mintzy_plugin_kelly_opt.Base.{
  ◌==◌, Bool, true, false, ◌||◌, not, Option, none, some, List, [], ◌∷◌, keep, Call, returned,
  raised, if◌then◌else◌,
}
use mintzy_plugin_kelly_opt.Base.Int.{pos, negsuc}
use mintzy_plugin_kelly_opt.Base.Text.{Text, codes, lower}
use mintzy_plugin_kelly_opt.Base.Dict.{Dict, lookup}
use mintzy_plugin_kelly_opt.Number.{Number}
use mintzy_plugin_kelly_opt.Decimals.{Decimals, Field, flag, whole, real, text, float_of}
use mintzy_plugin_kelly_opt.Pyramid.Cash.{occurs_in, cash_keys, cash_of, first_cash}
use mintzy_plugin_kelly_opt.Exposure.{Desk}

-- The answer of `get_account_balance` where it is a dictionary: whether its status is success, the
-- figure under `free_cash`, the dictionary under `data`, and that in which the raw answer is searched.
pub record BalanceReply (F : Type 0) : Type 0 where
  pub success : Bool
  pub free_cash : Option (Field F)
  pub payload : Option (Dict (Field F))
  pub candidate : Option (Dict (Field F))

-- What the loop over the raw answer's keys ends with: a figure to return; or whether it has read a
-- figure, which was negative then.
pub data Scan (F : Type 0) : Type 0 where
  found : F → Scan F
  nothing_read : Scan F
  negative_read : Scan F

unfoldable pub raw_keys : List Text
raw_keys =
    codes "available_cash"
    ∷ codes "availableCash"
    ∷ codes "available_balance"
    ∷ codes "availableBalance"
    ∷ codes "cash"
    ∷ codes "equity"
    ∷ codes "netEquity"
    ∷ codes "availableMargin"
    ∷ codes "available_margin"
    ∷ codes "availablecash"
    ∷ codes "net"
    ∷ []

-- `s.replace(",", "")`
unfoldable pub without_commas : Text → Text
without_commas s = keep (λ c. not (c == 44)) s

unfoldable pub names_cash : Text → Bool
unfolding occurs_in
names_cash k =
    let l = lower k in
    occurs_in (codes "available") l
    || (occurs_in (codes "free") l || (occurs_in (codes "cash") l || occurs_in (codes "net") l))

module _ (N : Number) (D : Decimals N) where
  open N use {Float, zero, one, of_int, le}
  open D use {parse_float}

  -- `float(v)`, or else the number that `str(v)` holds without its commas. Of what `float` refuses,
  -- only a text can hold one then.
  unfoldable pub raw_number : Field Float → Call Float
  raw_number (text s) = elim (parse_float s) [
    | returned x ↦ returned x
    | raised ↦ parse_float (without_commas s)
  ]
  raw_number v = float_of N D v

  unfoldable pub keep_scan : Scan Float → Scan Float → Scan Float
  keep_scan (found x) rest = found x
  keep_scan nothing_read rest = rest
  keep_scan negative_read (found x) = found x
  keep_scan negative_read rest = negative_read

  unfoldable pub read_key : Option (Field Float) → Scan Float
  unfolding raw_number
  read_key none = nothing_read
  read_key (some v) = elim (raw_number v) [
    | raised ↦ nothing_read
    | returned free_cash ↦ if le zero free_cash then found free_cash else negative_read
  ]

  unfoldable pub scan_keys : List Text → Dict (Field Float) → Scan Float
  unfolding keep_scan read_key
  scan_keys [] d = nothing_read
  scan_keys (key ∷ ks) d = keep_scan (read_key (lookup key d)) (scan_keys ks d)

  -- `isinstance(v, (int, float)) and v >= 0`; a Boolean is an int.
  unfoldable pub scanned_number : Field Float → Option Float
  scanned_number (flag true) = some one
  scanned_number (flag false) = some zero
  scanned_number (whole (pos n)) = some (of_int (pos n))
  scanned_number (whole (negsuc n)) = none
  scanned_number (real x) = if le zero x then some x else none
  scanned_number v = none

  -- The loop over all items of the raw answer.
  unfoldable pub scan_items : Dict (Field Float) → Option Float
  unfolding scanned_number names_cash
  scan_items [] = none
  scan_items ((k, v) ∷ d) =
      let rest = scan_items d in
      elim (scanned_number v) [ none ↦ rest | some x ↦ if names_cash k then some x else rest ]

  unfoldable pub raw_cash : Option (Dict (Field Float)) → Option Float
  raw_cash none = none
  raw_cash (some candidate) = elim (scan_keys raw_keys candidate) [
    | found x ↦ some x
    | negative_read ↦ none
    | nothing_read ↦ scan_items candidate
  ]

  unfoldable pub session_free_cash_fallback : Option (Field Float) → Option Float
  session_free_cash_fallback session_free = cash_of N D session_free

  -- The broker's answer: it raises, it is no dictionary, or one.
  unfoldable pub get_free_cash :
      Option (Field Float) → Call (Option (BalanceReply Float)) → Option Float
  unfolding session_free_cash_fallback
  get_free_cash session_free raised = session_free_cash_fallback session_free
  get_free_cash session_free (returned none) = session_free_cash_fallback session_free
  get_free_cash session_free (returned (some bal)) =
      let fallback = session_free_cash_fallback session_free in
      let from_raw : Option Float = elim (raw_cash bal.candidate) [
        | some x ↦ some x
        | none ↦ fallback
      ] in
      let from_payload : Option Float = elim bal.payload [
        | none ↦ from_raw
        | some d ↦ elim (first_cash N D cash_keys d) [ some x ↦ some x | none ↦ from_raw ]
      ] in
      if not bal.success
      then fallback
      else elim (cash_of N D bal.free_cash) [ some x ↦ some x | none ↦ from_payload ]

  -- Whether the cash was synced, and the desk.
  unfoldable pub sync_cash_with_broker :
      {S : Type 0}
      → Option (Field Float)
      → Call (Option (BalanceReply Float))
      → Desk Float S
      → Bool × Desk Float S
  sync_cash_with_broker session_free answer d = elim (get_free_cash session_free answer) [
    | none ↦ (false, d)
    | some free_cash ↦ (
      true,
      record d {
        trader = record d.trader { account = record d.trader.account { cash_balance = free_cash } };
      },
    )
  ]
