-- ===== src/Exposure/Funds.antt =====
-- The free cash that the trader takes from the broker's answer.
use mintzy_plugin_kelly_opt.Base.{
  ℕ, true, false, Option, none, some, List, [], ◌∷◌, ◌≡◌, Call, returned, raised, arith,
  Option-cases, inl, inr,
}
use mintzy_plugin_kelly_opt.Base.Int.{pos, negsuc}
use mintzy_plugin_kelly_opt.Base.Text.{Text}
use mintzy_plugin_kelly_opt.Base.Dict.{Dict, lookup}
use mintzy_plugin_kelly_opt.Number.{Number}
use mintzy_plugin_kelly_opt.Decimals.{Decimals, Field, null, flag, whole, real, text, container}
use mintzy_plugin_kelly_opt.Pyramid.Cash.{cash_keys, cash_of, first_cash}
use mintzy_plugin_kelly_opt.Exposure.FreeCash.{
  BalanceReply, Scan, found, nothing_read, negative_read, keep_scan, read_key, scan_keys, raw_keys,
  scanned_number, scan_items, raw_cash, session_free_cash_fallback, get_free_cash,
}

module _ (N : Number) (D : Decimals N)
    (of_int_nonneg : (n : ℕ) → N.le N.zero (N.of_int (pos n)) ≡ true)
    (zero_nonneg : N.le N.zero N.zero ≡ true) (one_nonneg : N.le N.zero N.one ≡ true) where
  open N use {Float, zero, le}

  -- A figure, where there is one, is not negative.
  abbrev HoldsCash : Option Float → Type 0
  HoldsCash none = Unit
  HoldsCash (some x) = le zero x ≡ true

  abbrev ScansCash : Scan Float → Type 0
  ScansCash (found x) = le zero x ≡ true
  ScansCash nothing_read = Unit
  ScansCash negative_read = Unit

  cash_of-HoldsCash : (v : Option (Field Float)) → HoldsCash (cash_of N D v)
  unfolding cash_of
  cash_of-HoldsCash none = tt
  cash_of-HoldsCash (some v) = ground arith

  first_cash-HoldsCash : (ks : List Text) (d : Dict (Field Float)) → HoldsCash (first_cash N D ks d)
  unfolding first_cash
  first_cash-HoldsCash [] d = tt
  first_cash-HoldsCash (k ∷ ks) d =
      ground (arith, first_cash-HoldsCash ks d, cash_of-HoldsCash (lookup k d))

  read_key-ScansCash : (v : Option (Field Float)) → ScansCash (read_key N D v)
  unfolding read_key
  read_key-ScansCash none = tt
  read_key-ScansCash (some v) = ground arith

  scan_keys-ScansCash : (ks : List Text) (d : Dict (Field Float)) → ScansCash (scan_keys N D ks d)
  unfolding scan_keys keep_scan
  scan_keys-ScansCash [] d = tt
  scan_keys-ScansCash (k ∷ ks) d =
      ground (arith, scan_keys-ScansCash ks d, read_key-ScansCash (lookup k d))

  scanned_number-HoldsCash : (v : Field Float) → HoldsCash (scanned_number N D v)
  unfolding scanned_number
  scanned_number-HoldsCash null = tt
  scanned_number-HoldsCash (flag true) = one_nonneg
  scanned_number-HoldsCash (flag false) = zero_nonneg
  scanned_number-HoldsCash (whole (pos n)) = of_int_nonneg n
  scanned_number-HoldsCash (whole (negsuc n)) = tt
  scanned_number-HoldsCash (real x) = ground arith
  scanned_number-HoldsCash (text s) = tt
  scanned_number-HoldsCash (container e) = tt

  scan_items-HoldsCash : (d : Dict (Field Float)) → HoldsCash (scan_items N D d)
  unfolding scan_items
  scan_items-HoldsCash [] = tt
  scan_items-HoldsCash ((k, v) ∷ d) =
      ground (arith, scan_items-HoldsCash d, scanned_number-HoldsCash v)

  raw_cash-HoldsCash : (d : Option (Dict (Field Float))) → HoldsCash (raw_cash N D d)
  unfolding raw_cash
  raw_cash-HoldsCash none = tt
  raw_cash-HoldsCash (some d) =
      ground (arith, scan_keys-ScansCash raw_keys d, scan_items-HoldsCash d)

  get_free_cash-HoldsCash :
      (session_free : Option (Field Float)) (answer : Call (Option (BalanceReply Float)))
      → HoldsCash (get_free_cash N D session_free answer)
  unfolding get_free_cash session_free_cash_fallback
  get_free_cash-HoldsCash v raised = cash_of-HoldsCash v
  get_free_cash-HoldsCash v (returned none) = cash_of-HoldsCash v
  get_free_cash-HoldsCash v (returned (some bal)) = elim (Option-cases bal.payload) [
    | inl e ↦ ground (
      arith,
      cash_of-HoldsCash v,
      cash_of-HoldsCash bal.free_cash,
      raw_cash-HoldsCash bal.candidate,
    )
    | inr (d, e) ↦ ground (
      arith,
      cash_of-HoldsCash v,
      cash_of-HoldsCash bal.free_cash,
      raw_cash-HoldsCash bal.candidate,
      first_cash-HoldsCash cash_keys d,
    )
  ]

  -- If whole numbers from 0 up, 0 and 1 are at least 0 as floats, the free cash that the trader
  -- takes from the broker's answer or from its fallback is at least 0, on every path through the
  -- answer.
  pub free_cash_is_not_negative :
      (session_free : Option (Field Float)) (answer : Call (Option (BalanceReply Float)))
      {x : Float}
      → get_free_cash N D session_free answer ≡ some x
      → le zero x ≡ true
  free_cash_is_not_negative v answer h = ground (arith, get_free_cash-HoldsCash v answer, h)
