-- ===== src/OrderFill/Follows.antt =====
-- The live trader's book and the session ledger agree after a fill, as they agreed before it.
use mintzy_plugin_kelly_opt.Base.{
  true, false, Option, none, some, List, [], ◌∷◌, ◌++◌, is_empty, Call, ◌≡◌, ◌⊎◌, inl, inr, refl,
  sym, ◌∙◌, ap, arith,
}
use mintzy_plugin_kelly_opt.Base.Int.{ℤ, pos_part, is_pos, ◌+ℤ◌, neg}
use mintzy_plugin_kelly_opt.Base.Text.{Text, text_eq, text_eq_refl}
use mintzy_plugin_kelly_opt.Base.Dict.{Dict, lookup, lookup-insert}
use mintzy_plugin_kelly_opt.Base.SymbolSet.{member}
use mintzy_plugin_kelly_opt.Symbols.{Environ, normalize_symbol}
use mintzy_plugin_kelly_opt.Redis.{Redis}
use mintzy_plugin_kelly_opt.Ledger.{
  Trader, record_engine_order_for_trader, buy, sell, entry, get_session_ledger, post_fill,
  apply_fill_to_session_ledger, compute_ledger_qty_after_fill,
}
use mintzy_plugin_kelly_opt.Ledger.Tracking.{HasLedger, entry-store_qty}
use mintzy_plugin_kelly_opt.Number.{Number}
use mintzy_plugin_kelly_opt.PaperEngine.{OpenPosition}
use mintzy_plugin_kelly_opt.ClosePosition.{is_closable, close_position}
use mintzy_plugin_kelly_opt.ClosePosition.Booking.{
  signed, opposite, buy_delta, sell_delta, sell_is_not_buy, close_follows_ledger,
}
use mintzy_plugin_kelly_opt.OrderFill.{
  Pending, LiveFill, BrokerRow, BookOrder, LiveTrader, exit_actions, flipping_actions, enter,
  snapshot_position_for_exit,
}
use mintzy_plugin_kelly_opt.OrderFill.Fills.{
  first_text, track_engine_fill, finalize_symbol_exit_fill, exit_filled, entry_filled,
  handle_filled,
}

module _ (N : Number) (R : Redis) (environ : Environ) where
  open N use {Float, zero, le, of_int, plus, times, divide}
  open R use {Store}

  -- The ledger's entry of a symbol after a fill whose arithmetic is known.
  tracked :
      (symbol side action : Text) (qty v : ℤ) (t : Trader) (client : Option Store) (ledger : Dict ℤ)
      → HasLedger environ t ledger
      → normalize_symbol symbol ≡ symbol
      → is_empty symbol ≡ false
      → is_pos qty ≡ true
      → compute_ledger_qty_after_fill (entry symbol ledger) qty action side ≡ some v
      → entry symbol (
          get_session_ledger
            (apply_fill_to_session_ledger R environ (t, client) symbol qty action side).0)
        ≡ v
  unfolding apply_fill_to_session_ledger post_fill get_session_ledger
  tracked symbol side action qty v t client ledger h n e q c = ground (
    arith,
    h.enabled,
    h.locked,
    h.there,
    n,
    entry-store_qty symbol symbol v ledger,
    text_eq_refl symbol,
  )

  -- An entry in the direction of the position, or with none.
  enter-signed :
      (symbol action : Text) (fill : LiveFill Float) (price : Float)
      (positions : Dict (OpenPosition Float))
      → (fill.side ≡ buy) ⊎ (fill.side ≡ sell)
      → is_pos fill.qty ≡ true
      → (lookup symbol positions ≡ none)
        ⊎ ((p : OpenPosition Float) × (lookup symbol positions ≡ some p)
            × (p.side ≡ fill.side)
            × (is_pos p.qty ≡ true))
      → compute_ledger_qty_after_fill (signed (lookup symbol positions)) fill.qty action fill.side
        ≡ some (signed (lookup symbol (enter N symbol fill price positions)))
  unfolding compute_ledger_qty_after_fill enter ◌+ℤ◌ neg
  enter-signed symbol action fill price positions s q (inl n) =
      let new : OpenPosition Float = record {
        side = fill.side;
        qty = fill.qty;
        entry_price = price;
      } in
      elim s [
        | inl b ↦ ground (
          arith,
          n,
          q,
          lookup-insert symbol symbol new positions,
          buy_delta (pos_part fill.qty) action,
          text_eq_refl symbol,
          text_eq_refl buy,
        )
        | inr b ↦ ground (
          arith,
          n,
          q,
          lookup-insert symbol symbol new positions,
          sell_delta (pos_part fill.qty) action,
          text_eq_refl symbol,
          sell_is_not_buy,
        )
      ]
  enter-signed symbol action fill price positions s q (inr (p, f, same, held)) =
      let new : OpenPosition Float = record p {
        entry_price =
            divide (plus (times (of_int p.qty) p.entry_price) (times (of_int fill.qty) price))
              (of_int (p.qty +ℤ fill.qty));
        qty = p.qty +ℤ fill.qty;
      } in
      elim s [
        | inl b ↦ ground (
          arith,
          f,
          same,
          held,
          q,
          lookup-insert symbol symbol new positions,
          buy_delta (pos_part fill.qty) action,
          text_eq_refl symbol,
          text_eq_refl buy,
        )
        | inr b ↦ ground (
          arith,
          f,
          same,
          held,
          q,
          lookup-insert symbol symbol new positions,
          sell_delta (pos_part fill.qty) action,
          text_eq_refl symbol,
          sell_is_not_buy,
        )
      ]

  -- The ledger after the fill has been tracked.
  track-entry :
      (symbol : Text) (fill : LiveFill Float) (ctx : Pending Float) (v : ℤ) (ledger : Dict ℤ)
      (t : LiveTrader Float Store)
      → HasLedger environ t.ledger ledger
      → normalize_symbol symbol ≡ symbol
      → is_empty symbol ≡ false
      → is_pos fill.qty ≡ true
      → compute_ledger_qty_after_fill
          (entry symbol ledger)
          fill.qty
          ctx.action_type
          (first_text ctx.side fill.side)
        ≡ some v
      → entry symbol (get_session_ledger (track_engine_fill N R environ symbol fill ctx t).ledger)
        ≡ v
  unfolding track_engine_fill
  track-entry symbol fill ctx v ledger t h n e q c = ground (
    arith,
    tracked symbol (first_text ctx.side fill.side) ctx.action_type fill.qty v t.ledger
        (record_engine_order_for_trader R t.ledger t.client (some ctx.order_id)) ledger h n e q c,
  )

  track-account :
      (symbol : Text) (fill : LiveFill Float) (ctx : Pending Float) (t : LiveTrader Float Store)
      → (track_engine_fill N R environ symbol fill ctx t).account ≡ t.account
  unfolding track_engine_fill
  track-account symbol fill ctx t = refl

  ledger_of :
      (t : Trader) (ledger : Dict ℤ) → HasLedger environ t ledger → get_session_ledger t ≡ ledger
  unfolding get_session_ledger
  ledger_of t ledger h = ground (arith, h.there)

  not_empty : (s : Text) → is_empty s ≡ false → text_eq s [] ≡ false
  unfolding text_eq
  not_empty [] h = ground arith
  not_empty (c ∷ s) h = refl

  first_text-twice : (a b : Text) → first_text a (first_text a b) ≡ first_text a b
  first_text-twice [] b = refl
  first_text-twice (c ∷ a) b = refl

  closable-price :
      (p : OpenPosition Float) (price : Float) (qty : ℤ)
      → is_closable N p price qty ≡ true
      → (N.is_pos price ≡ true) × (is_pos qty ≡ true)
  unfolding is_closable
  closable-price p price qty h = (ground arith, ground arith)

  -- The book and the ledger hold the same of a symbol.
  abbrev pub Agree : Text → LiveTrader Float Store → Type 0
  Agree symbol t =
      signed (lookup symbol t.account.positions) ≡ entry symbol (get_session_ledger t.ledger)

  -- The position after an exit, and the ledger after its fill.
  exit-Agree :
      (symbol : Text) (fill : LiveFill Float) (ctx : Pending Float) (p : OpenPosition Float)
      (snapshot : Option (OpenPosition Float)) (ledger : Dict ℤ) (t : LiveTrader Float Store)
      → HasLedger environ t.ledger ledger
      → normalize_symbol symbol ≡ symbol
      → is_empty symbol ≡ false
      → lookup symbol t.account.positions ≡ some p
      → is_closable N p fill.avg_price fill.qty ≡ true
      → first_text ctx.side fill.side ≡ opposite p.side
      → signed (some p) ≡ entry symbol ledger
      → Agree symbol (
          track_engine_fill N R environ symbol fill ctx (record t {
            account = (close_position N symbol fill.avg_price fill.qty snapshot t.account).1;
          }))
  exit-Agree symbol fill ctx p snapshot ledger t h n e f ok side agree =
      let after = (close_position N symbol fill.avg_price fill.qty snapshot t.account).1 in
      let closed =
        close_follows_ledger N symbol [] ctx.action_type p fill.avg_price fill.qty snapshot
          t.account f ok (not_empty symbol e) in
      let computed : compute_ledger_qty_after_fill (entry symbol ledger) fill.qty ctx.action_type
            (first_text ctx.side fill.side)
          ≡ some (signed (lookup symbol after.positions)) =
        rw (sym agree, side) closed.0 in
      let u : LiveTrader Float Store = record t { account = after } in
      ap (λ a. signed (lookup symbol a.positions)) (track-account symbol fill ctx u)
      ∙ sym (
          track-entry symbol fill ctx (signed (lookup symbol after.positions)) ledger u h n e
            (closable-price p fill.avg_price fill.qty ok).1 computed)

  -- A fill that fits the book: an entry with a price in the position's direction, or an exit or flip
  -- of a held position from the other side.
  pub data FitsBook (symbol : Text) (fill : LiveFill Float) (ctx : Pending Float)
      (t : LiveTrader Float Store) : Type 0 where
    enters :
        member ctx.action_type (exit_actions ++ flipping_actions) ≡ false
        → le fill.avg_price zero ≡ false
        → is_pos fill.qty ≡ true
        → (fill.side ≡ buy) ⊎ (fill.side ≡ sell)
        → first_text ctx.side fill.side ≡ fill.side
        → (lookup symbol t.account.positions ≡ none)
          ⊎ ((p : OpenPosition Float) × (lookup symbol t.account.positions ≡ some p)
              × (p.side ≡ fill.side)
              × (is_pos p.qty ≡ true))
        → FitsBook symbol fill ctx t
    leaves :
        (p : OpenPosition Float)
        → member ctx.action_type (exit_actions ++ flipping_actions) ≡ true
        → lookup symbol t.account.positions ≡ some p
        → is_closable N p fill.avg_price fill.qty ≡ true
        → first_text ctx.side fill.side ≡ opposite p.side
        → FitsBook symbol fill ctx t

  -- With the ledger switched on and there, for a symbol in normal form, if the live book and the
  -- session ledger agree on it, they agree after a fill that fits the book: an entry with a price
  -- in the direction of the position, if there is one, or an exit or flip with valid figures of a
  -- held position from the other side.
  pub fill_keeps_agreement :
      (symbol : Text) (fill : LiveFill Float) (ctx : Pending Float) (rows : List (BrokerRow Float))
      (book : Call (Option (List (BookOrder Float)))) (ledger : Dict ℤ) (t : LiveTrader Float Store)
      → HasLedger environ t.ledger ledger
      → normalize_symbol symbol ≡ symbol
      → is_empty symbol ≡ false
      → FitsBook symbol fill ctx t
      → signed (lookup symbol t.account.positions) ≡ entry symbol (get_session_ledger t.ledger)
      → (let u = handle_filled N R environ symbol fill ctx rows book t in
          signed (lookup symbol u.account.positions) ≡ entry symbol (get_session_ledger u.ledger))
  unfolding handle_filled entry_filled exit_filled finalize_symbol_exit_fill
  fill_keeps_agreement symbol fill ctx rows book ledger t h n e (enters a b q s d o) agree =
      let positions = enter N symbol fill fill.avg_price t.account.positions in
      let u : LiveTrader Float Store = record t {
        account = record t.account { positions = positions };
      } in
      let computed : compute_ledger_qty_after_fill (entry symbol ledger) fill.qty ctx.action_type
            (first_text ctx.side fill.side)
          ≡ some (signed (lookup symbol positions)) =
        rw (sym (ledger_of t.ledger ledger h), sym agree, d)
          (enter-signed symbol ctx.action_type fill fill.avg_price t.account.positions s q o) in
      ground (
        arith,
        a,
        b,
        q,
        track-account symbol fill ctx u,
        track-entry symbol fill ctx (signed (lookup symbol positions)) ledger u h n e q computed,
      )
  fill_keeps_agreement symbol fill ctx rows book ledger t h n e (leaves p a f ok side) agree =
      let same = agree ∙ ap (entry symbol) (ledger_of t.ledger ledger h) in
      let held = ap signed (sym f) ∙ same in
      let taken : LiveFill Float = record fill { side = first_text ctx.side fill.side } in
      let pre_exit : OpenPosition Float = elim ctx.pre_exit_position [
        | some snapshot ↦ snapshot
        | none ↦ snapshot_position_for_exit N symbol rows t.account.positions
      ] in
      let priced = closable-price p fill.avg_price fill.qty ok in
      ground (
        arith,
        a,
        f,
        n,
        priced.0,
        priced.1,
        exit-Agree symbol fill ctx p none ledger t h n e f ok side held,
        exit-Agree symbol taken ctx p (some pre_exit) ledger t h n e f ok
            (first_text-twice ctx.side fill.side ∙ side) held,
      )
