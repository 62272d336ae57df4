-- ===== src/Pyramid/Stop/Seen.antt =====
-- What the evaluation of an entry may change: entry prices that are missing, which it fills in with the
-- broker's price. The profit of a symbol stays the same.
use mintzy_plugin_kelly_opt.Base.{
  Bool, true, false, Option, some, List, ◌≡◌, sym as p_sym, ap, subst, not, ◌||◌, Bool-cases, ◌∙◌,
  ◌⊎◌, arith, inl, inr, Option-cases,
}
use mintzy_plugin_kelly_opt.Base.Int.{ℤ}
use mintzy_plugin_kelly_opt.Base.Text.{Text, text_eq, text_eq_iff, upper, drop_eq_suffix}
use mintzy_plugin_kelly_opt.Base.Dict.{Dict, lookup, lookup-insert}
use mintzy_plugin_kelly_opt.Number.{Number}
use mintzy_plugin_kelly_opt.Decimals.{Decimals}
use mintzy_plugin_kelly_opt.PaperEngine.{PaperPosition, OpenPosition}
use mintzy_plugin_kelly_opt.Pyramid.Document.{Entry}
use mintzy_plugin_kelly_opt.Pyramid.Merge.{Mongo}
use mintzy_plugin_kelly_opt.Pyramid.Simulator.{Simulator}
use mintzy_plugin_kelly_opt.Pyramid.Unrealized.{
  get_session_id_for_db, get_exited_symbol_doc, broker_price, calculate_pnl, entry_ltp, last_price,
  get_symbol_unrealized_pnl,
}
use mintzy_plugin_kelly_opt.Pyramid.Apply.{evaluate}

-- The fields that decide whether a symbol is exited and which profit it has.
pub record BookFields (F : Type 0) : Type 0 where
  pub ui_session_id : Option Text
  pub session_id : Option Text
  pub has_collection : Bool
  pub exited_symbols : List Text
  pub live_pnl : Dict F
  pub cycle_ltp_cache : Dict F
  pub paper_positions : Dict (PaperPosition F)
  pub broker_positions_cache : List (Text × F)
  pub positions : Dict (OpenPosition F)

module _ {F S P : Type 0} where
  abbrev pub books : Simulator F S P → BookFields F
  books t = record {
    ui_session_id = t.ui_session_id;
    session_id = t.session_id;
    has_collection = t.has_collection;
    exited_symbols = t.exited_symbols;
    live_pnl = t.live_pnl;
    cycle_ltp_cache = t.cycle_ltp_cache;
    paper_positions = t.paper_positions;
    broker_positions_cache = t.broker_positions_cache;
    positions = t.positions;
  }

  module _ (M : Mongo F) where
    open M use {Store}

    pub get_exited-books :
        (s : Text) (t u : Simulator F S P) (st : Store)
        → books t ≡ books u
        → get_exited_symbol_doc M s t st ≡ get_exited_symbol_doc M s u st
    unfolding get_exited_symbol_doc get_session_id_for_db
    get_exited-books s t u st h = ground arith

module _ (N : Number) (D : Decimals N) where
  open N use {Float, zero, le, is_pos}

  -- `x > 0` is false where `x <= 0`.
  abbrev pub IsOrdered : Type 0
  IsOrdered = (x : Float) → le x zero ≡ true → is_pos x ≡ false

  -- What the evaluation of a profit does to the positions.
  calculate_pnl-positions :
      (sym : Text) (ltp : Float) (rows : List (Text × Float))
      (positions : Dict (OpenPosition Float)) (k : Text)
      → (lookup k (calculate_pnl N D sym ltp rows positions).1 ≡ lookup k positions)
        ⊎ ((p : OpenPosition Float) × (price : Float) × (sym ≡ k)
            × (lookup sym positions ≡ some p)
            × (le p.entry_price zero ≡ true)
            × (broker_price N D sym rows ≡ some price)
            × (lookup k (calculate_pnl N D sym ltp rows positions).1
                ≡ some (record p { entry_price = price })))
  unfolding calculate_pnl
  calculate_pnl-positions sym ltp rows positions k = elim (Option-cases (lookup sym positions)) [
    | inl q ↦ inl (ground arith)
    | inr (p, q) ↦ elim (Option-cases (broker_price N D sym rows)) [
      | inl b ↦ inl (ground arith)
      | inr (price, b) ↦
          let written = lookup-insert sym k (record p { entry_price = price }) positions in
          elim (Bool-cases (le ltp zero || (not (le p.entry_price zero) || not (text_eq sym k)))) [
            | inl w ↦ inl (ground (arith, written))
            | inr w ↦ inr (
              p,
              price,
              (text_eq_iff sym k).0 (ground arith),
              q,
              ground arith,
              b,
              ground (arith, written),
            )
          ]
    ]
  ]

  module _ (M : Mongo Float) {S P : Type 0} where
    open M use {Store}

    -- A position of a symbol as it is, or with the broker's price for a missing entry price, where
    -- the symbol has a last price.
    abbrev SeenAt :
        Simulator Float S P
        → Text
        → Option (OpenPosition Float)
        → Option (OpenPosition Float)
        → Type 0
    SeenAt t k a b =
        (b ≡ a)
        ⊎ ((p : OpenPosition Float) × (price : Float) × (x : Float) × (a ≡ some p)
            × (le p.entry_price zero ≡ true)
            × (broker_price N D k t.broker_positions_cache ≡ some price)
            × (last_price N D M k t ≡ some x)
            × (b ≡ some (record p { entry_price = price })))

    -- The same trader, but for entry prices that the evaluation has filled in.
    abbrev pub Seen : Simulator Float S P → Simulator Float S P → Type 0
    Seen t u =
        (books (record u { positions = t.positions }) ≡ books t)
        × ((k : Text) → SeenAt t k (lookup k t.positions) (lookup k u.positions))

    pub books-Seen : (t u : Simulator Float S P) → books u ≡ books t → Seen t u
    books-Seen t u h =
        let same : u.positions ≡ t.positions = ap (λ b. b.positions) h in
        (ground (arith, h), λ k. inl (ap (lookup k) same))

    last_price-Seen :
        IsOrdered
        → (s : Text) (t u : Simulator Float S P) → Seen t u
        → last_price N D M s u ≡ last_price N D M s t
    unfolding last_price entry_ltp
    last_price-Seen ordered s t u (same, at) = elim (at s) [
      | inl e ↦ ground (arith, e, same)
      | inr (p, price, x, a, missing, b, l, e) ↦
          let never = ordered p.entry_price missing in ground (arith, e, a, l, never, same)
    ]

    calculate_pnl-Seen :
        (s : Text) (ltp : Float) (t u : Simulator Float S P)
        → Seen t u
        → (calculate_pnl N D s ltp u.broker_positions_cache u.positions).0
          ≡ (calculate_pnl N D s ltp t.broker_positions_cache t.positions).0
    unfolding calculate_pnl
    calculate_pnl-Seen s ltp t u (same, at) = elim (at s) [
      | inl e ↦ ground (arith, e, same)
      | inr (p, price, x, a, missing, b, l, e) ↦ ground (arith, e, a, b, missing, same)
    ]

    pub exited-Seen :
        (s : Text) (t u : Simulator Float S P) (st : Store)
        → Seen t u
        → get_exited_symbol_doc M s u st ≡ get_exited_symbol_doc M s t st
    unfolding get_exited_symbol_doc get_session_id_for_db
    exited-Seen s t u st h = get_exited-books M s (record u { positions = t.positions }) t st h.0

    pub pnl-Seen :
        IsOrdered
        → (s : Text) (t u : Simulator Float S P) (st : Store) → Seen t u
        → (get_symbol_unrealized_pnl N D M s u st).0 ≡ (get_symbol_unrealized_pnl N D M s t st).0
    unfolding get_symbol_unrealized_pnl
    pnl-Seen ordered s t u st h =
        let sym = drop_eq_suffix (upper s) in
        let same = h.0 in
        let last = last_price-Seen ordered sym t u h in
        let exits = exited-Seen sym t u st h in
        elim (Option-cases (last_price N D M sym t)) [
          | inl q ↦ ground (arith, last, exits, same)
          | inr (x, q) ↦ ground (arith, last, exits, same, calculate_pnl-Seen sym x t u h)
        ]

    -- A filled-in price is the broker's, wherever the evaluation fills it in.
    filled-SeenAt :
        IsOrdered
        → (sym : Text) (ltp : Float) (t u : Simulator Float S P) → Seen t u
        → last_price N D M sym u ≡ some ltp
        → (k : Text)
        → SeenAt t k
            (lookup k t.positions)
            (lookup k (calculate_pnl N D sym ltp u.broker_positions_cache u.positions).1)
    unfolding calculate_pnl
    filled-SeenAt ordered sym ltp t u h last k =
        let same = h.0 in
        let last_t : last_price N D M sym t ≡ some ltp =
          p_sym (last_price-Seen ordered sym t u h) ∙ last in
        elim (calculate_pnl-positions sym ltp u.broker_positions_cache u.positions k) [
          | inl kept ↦ subst (SeenAt t k (lookup k t.positions)) (p_sym kept) (h.1 k)
          | inr (p, price, e, held, missing, b, filled) ↦ elim (h.1 k) [
            | inl untouched ↦
                inr (p, price, ltp, ground arith, missing, ground arith, ground arith, filled)
            | inr (p0, price0, x0, a0, m0, b0, l0, e0) ↦
                inr (p0, price0, x0, a0, m0, b0, l0, ground arith)
          ]
        ]

    -- The evaluation of an entry fills in no other prices.
    pub evaluate-Seen :
        IsOrdered
        → (rank_map : Dict ℤ) (st : Store) (e : Text × (Entry Float × Float))
          (t u : Simulator Float S P)
        → Seen t u
        → Seen t (evaluate N D M rank_map st e u).1
    unfolding evaluate get_symbol_unrealized_pnl
    evaluate-Seen ordered rank_map st (s, (entry, cap)) t u h =
        let sym = drop_eq_suffix (upper s) in
        let same = h.0 in
        (
          ground (arith, same),
          elim (Option-cases (last_price N D M sym u)) [
            | inl q ↦ λ k. let seen = h.1 k in ground (arith, seen)
            | inr (x, q) ↦
                λ k. let seen = h.1 k in ground (arith, seen, filled-SeenAt ordered sym x t u h q k)
          ],
        )
