-- ===== src/Cycle/Effects.antt =====
-- What an order changes in the state of the cycle, and the two ways of queueing one.
use mintzy_plugin_kelly_opt.Base.{◌≡◌, true, List, [], ◌∷◌, ◌++◌, length, get_or, Option, Call}
use mintzy_plugin_kelly_opt.Base.Text.{Text}
use mintzy_plugin_kelly_opt.Base.Dict.{Dict, lookup, insert}
use mintzy_plugin_kelly_opt.Number.{Number}
use mintzy_plugin_kelly_opt.Decimals.{Decimals, real}
use mintzy_plugin_kelly_opt.Pyramid.Document.{Root}
use mintzy_plugin_kelly_opt.OrderBatcher.{OrderBatcher, add_order}
use mintzy_plugin_kelly_opt.Exposure.{stock_exposure, max_allowed}
use mintzy_plugin_kelly_opt.Cycle.{Note, Cycle}

-- The orders of the cycle, their metadata, and the reserved exposure.
pub record Slate (F : Type 0) : Type 0 where
  pub batch : OrderBatcher
  pub notes : List (Note F)
  pub reserved : Dict F

abbrev pub slate : {F S : Type 0} → Cycle F S → Slate F
slate c = record { batch = c.batch; notes = c.notes; reserved = c.desk.trader.reserved_exposure }

module _ (N : Number) (D : Decimals N) (json_loads : Text → Call (Option (Root N.Float))) where
  open N use {Float, zero, plus, le}

  module _ {S : Type 0} (sym : Text) (note : Note Float) (before : Slate Float)
      (c : Cycle Float S) where
    -- An order is queued, with its metadata.
    pub record Queued : Type 0 where
      pub category : Text
      pub new_batch :
          c.batch
          ≡ add_order before.batch
              (record { symbol = sym; side = note.side; qty = note.qty; tag = length before.notes })
              category
      pub new_notes : c.notes ≡ before.notes ++ note ∷ []

    -- The value of the order is reserved, and the exposure with it is within the cap.
    pub record Reserves : Type 0 where
      pub multiplier : Float
      pub kept_multiplier : c.desk.leverage_multiplier ≡ real multiplier
      pub within_cap :
          le
            (plus
              (plus
                (stock_exposure N D json_loads c.desk sym)
                (get_or (lookup sym before.reserved) zero))
              note.order_value)
            (max_allowed N D json_loads c.desk multiplier)
          ≡ true
      pub reserved :
          c.desk.trader.reserved_exposure
          ≡ insert sym
              (plus (get_or (lookup sym before.reserved) zero) note.order_value)
              before.reserved

  -- An order on a side, which reserves its value; and one which reserves nothing.
  pub record Enters {S : Type 0} (sym : Text) (side : Text) (before : Slate Float)
      (c : Cycle Float S) : Type 0 where
    pub note : Note Float
    pub on_side : note.side ≡ side
    pub queued : Queued sym note before c
    pub reserves : Reserves sym note before c

  pub record Leaves {S : Type 0} (sym : Text) (side : Text) (before : Slate Float)
      (c : Cycle Float S) : Type 0 where
    pub note : Note Float
    pub on_side : note.side ≡ side
    pub queued : Queued sym note before c
    pub same_reserved : c.desk.trader.reserved_exposure ≡ before.reserved
