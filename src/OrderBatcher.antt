-- ===== src/OrderBatcher.antt =====
-- `OrderRequest` and `OrderBatcher` of order_execution.py: the four queues of a cycle's orders and the
-- order in which they are sent. An order's price fields and metadata are not read here; `tag` stands
-- for them, so that orders stay apart.
pub mod Priority
use mintzy_plugin_kelly_opt.Base.{
  ℕ, ◌+◌, Bool, true, false, ◌&&◌, ◌||◌, List, [], ◌∷◌, ◌++◌, is_empty, length, if◌then◌else◌,
}
use mintzy_plugin_kelly_opt.Base.Int.{ℤ}
use mintzy_plugin_kelly_opt.Base.Text.{Text, codes, text_eq, upper, lower}

pub record OrderRequest : Type 0 where
  pub symbol : Text
  pub side : Text
  pub qty : ℤ
  pub tag : ℕ

pub record OrderBatcher : Type 0 where
  pub buy_orders : List OrderRequest
  pub sell_orders : List OrderRequest
  pub cover_orders : List OrderRequest
  pub exit_orders : List OrderRequest

abbrev pub empty : OrderBatcher
empty = record { buy_orders = []; sell_orders = []; cover_orders = []; exit_orders = [] }

abbrev pub to_buy : OrderBatcher → OrderRequest → OrderBatcher
to_buy b order = record b { buy_orders = b.buy_orders ++ order ∷ [] }

abbrev pub to_sell : OrderBatcher → OrderRequest → OrderBatcher
to_sell b order = record b { sell_orders = b.sell_orders ++ order ∷ [] }

-- The queue of a category, tested in the source's order.
unfoldable pub add_order : OrderBatcher → OrderRequest → Text → OrderBatcher
add_order b order order_category =
    let category = lower order_category in
    let side = upper order.side in
    if text_eq category (codes "buy") || text_eq side (codes "BUY")
    then to_buy b order
    else if (text_eq category (codes "sell") || text_eq category (codes "short"))
        || text_eq side (codes "SELL")
    then to_sell b order
    else if text_eq category (codes "cover")
    then record b { cover_orders = b.cover_orders ++ order ∷ [] }
    else if text_eq category (codes "exit")
    then record b { exit_orders = b.exit_orders ++ order ∷ [] }
    else if text_eq side (codes "BUY")
    then to_buy b order
    else to_sell b order

unfoldable pub get_all_orders : OrderBatcher → Text → List OrderRequest
get_all_orders b priority =
    if text_eq priority (codes "exit_first")
    then b.exit_orders ++ (b.cover_orders ++ (b.sell_orders ++ b.buy_orders))
    else b.buy_orders ++ (b.sell_orders ++ (b.cover_orders ++ b.exit_orders))

unfoldable pub clear : OrderBatcher → OrderBatcher
clear b = empty

unfoldable pub batch_is_empty : OrderBatcher → Bool
batch_is_empty b =
    is_empty b.buy_orders
    && (is_empty b.sell_orders && (is_empty b.cover_orders && is_empty b.exit_orders))

unfoldable pub get_count : OrderBatcher → ℕ
get_count b =
    length b.buy_orders + length b.sell_orders + length b.cover_orders + length b.exit_orders
