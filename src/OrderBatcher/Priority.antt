-- ===== src/OrderBatcher/Priority.antt =====
-- What `OrderBatcher` of order_execution.py keeps of the orders, and what its priority does.
use mathlib.Core.List.{Perm, perm_middle, append_assoc, append-nil}
use mathlib.Core.List.Perm
use mintzy_plugin_kelly_opt.Base.{
  ◌≡◌, refl, Bool, true, false, List, [], ◌∷◌, ◌++◌, length, length-append, if◌then◌else◌, arith,
  Bool-cases, inl, inr, ◌⊎◌, All, ◌∙◌,
}
use mintzy_plugin_kelly_opt.Base.Text.{Text, codes, text_eq, upper}
use mintzy_plugin_kelly_opt.OrderBatcher.{
  OrderRequest, OrderBatcher, empty, to_buy, to_sell, add_order, get_all_orders, get_count,
}

-- An element moves to the front past a list that stands before it.
past {ℓ} :
    {A : Type ℓ} (xs : List A) {ys zs : List A} {a : A}
    → Perm ys (a ∷ zs)
    → Perm (xs ++ ys) (a ∷ (xs ++ zs))
past xs {ys} {zs} {a} p = Perm.trans (Perm.append (Perm.refl xs) p) (perm_middle xs zs)

last_first {ℓ} : {A : Type ℓ} (xs : List A) (a : A) → Perm (xs ++ a ∷ []) (a ∷ xs)
last_first xs a = rw append-nil at (perm_middle {a = a} xs [])

-- The new order in one of four queues.
put_first {ℓ} : {A : Type ℓ} (xs ys : List A) (a : A) → Perm ((xs ++ a ∷ []) ++ ys) (a ∷ (xs ++ ys))
put_first xs ys a = rw append_assoc (past xs (Perm.refl (a ∷ ys)))

if_elim {ℓ κ} :
    {A : Type ℓ} (P : A → Type κ) (b : Bool) {x y : A} → P x → P y → P (if b then x else y)
if_elim P true p q = p
if_elim P false p q = q

-- What is sent is what was sent before and the new order, in some order.
abbrev Adds : Text → OrderBatcher → OrderRequest → OrderBatcher → Type 0
Adds priority b order b' = Perm (get_all_orders b' priority) (order ∷ get_all_orders b priority)

to_buy-Adds :
    (priority : Text) (b : OrderBatcher) (o : OrderRequest) → Adds priority b o (to_buy b o)
unfolding get_all_orders
to_buy-Adds priority b o = elim (Bool-cases (text_eq priority (codes "exit_first"))) [
  | inl e ↦
      rw e
        (past b.exit_orders (past b.cover_orders (past b.sell_orders (last_first b.buy_orders o))))
  | inr e ↦ rw e (put_first b.buy_orders _ o)
]

to_sell-Adds :
    (priority : Text) (b : OrderBatcher) (o : OrderRequest) → Adds priority b o (to_sell b o)
unfolding get_all_orders
to_sell-Adds priority b o = elim (Bool-cases (text_eq priority (codes "exit_first"))) [
  | inl e ↦ rw e (past b.exit_orders (past b.cover_orders (put_first b.sell_orders b.buy_orders o)))
  | inr e ↦ rw e (past b.buy_orders (put_first b.sell_orders _ o))
]

cover-Adds :
    (priority : Text) (b : OrderBatcher) (o : OrderRequest)
    → Adds priority b o (record b { cover_orders = b.cover_orders ++ o ∷ [] })
unfolding get_all_orders
cover-Adds priority b o = elim (Bool-cases (text_eq priority (codes "exit_first"))) [
  | inl e ↦ rw e (past b.exit_orders (put_first b.cover_orders _ o))
  | inr e ↦ rw e (past b.buy_orders (past b.sell_orders (put_first b.cover_orders b.exit_orders o)))
]

exit-Adds :
    (priority : Text) (b : OrderBatcher) (o : OrderRequest)
    → Adds priority b o (record b { exit_orders = b.exit_orders ++ o ∷ [] })
unfolding get_all_orders
exit-Adds priority b o = elim (Bool-cases (text_eq priority (codes "exit_first"))) [
  | inl e ↦ rw e (put_first b.exit_orders _ o)
  | inr e ↦
      rw e
        (past b.buy_orders (past b.sell_orders (past b.cover_orders (last_first b.exit_orders o))))
]

-- For every category and priority, what a batch sends after an order was added is what it sent
-- before and that order, in some order.
all-add :
    (b : OrderBatcher) (o : OrderRequest) (category priority : Text)
    → Perm (get_all_orders (add_order b o category) priority) (o ∷ get_all_orders b priority)
unfolding add_order
all-add b o category priority =
    let P = Adds priority b o in
    let buys : P (to_buy b o) = to_buy-Adds priority b o in
    let sells : P (to_sell b o) = to_sell-Adds priority b o in
    if_elim P _ buys (
      if_elim P _ sells (
        if_elim P _ (cover-Adds priority b o)
          (if_elim P _ (exit-Adds priority b o) (if_elim P _ buys sells))))

-- The count of a batch is the number of orders that it sends, for every priority.
count-all : (b : OrderBatcher) (priority : Text) → get_count b ≡ length (get_all_orders b priority)
unfolding get_count get_all_orders
count-all b priority = elim (Bool-cases (text_eq priority (codes "exit_first"))) [
  | inl e ↦ rw e (omega (arith, length-append {0}))
  | inr e ↦ rw e (omega (arith, length-append {0}))
]

-- The side of every order that the trader makes.
abbrev pub HasSide : OrderRequest × Text → Type 0
HasSide (o, category) =
    (text_eq (upper o.side) (codes "BUY") ≡ true) ⊎ (text_eq (upper o.side) (codes "SELL") ≡ true)

-- The orders added in turn, each with its category.
pub add_all : OrderBatcher → List (OrderRequest × Text) → OrderBatcher
add_all b [] = b
add_all b ((o, category) ∷ os) = add_all (add_order b o category) os

add-sided :
    (b : OrderBatcher) (o : OrderRequest) (category : Text)
    → HasSide (o, category)
    → ((add_order b o category).exit_orders ≡ b.exit_orders)
      × ((add_order b o category).cover_orders ≡ b.cover_orders)
unfolding add_order
add-sided b o category h = ground arith

add_all-sided :
    (b : OrderBatcher) (os : List (OrderRequest × Text))
    → All HasSide os
    → ((add_all b os).exit_orders ≡ b.exit_orders) × ((add_all b os).cover_orders ≡ b.cover_orders)
unfolding add_all
add_all-sided b [] h = (refl, refl)
add_all-sided b ((o, category) ∷ os) h =
    let (p, q) = add-sided b o category h.0 in
    let (p', q') = add_all-sided (add_order b o category) os h.1 in (p' ∙ p, q' ∙ q)

-- If every order added to an empty batch has side BUY or SELL, the exit and cover queues stay
-- empty whatever the categories, and the exit-first priority sends the sells and then the buys.
exit_first_sends_sells :
    (os : List (OrderRequest × Text))
    → All HasSide os
    → let b = add_all empty os in
      (b.exit_orders ≡ [])
      × (b.cover_orders ≡ [])
      × (get_all_orders b (codes "exit_first") ≡ b.sell_orders ++ b.buy_orders)
unfolding get_all_orders text_eq
exit_first_sends_sells os h = let (p, q) = add_all-sided empty os h in (p, q, rw (p, q))
