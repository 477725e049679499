-- ===== src/MarketBook/Queue.antt =====
-- trading/strategy/market_order_book.cpp: a level of the book as the queue of ids and quantities that
-- it stands for. Changes has the updates of one order, Best the best bid.
pub mod Changes
pub mod Cancels
pub mod With
pub mod Adds
pub mod Best
pub mod Sides
pub mod Updates
use mathlib.Core.List.{map}
use low_latency_learn.Base.{
  ℕ, ◌+◌, ◌<◌, ◌^◌, ◌≡◌, ◌≢◌, refl, sym, ap, ap₂, ◌∙◌, inl, inr, Bool, true, false, ◌||◌, Option,
  none, some, List, [], ◌∷◌, ◌++◌, arith, ltb, ◌==◌, if◌then◌else◌, Bool-cases, ok,
}
use low_latency_learn.Types.{Side, Price, me_max_order_ids}
use low_latency_learn.Messages.{MeMarketUpdate, MarketUpdateType}
use low_latency_learn.MemPool.{MemPool, IsValid}
use low_latency_learn.Book.{Order, Book, order_at, level_at, get_orders_at_price}
use low_latency_learn.Book.Ring.{has, IsDistinct, erase}
use low_latency_learn.Book.Blocks.{has-erase_of}
use low_latency_learn.Book.Queues.{HoldsAll}

-- The id of an order, and its quantity.
abbrev pub Quote : Type 0
Quote = ℕ × ℕ

abbrev pub quote_of : Book ℕ → ℕ → Quote
quote_of b a = ((order_at b a).key, (order_at b a).qty)

abbrev pub has_id : ℕ → List Quote → Bool
has_id id [] = false
has_id id ((k, n) ∷ q) = (id == k) || has_id id q

-- The queue with another quantity for an order, and without an order.
abbrev pub requote : (id qty : ℕ) → List Quote → List Quote
requote id qty [] = []
requote id qty ((k, n) ∷ q) = (k, if id == k then qty else n) ∷ requote id qty q

abbrev pub unquote : (id : ℕ) → List Quote → List Quote
unquote id [] = []
unquote id ((k, n) ∷ q) = if id == k then q else (k, n) ∷ unquote id q

-- What an update makes of the queue of its price.
abbrev pub after_as : MarketUpdateType → (id qty : ℕ) → List Quote → List Quote
after_as MarketUpdateType.add id qty q = q ++ ((id, qty) ∷ [])
after_as MarketUpdateType.modify id qty q = requote id qty q
after_as MarketUpdateType.cancel id qty q = unquote id q
after_as _ id qty q = q

abbrev pub after : MeMarketUpdate → List Quote → List Quote
after u q = after_as u.type u.order_id u.qty q

-- The order in the block `a` is in the book under its id, at this price.
pub record IsShown (b : Book ℕ) (price : Price) (a : ℕ) : Type 0 where
  pub at_price : (order_at b a).price ≡ price
  pub has_place : ltb (order_at b a).key me_max_order_ids ≡ true
  pub filed : b.slot_to_order (order_at b a).key ≡ some a
  pub small : (order_at b a).qty < 2 ^ 32
  pub in_use : b.order_pool.is_free a ≡ false
  pub in_pool : a < b.order_pool.size

-- The level, of this price, shows this queue.
pub record Shows (b : Book ℕ) (price : Price) (level : ℕ) (q : List Quote) : Type 0 where
  pub blocks : List ℕ
  pub queue : HoldsAll b level blocks
  pub quotes : map (quote_of b) blocks ≡ q
  pub orders : (a : ℕ) → has a blocks ≡ true → IsShown b price a
  pub found : get_orders_at_price b price ≡ some level
  pub level_price : (level_at b level).price ≡ price
  pub valid : IsValid b.order_pool

-- The update can be done: a new order has an id of its own and leaves a free block in the pool, and
-- an order that is changed or leaves is in the queue, where it leaves not the only one.
abbrev pub AllowedAs : MarketUpdateType → Book ℕ → (id : ℕ) → List Quote → Type 0
AllowedAs MarketUpdateType.add b id q =
    (ltb id me_max_order_ids ≡ true)
    × (has_id id q ≡ false)
    × (j : ℕ) × (j < b.order_pool.size)
    × (j ≢ b.order_pool.next_free_index)
    × (b.order_pool.is_free j ≡ true)
AllowedAs MarketUpdateType.modify b id q = has_id id q ≡ true
AllowedAs MarketUpdateType.cancel b id q = (has_id id q ≡ true) × (unquote id q ≢ [])
AllowedAs MarketUpdateType.clear b id q = ⊥
AllowedAs _ b id q = Unit

abbrev pub Allowed : Book ℕ → MeMarketUpdate → List Quote → Type 0
Allowed b u q = AllowedAs u.type b u.order_id q

-- Where only the node `p` has the id, the quote of that node leaves.
pub unquote-map :
    (f : ℕ → Quote) (id p : ℕ) (xs : List ℕ)
    → ((a : ℕ) → has a xs ≡ true → (id == (f a).0) ≡ (p == a))
    → unquote id (map f xs) ≡ map f (erase p xs)
unquote-map f id p [] h = refl
unquote-map f id p (x ∷ xs) h =
    let here = h x (ground arith) in
    let rest = unquote-map f id p xs (λ a i. h a (ground arith)) in
    elim (Bool-cases (p == x)) [
      | inl e ↦ rw (here, e) refl
      | inr e ↦ rw (here, e) (ap (λ l. f x ∷ l) rest)
    ]

module _ (b : Book ℕ) where
  -- An id of the queue is that of one of its orders.
  pub has_id-quotes :
      (id : ℕ) (xs : List ℕ)
      → has_id id (map (quote_of b) xs) ≡ true
      → (a : ℕ) × (has a xs ≡ true) × ((order_at b a).key ≡ id)
  has_id-quotes id [] h = cc
  has_id-quotes id (x ∷ xs) h = elim (Bool-cases (id == (order_at b x).key)) [
    | inl e ↦ (x, ground arith, ground arith)
    | inr e ↦ let (a, i, k) = has_id-quotes id xs (ground arith) in (a, ground arith, k)
  ]

  pub has_id_ne :
      (id a : ℕ) (xs : List ℕ)
      → has_id id (map (quote_of b) xs) ≡ false
      → has a xs ≡ true
      → (order_at b a).key ≢ id
  has_id_ne id a [] h i = cc
  has_id_ne id a (x ∷ xs) h i = elim (Bool-cases (a == x)) [
    | inl e ↦ let same : a ≡ x = ground arith in ground (arith, ap (λ p. (order_at b p).key) same)
    | inr e ↦ has_id_ne id a xs (ground arith) (ground arith)
  ]

  -- The order that has the id, and no other one, is meant where the queue is changed.
  pub requote-quotes :
      (id qty p : ℕ) (xs : List ℕ)
      → ((a : ℕ) → has a xs ≡ true → (id == (order_at b a).key) ≡ (p == a))
      → requote id qty (map (quote_of b) xs)
        ≡ map (λ a. ((order_at b a).key, if p == a then qty else (order_at b a).qty)) xs
  requote-quotes id qty p [] h = refl
  requote-quotes id qty p (x ∷ xs) h =
      ap₂ (λ y ys. y ∷ ys)
        (ap (λ t. ((order_at b x).key, if t then qty else (order_at b x).qty)) (h x (ground arith)))
        (requote-quotes id qty p xs (λ a i. h a (ground arith)))

  -- Two orders that are filed under one id are the same.
  pub filed-same :
      (price : Price) (id p a : ℕ)
      → IsShown b price p
      → (order_at b p).key ≡ id
      → IsShown b price a
      → (id == (order_at b a).key) ≡ (p == a)
  filed-same price id p a h k i = elim (Bool-cases (p == a)) [
    | inl e ↦
        let same : p ≡ a = ground arith in
        let keys = ap (λ x. (order_at b x).key) same in ground (arith, keys, k)
    | inr e ↦ elim (Bool-cases (id == (order_at b a).key)) [
      | inl e' ↦
          let keys : (order_at b p).key ≡ (order_at b a).key = ground (arith, k) in
          let places : some p ≡ some a = sym h.filed ∙ ap b.slot_to_order keys ∙ i.filed in
          ground (arith, places)
      | inr e' ↦ rw (e, e') refl
    ]
  ]
