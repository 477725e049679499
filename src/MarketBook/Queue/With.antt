-- ===== src/MarketBook/Queue/With.antt =====
-- trading/strategy/market_order_book.cpp, `onMarketUpdate`: the orders before and after an ADD.
use mathlib.Core.List.{map}
use low_latency_learn.Base.{
  ℕ, ◌<◌, ◌^◌, ◌≡◌, ◌≢◌, sym, ap, ap₂, ◌∙◌, inl, inr, true, false, some, List, [], ◌∷◌, ◌++◌, arith,
  ltb, update, update_self, update_ne, ◌==◌, Bool-cases,
}
use mathlib.Core.Path.{subst}
use low_latency_learn.Types.{Price, me_max_order_ids}
use low_latency_learn.Messages.{MeMarketUpdate}
use low_latency_learn.Book.{Book, order_at}
use low_latency_learn.Book.Ring.{has, has_ne}
use low_latency_learn.Book.Blocks.{has-snoc, map-same, map-snoc}
use low_latency_learn.MarketBook.Queue.{quote_of, IsShown}

-- What an ADD does to the orders: the block `z` gets the new one, and the others keep theirs.
pub record IsWith (b b' : Book ℕ) (u : MeMarketUpdate) (z : ℕ) : Type 0 where
  pub new_key : (order_at b' z).key ≡ u.order_id
  pub new_price : (order_at b' z).price ≡ u.price
  pub new_qty : (order_at b' z).qty ≡ u.qty
  pub keys : (a : ℕ) → a ≢ z → (order_at b' a).key ≡ (order_at b a).key
  pub prices : (a : ℕ) → a ≢ z → (order_at b' a).price ≡ (order_at b a).price
  pub qtys : (a : ℕ) → a ≢ z → (order_at b' a).qty ≡ (order_at b a).qty
  pub slots : b'.slot_to_order ≡ update b.slot_to_order u.order_id (some z)
  pub is_free : b'.order_pool.is_free ≡ update b.order_pool.is_free z false
  pub size : b'.order_pool.size ≡ b.order_pool.size

module _ (b b' : Book ℕ) (u : MeMarketUpdate) (price : Price) (z : ℕ) (w : IsWith b b' u z) where
  pub IsShown-new :
      u.price ≡ price
      → ltb u.order_id me_max_order_ids ≡ true
      → u.qty < 2 ^ 32
      → z < b.order_pool.size
      → IsShown b' price z
  IsShown-new here place small inside = record {
    at_price = w.new_price ∙ here;
    has_place = ap (λ k. ltb k me_max_order_ids) w.new_key ∙ place;
    filed =
        ap b'.slot_to_order w.new_key
        ∙ ap (λ f. f u.order_id) w.slots
        ∙ update_self b.slot_to_order u.order_id (some z);
    small = rw w.new_qty small;
    in_use = ap (λ f. f z) w.is_free ∙ update_self b.order_pool.is_free z false;
    in_pool = rw w.size inside;
  }

  IsShown-old :
      (a : ℕ) → a ≢ z → (order_at b a).key ≢ u.order_id → IsShown b price a → IsShown b' price a
  IsShown-old a ne other s = record {
    at_price = w.prices a ne ∙ s.at_price;
    has_place = ap (λ k. ltb k me_max_order_ids) (w.keys a ne) ∙ s.has_place;
    filed =
        ap b'.slot_to_order (w.keys a ne)
        ∙ ap (λ f. f (order_at b a).key) w.slots
        ∙ update_ne b.slot_to_order u.order_id (order_at b a).key (some z) (λ e. other (sym e))
        ∙ s.filed;
    small = rw (w.qtys a ne) s.small;
    in_use =
        ap (λ f. f a) w.is_free
        ∙ update_ne b.order_pool.is_free z a false (λ e. ne (sym e))
        ∙ s.in_use;
    in_pool = rw w.size s.in_pool;
  }

  pub quotes-snoc :
      (xs : List ℕ)
      → has z xs ≡ false
      → map (quote_of b') (xs ++ (z ∷ [])) ≡ map (quote_of b) xs ++ ((u.order_id, u.qty) ∷ [])
  quotes-snoc xs out =
      let old : (a : ℕ) → has a xs ≡ true → quote_of b' a ≡ quote_of b a =
        λ a i. let d = has_ne a z xs i out in ap₂ (λ x y. (x, y)) (w.keys a d) (w.qtys a d) in
      map-snoc (quote_of b') xs z
      ∙ ap₂ (λ l p. l ++ (p ∷ [])) (map-same (quote_of b') (quote_of b) xs old)
          (ap₂ (λ x y. (x, y)) w.new_key w.new_qty)

  pub orders-snoc :
      (xs : List ℕ)
      → IsShown b' price z
      → ((a : ℕ) → has a xs ≡ true → (order_at b a).key ≢ u.order_id)
      → ((a : ℕ) → has a xs ≡ true → IsShown b price a)
      → (a : ℕ) → has a (xs ++ (z ∷ [])) ≡ true
      → IsShown b' price a
  orders-snoc xs new apart old a i = elim (Bool-cases (a == z)) [
    | inl e ↦ let same : z ≡ a = ground arith in subst (IsShown b' price) same new
    | inr e ↦
        let ne : a ≢ z = ground arith in
        let inside = has-snoc a xs z i ne in IsShown-old a ne (apart a inside) (old a inside)
  ]
