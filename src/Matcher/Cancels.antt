-- ===== src/Matcher/Cancels.antt =====
-- exchange/matcher/me_order_book.cpp, `cancel`.
use low_latency_learn.Base.{
  ℕ, ◌+◌, ◌<◌, ◌≡◌, ◌≢◌, refl, sym, ap, ◌∙◌, Bool-cases, ◌⊎◌, inl, inr, none, some, arith, ok,
  failed, out_of_fuel, Ends, Ends-bind, Ends-intro, >>=-eq-ok, update, ◌==◌, [], ◌∷◌, ◌++◌,
}
use low_latency_learn.Types.{
  Side, Price, me_max_num_clients, price_invalid, order_id_invalid, qty_invalid,
}
use low_latency_learn.Messages.{MeClientResponse, ClientResponseType, MarketUpdateType}
use low_latency_learn.Book.Pools.{IsRemoved, remove_order-Ends}
use low_latency_learn.MemPool.{MemPool, allocate, update_next_free_index}
use low_latency_learn.Matcher.Fills.{opposite, slot-ne_out_of_fuel}
use low_latency_learn.MemPool.Used.{used}
use low_latency_learn.Book.{
  Book, Order, order_at, link_order, add_orders_at_price, place_level, become_best, insert_behind,
  insert_before, add_order, remove_order,
}
use low_latency_learn.Matcher.{
  MeOrderBook, MeOrderKey, slot, order_index, find_order, cancel, add, check_for_match, match_loop,
  send_client_response, get_next_priority, rest_order, accept,
}

-- The response to a cancel that is refused.
abbrev pub cancel_rejected : (client_id order_id ticker_id : ℕ) → MeClientResponse
cancel_rejected client_id order_id ticker_id = record {
  type = ClientResponseType.cancel_rejected;
  client_id = client_id;
  ticker_id = ticker_id;
  client_order_id = order_id;
  market_order_id = order_id_invalid;
  side = Side.invalid;
  price = price_invalid;
  exec_qty = qty_invalid;
  leaves_qty = qty_invalid;
}

slot_to_order-link_order :
    (b : Book MeOrderKey) (p : ℕ) {b' : Book MeOrderKey}
    → link_order b p ≡ ok b'
    → b'.slot_to_order ≡ b.slot_to_order
unfolding link_order add_orders_at_price place_level become_best insert_behind insert_before
slot_to_order-link_order b p h = ground arith

key-link_order :
    (b : Book MeOrderKey) (p q : ℕ) {b' : Book MeOrderKey}
    → link_order b p ≡ ok b'
    → (order_at b' q).key ≡ (order_at b q).key
unfolding link_order add_orders_at_price place_level become_best insert_behind insert_before
key-link_order b p q h = ground arith

slot_to_order-add_order :
    (b : Book MeOrderKey) (p : ℕ) {b' : Book MeOrderKey}
    → add_order slot b p ≡ ok b'
    → (i : ℕ) × (slot (order_at b p).key ≡ ok i)
      × (b'.slot_to_order ≡ update b.slot_to_order i (some p))
unfolding add_order
slot_to_order-add_order b p {b'} h =
    let (b₁, e₁, h₁) = >>=-eq-ok (link_order b p) _ h in
    let (i, e₂, h₂) = >>=-eq-ok (slot (order_at b₁ p).key) _ h₁ in
    (i, ground (arith, key-link_order b p p e₁), ground (arith, slot_to_order-link_order b p e₁))

object-allocate :
    {T : Type 0} (pool : MemPool T) (v : T) {p : ℕ} {pool' : MemPool T}
    → allocate pool v ≡ ok (p, pool')
    → pool'.object p ≡ v
unfolding allocate update_next_free_index
object-allocate pool v h = ground arith

check_for_match-unopposed :
    (b : MeOrderBook) (client_id client_order_id ticker_id : ℕ) (side : Side) (price : Price)
    (qty id : ℕ)
    → opposite side b.book ≡ none
    → check_for_match b client_id client_order_id ticker_id side price qty id ≡ ok (qty, b)
unfolding check_for_match match_loop
check_for_match-unopposed b client_id client_order_id ticker_id Side.buy price qty id h =
    ground arith
check_for_match-unopposed b client_id client_order_id ticker_id Side.sell price qty id h =
    ground arith
check_for_match-unopposed b client_id client_order_id ticker_id Side.invalid price qty id h = refl

-- The rest of an order is put in the row of its ticker.
slot_to_order-rest_order :
    (b : MeOrderBook) (client_id order_id ticker_id : ℕ) (side : Side) (price : Price) (qty id : ℕ)
    {b' : MeOrderBook}
    → rest_order b client_id order_id ticker_id side price qty id ≡ ok b'
    → (i p : ℕ) × (order_index ticker_id order_id ≡ ok i)
      × (b'.book.slot_to_order ≡ update b.book.slot_to_order i (some p))
unfolding rest_order
slot_to_order-rest_order b client_id order_id ticker_id side price qty id {b'} h =
    let (priority, e₁, h₁) = >>=-eq-ok (get_next_priority b.book price) _ h in
    let (r, e₂, h₂) = >>=-eq-ok (allocate b.book.order_pool _) _ h₁ in
    let book₁ : Book MeOrderKey = record (b.book) { order_pool = r.1 } in
    let (book₂, e₃, h₃) = >>=-eq-ok (add_order slot book₁ r.0) _ h₂ in
    let (i, e₄, e₅) = slot_to_order-add_order book₁ r.0 e₃ in
    (
      i,
      r.0,
      sym (ap (λ (o : Order MeOrderKey). slot o.key) (object-allocate b.book.order_pool _ e₂)) ∙ e₄,
      ground (arith, e₅),
    )

other_row :
    (client_id ticker_id order_id i j : ℕ)
    → client_id ≢ ticker_id
    → order_index client_id order_id ≡ ok i
    → order_index ticker_id order_id ≡ ok j
    → j ≢ i
unfolding order_index
other_row client_id ticker_id order_id i j ne hi hj = ground arith

-- `add` files the rest of an order under the number of its ticker in place of its client, so that
-- the client who owns it cannot cancel it. If nothing opposes the order, so that it rests in the
-- book, and if the client's number is not that of the ticker and the client has no order filed under
-- the same order id, then the cancel that follows changes nothing in the book and is answered by
-- CANCEL_REJECTED.
pub cancel-add :
    (b : MeOrderBook) (client_id order_id ticker_id : ℕ) (side : Side) (price : Price) (qty : ℕ)
    {b' : MeOrderBook} {i : ℕ}
    → opposite side b.book ≡ none
    → client_id < me_max_num_clients
    → client_id ≢ ticker_id
    → order_index client_id order_id ≡ ok i
    → b.book.slot_to_order i ≡ none
    → add b client_id order_id ticker_id side price qty ≡ ok b'
    → cancel b' client_id order_id ticker_id
      ≡ ok (send_client_response b' (cancel_rejected client_id order_id ticker_id))
unfolding add cancel find_order
cancel-add b client_id order_id ticker_id side price qty {b'} {i} alone row ne at free h =
    let b₁ : MeOrderBook = accept b client_id order_id ticker_id side price qty in
    let id = b.next_market_order_id in
    let u = check_for_match-unopposed b₁ client_id order_id ticker_id side price qty id alone in
    let h₁ = rw u at h in
    let none_filed : b'.book.slot_to_order i ≡ none = elim (Bool-cases (qty == 0)) [
      | inl empty ↦ let h₂ = rw empty at h₁ in ground arith
      | inr more ↦
          let h₂ = rw more at h₁ in
          let (j, p, row', e) =
            slot_to_order-rest_order b₁ client_id order_id ticker_id side price qty id h₂ in
          ground (arith, other_row client_id ticker_id order_id i j ne at row', e)
    ] in
    ground arith

-- What a cancel that removes the order `p` does: its block of the pool, and no other, is given back,
-- its place in the array of orders, and no other, is cleared, and the update and the response both
-- name the order and the price of what was removed.
pub record Canceled (b b' : MeOrderBook) (p client_id order_id ticker_id : ℕ) : Type 0 where
  pub gone : IsRemoved slot b.book b'.book p
  pub freed : used b'.book.order_pool + 1 ≡ used b.book.order_pool
  pub answered :
      b'.client_responses
      ≡ b.client_responses
        ++ (record {
          type = ClientResponseType.canceled;
          client_id = client_id;
          ticker_id = ticker_id;
          client_order_id = order_id;
          market_order_id = (order_at b.book p).key.market_order_id;
          side = (order_at b.book p).side;
          price = (order_at b.book p).price;
          exec_qty = qty_invalid;
          leaves_qty = (order_at b.book p).qty;
        }
            ∷ [])
  pub published :
      b'.market_updates
      ≡ b.market_updates
        ++ (record {
          type = MarketUpdateType.cancel;
          order_id = (order_at b.book p).key.market_order_id;
          ticker_id = ticker_id;
          side = (order_at b.book p).side;
          price = (order_at b.book p).price;
          qty = 0;
          priority = (order_at b.book p).priority;
        }
            ∷ [])

abbrev pub Answered : MeOrderBook → (client_id order_id ticker_id : ℕ) → MeOrderBook → Type 0
Answered b client_id order_id ticker_id b' =
    ((find_order b client_id order_id ≡ ok none)
      × (b' ≡ send_client_response b (cancel_rejected client_id order_id ticker_id)))
    ⊎ ((p : ℕ) × (find_order b client_id order_id ≡ ok (some p))
        × Canceled b b' p client_id order_id ticker_id)

find_order-ne_out_of_fuel :
    (b : MeOrderBook) (client_id order_id : ℕ)
    → find_order b client_id order_id ≢ failed out_of_fuel
unfolding find_order order_index
find_order-ne_out_of_fuel b client_id order_id = ground arith

-- Every cancel is answered once. It runs no loop; where it returns, either no order was filed for
-- the client and the order id, and then a CANCEL_REJECTED is all that it adds; or there was one, and
-- then just the block of that order, which was in use, has become free in the pool of orders, just the
-- place of its key in the array of orders has been cleared, and the order is reported to the client
-- and to the market with its id, side and price.
pub cancel-Ends :
    (b : MeOrderBook) (client_id order_id ticker_id : ℕ)
    → Ends (Answered b client_id order_id ticker_id) (cancel b client_id order_id ticker_id)
unfolding cancel
cancel-Ends b client_id order_id ticker_id =
    Ends-bind (λ found. find_order b client_id order_id ≡ ok found)
      (Answered b client_id order_id ticker_id) (find_order b client_id order_id) _
      (Ends-intro _ _ (find_order-ne_out_of_fuel b client_id order_id) (λ found e. e))
      (elim [
        | none ↦ λ e. inl (e, refl)
        | some p ↦ λ e.
            Ends-bind _ (Answered b client_id order_id ticker_id) (remove_order slot b.book p) _
              (remove_order-Ends slot b.book p slot-ne_out_of_fuel)
              (λ book left. inr (
                p,
                e,
                record {
                  gone = record {
                    in_use = left.1.in_use;
                    is_free = left.1.is_free;
                    place = left.1.place;
                    placed = left.1.placed;
                    slots = left.1.slots;
                  };
                  freed = left.0;
                  answered = refl;
                  published = refl;
                },
              ))
      ])
