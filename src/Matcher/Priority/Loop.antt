-- ===== src/Matcher/Priority/Loop.antt =====
-- exchange/matcher/me_order_book.cpp, `checkForMatch` for a buy within the best level of the asks.
use mathlib.Core.Path.{subst}
use mathlib.Core.List.{map}
use low_latency_learn.Base.{
  ℕ, zero, suc, ◌+◌, ◌-◌, ◌≤◌, ◌<◌, ◌^◌, ◌%◌, ◌≡◌, refl, sym, ap, ◌∙◌, inl, inr, true, false, some,
  List, [], ◌∷◌, All, arith, length, ltb, update_self, ◌==◌, Bool-cases, Outcome, ok,
}
use low_latency_learn.Base.Int.{ltb_ℤ}
use low_latency_learn.Types.{Side, Price}
use low_latency_learn.Book.{
  Book, order_at, level_at, put_order, get_orders_at_price, price_to_index,
}
use low_latency_learn.Book.Queues.{Holds}
use low_latency_learn.Matcher.{MeOrderBook, MeOrderKey, match_order, match_loop, check_for_match}
use low_latency_learn.Matcher.Priority.{
  total, qty_in, IsResting, All-Beside, map-resting, Holds-put_order, IsTraded, Beside-put_order,
}
use low_latency_learn.Matcher.Priority.Published.{IsPublished}
use low_latency_learn.Matcher.Priority.Sent.{
  IsPublished-nothing, IsPublished-part, IsPublished-first,
}
use low_latency_learn.Matcher.Priority.Removal.{match_order-first, match_order-part}

module _ (ticker_id client_id : ℕ) (side : Side) (client_order_id id : ℕ) where
  -- The loop over the asks.
  abbrev loop : (fuel : ℕ) → MeOrderBook → Price → (leaves : ℕ) → Outcome (ℕ × MeOrderBook)
  loop fuel b price leaves =
      match_loop fuel b (λ book. book.asks_by_price) client_id client_order_id ticker_id side price
        leaves id

  -- The loop trades the queue of the best level, first order first.
  abbrev Trades :
      (fuel : ℕ)
      → MeOrderBook
      → (limit : Price) → (level : ℕ) → (ℕ → ℕ)
      → (leaves : ℕ) → List ℕ
      → Type 0
  Trades fuel b limit level qty leaves q =
      (b' : MeOrderBook) × (loop fuel b limit leaves ≡ ok (0, b'))
      × IsTraded b'.book level qty leaves q
      × IsPublished ticker_id side b b' qty leaves q

  loop-zero :
      (fuel : ℕ) (b : MeOrderBook) (limit : Price) (level : ℕ)
      → b.book.asks_by_price ≡ some level
      → loop (suc fuel) b limit 0 ≡ ok (0, b)
  unfolding match_loop
  loop-zero fuel b limit level best = simp (best, match_loop) refl

  loop-round :
      (fuel : ℕ) (b b' : MeOrderBook) (limit price : Price) (leaves leaves' level x : ℕ)
      → b.book.asks_by_price ≡ some level
      → (level_at b.book level).first_order ≡ some x
      → (order_at b.book x).price ≡ price
      → ltb_ℤ limit price ≡ false
      → (leaves == 0) ≡ false
      → match_order b ticker_id client_id side client_order_id id x leaves ≡ ok (leaves', b')
      → loop (suc fuel) b limit leaves ≡ loop fuel b' limit leaves'
  unfolding match_loop
  loop-round fuel b b' limit price leaves leaves' level x best first at near some_left one =
      rw (best, first, at, near, some_left, one, match_loop) refl

  loop-nothing :
      (fuel : ℕ) (b : MeOrderBook) (limit price : Price) (qty : ℕ → ℕ) (leaves level x : ℕ)
      (rest : List ℕ)
      → b.book.asks_by_price ≡ some level
      → Holds b.book level x rest
      → All (IsResting b.book price qty) (x ∷ rest)
      → leaves ≡ 0
      → Trades (suc fuel) b limit level qty leaves (x ∷ rest)
  loop-nothing fuel b limit price qty leaves level x rest best h r nothing =
      let first : ltb leaves (qty x) ≡ true = ground (arith, nothing, r.0.positive) in
      let whole : qty x ≡ qty x - leaves = omega (arith, nothing) in
      (
        b,
        subst (λ n. loop (suc fuel) b limit n ≡ ok (0, b)) (sym nothing)
            (loop-zero fuel b limit level best),
        record {
          queue = rw first h;
          qtys =
              rw first
                (map-resting b.book price qty (x ∷ rest) r ∙ ap (λ n. n ∷ map qty rest) whole);
        },
        IsPublished-nothing ticker_id side b qty leaves x rest r.0.quantity nothing first,
      )

  loop-part :
      (fuel : ℕ) (b : MeOrderBook) (limit price : Price) (qty : ℕ → ℕ) (leaves level x : ℕ)
      (rest : List ℕ)
      → b.book.asks_by_price ≡ some level
      → ltb_ℤ limit price ≡ false
      → Holds b.book level x rest
      → All (IsResting b.book price qty) (x ∷ rest)
      → (leaves == 0) ≡ false
      → ltb leaves (qty x) ≡ true
      → Trades (suc (suc fuel)) b limit level qty leaves (x ∷ rest)
  loop-part fuel b limit price qty leaves level x rest best near h r some_left less =
      let (b₁, one, same, sent) =
        match_order-part ticker_id client_id side client_order_id id b price qty leaves x r.0
          less in
      let n = qty x - leaves in
      let c : Book MeOrderKey = put_order b.book x (record (order_at b.book x) { qty = n }) in
      let mine : qty_in c x ≡ n =
        ap (λ o. o.qty)
          (update_self b.book.order_pool.object x (record (order_at b.book x) { qty = n })) in
      let kept =
        All-Beside x b.book c price qty rest (Beside-put_order b.book x n) h.distinct.0 r.1 in
      let traded : IsTraded c level qty leaves (x ∷ rest) = record {
        queue = rw less (Holds-put_order b.book x n level x rest h);
        qtys = rw less (
            ap (λ m. m ∷ map (qty_in c) rest) mine
            ∙ ap (λ l. n ∷ l) (map-resting c price qty rest kept));
      } in
      (
        b₁,
        loop-round (suc fuel) b b₁ limit price leaves 0 level x best h.first r.0.at_price near
              some_left one
            ∙ loop-zero fuel b₁ limit level (ap (λ k. k.asks_by_price) same ∙ best),
        subst (λ k. IsTraded k level qty leaves (x ∷ rest)) (sym same) traded,
        IsPublished-part ticker_id side b qty leaves x rest r.0.quantity b₁ same sent some_left less
            h.distinct.0,
      )

  loop-Trades :
      (fuel : ℕ) (b : MeOrderBook) (limit price : Price) (qty : ℕ → ℕ) (leaves level x : ℕ)
      (rest : List ℕ)
      → b.book.asks_by_price ≡ some level
      → get_orders_at_price b.book price ≡ some level
      → ltb_ℤ limit price ≡ false
      → Holds b.book level x rest
      → All (IsResting b.book price qty) (x ∷ rest)
      → leaves < 2 ^ 32
      → leaves < total qty (x ∷ rest)
      → length (x ∷ rest) + 1 < fuel
      → Trades fuel b limit level qty leaves (x ∷ rest)
  unfolding get_orders_at_price
  loop-Trades zero b limit price qty leaves level x rest best at near h r small few hf =
      ground (arith, hf)
  loop-Trades (suc zero) b limit price qty leaves level x rest best at near h r small few hf =
      ground (arith, hf)
  loop-Trades (suc (suc fuel)) b limit price qty leaves level x [] best at near h r small few hf =
      elim (Bool-cases (leaves == 0)) [
        | inl over ↦
            loop-nothing (suc fuel) b limit price qty leaves level x [] best h r
              (ground (arith, over))
        | inr some_left ↦
            loop-part fuel b limit price qty leaves level x [] best near h r some_left
              (ground (arith, few))
      ]
  loop-Trades (suc (suc fuel)) b limit price qty leaves level x (y ∷ ys) best at near h r small few
        hf =
      elim (Bool-cases (leaves == 0)) [
        | inl over ↦
            loop-nothing (suc fuel) b limit price qty leaves level x (y ∷ ys) best h r
              (ground (arith, over))
        | inr some_left ↦ elim (Bool-cases (ltb leaves (qty x))) [
          | inl less ↦
              loop-part fuel b limit price qty leaves level x (y ∷ ys) best near h r some_left less
          | inr enough ↦
              let (b₁, one, queue, k, sent) =
                match_order-first ticker_id client_id side client_order_id id b price qty leaves
                  level x y ys at h r.0 small enough in
              let le : qty x ≤ leaves = ground (arith, enough) in
              let (b', done, t, p) =
                loop-Trades (suc fuel) b₁ limit price qty (leaves - qty x) level y ys
                  (k.asks ∙ best) (ap (λ f. f (price_to_index price)) k.levels ∙ at) near queue
                  (All-Beside x b.book b₁.book price qty (y ∷ ys) k h.distinct.0 r.1)
                  (omega (arith, small)) (omega (arith, few, le)) (omega (arith, hf)) in
              (
                b',
                loop-round (suc fuel) b b₁ limit price leaves (leaves - qty x) level x best h.first
                      r.0.at_price near some_left one
                    ∙ done,
                record { queue = rw enough t.queue; qtys = rw enough t.qtys },
                IsPublished-first ticker_id side b qty leaves x (y ∷ ys) r.0.quantity b₁ b' k sent
                    some_left enough h.distinct.0 p,
              )
        ]
      ]

-- A buy at the best ask's price or above, of less than what rests there, is filled completely by the
-- queue of that level in its order: of the orders at the front those that it covers are gone, the
-- first one left has lost what the others did not give, and those behind it have lost nothing. The
-- updates that are sent are, order by order, the trade and the end or the new quantity of the order,
-- and the ids and quantities of the queue that is left are what these leave of those before. The
-- asks rest at one price, in blocks of the pool, of which there are as many as orders at least, and
-- under places of the array of orders; all quantities are 32-bit words, and those that rest are
-- above 0.
pub check_for_match-Trades :
    (b : MeOrderBook) (client_id client_order_id ticker_id : ℕ) (limit price : Price) (qty : ℕ → ℕ)
    (leaves id level x : ℕ) (rest : List ℕ)
    → b.book.asks_by_price ≡ some level
    → get_orders_at_price b.book price ≡ some level
    → ltb_ℤ limit price ≡ false
    → Holds b.book level x rest
    → All (IsResting b.book price qty) (x ∷ rest)
    → length (x ∷ rest) ≤ b.book.order_pool.size
    → leaves < 2 ^ 32
    → leaves < total qty (x ∷ rest)
    → (b' : MeOrderBook) × (check_for_match b client_id client_order_id ticker_id Side.buy limit
          leaves id
        ≡ ok (0, b'))
      × IsTraded b'.book level qty leaves (x ∷ rest)
      × IsPublished ticker_id Side.buy b b' qty leaves (x ∷ rest)
unfolding check_for_match
check_for_match-Trades b client_id client_order_id ticker_id limit price qty leaves id level x rest
      best at near h r fits small few =
    loop-Trades ticker_id client_id Side.buy client_order_id (id % 2 ^ 32)
      (suc (suc b.book.order_pool.size)) b limit price qty leaves level x rest best at near h r
      small few (omega (arith, fits))
