-- ===== src/TradeEngine/Responses.antt =====
-- trading/strategy/trade_engine.cpp: what a round of `run` makes of the responses of the exchange.
use mathlib.Core.Path.{subst}
use low_latency_learn.Base.{
  ℕ, zero, suc, ◌<◌, ◌≡◌, refl, sym, ap, ◌∙◌, ◌⊎◌, inl, inr, ◌&&◌, List, [], ◌∷◌, arith, ◌==◌,
  lt→ltb, length, if◌then◌else◌, update, All, Bool-cases, Outcome, ok,
}
use low_latency_learn.Types.{Floats, TradeEngineCfg, AlgoType, side_to_index, me_max_tickers}
use low_latency_learn.Messages.{MeClientResponse}
use low_latency_learn.LfQueue.{size}
use low_latency_learn.LfQueue.Contents.{
  IsValid, contents, get_next_to_read-contents, update_read_index-contents, length-contents,
}
use low_latency_learn.Positions.{PositionInfo, add_fill, keeper_add_fill}
use low_latency_learn.Positions.Fills.{add_fills}
use low_latency_learn.OrderManager.{OrderManager, OmOrder, after_response, put_order}
use low_latency_learn.OrderManager
use low_latency_learn.TradeEngine.{
  TradeEngine, is_filled, on_order_update, algo_on_order_update, with_orders, run_responses,
}

-- The fills of an instrument, and the responses to its orders of one side.
abbrev pub fills_of : ℕ → List MeClientResponse → List MeClientResponse
fills_of t [] = []
fills_of t (r ∷ rs) =
    let rest = fills_of t rs in if is_filled r && (r.ticker_id == t) then r ∷ rest else rest

abbrev pub answers_to : (t s : ℕ) → List MeClientResponse → List MeClientResponse
answers_to t s [] = []
answers_to t s (r ∷ rs) =
    let rest = answers_to t s rs in
    if (r.ticker_id == t) && (side_to_index r.side == s) then r ∷ rest else rest

abbrev pub after_all : OmOrder → List MeClientResponse → OmOrder
after_all o [] = o
after_all o (r ∷ rs) = after_all (after_response o r) rs

module _ (F : Floats) where
  -- Each position has taken the fills of its instrument, and each order the responses to it.
  pub record Followed (e e' : TradeEngine F.Double) (rs : List MeClientResponse) : Type 0 where
    pub positions :
        (t : ℕ) → e'.ticker_position t ≡ add_fills F (e.ticker_position t) (fills_of t rs)
    pub orders :
        (t s : ℕ)
        → e'.order_manager.ticker_side_order t s
          ≡ after_all (e.order_manager.ticker_side_order t s) (answers_to t s rs)
    pub algo : e'.algo ≡ e.algo

  -- The engine runs the strategy that quotes, or the one that takes.
  abbrev pub HasStrategy : TradeEngine F.Double → Type 0
  HasStrategy e = (e.algo ≡ AlgoType.maker) ⊎ (e.algo ≡ AlgoType.taker)

  filled_position :
      (p : ℕ → PositionInfo F.Double) (r : MeClientResponse) (t : ℕ)
      → (if is_filled r then update p r.ticker_id (add_fill F (p r.ticker_id) r) else p) t
        ≡ add_fills F (p t) (fills_of t (r ∷ []))
  filled_position p r t = elim (Bool-cases (is_filled r)) [
    | inr b ↦ rw b refl
    | inl b ↦ elim (Bool-cases (r.ticker_id == t)) [
      | inr ne ↦ rw (b, ne) refl
      | inl e ↦
          let same : r.ticker_id ≡ t = ground (arith, e) in
          rw (b, e) (ap (λ i. add_fill F (p i) r) same)
    ]
  ]

  answered_order :
      (m : OrderManager) (r : MeClientResponse) (t s : ℕ)
      → let i = side_to_index r.side in
        (put_order m r.ticker_id i
            (after_response (m.ticker_side_order r.ticker_id i) r)).ticker_side_order
          t s
        ≡ after_all (m.ticker_side_order t s) (answers_to t s (r ∷ []))
  answered_order m r t s = elim (Bool-cases (r.ticker_id == t)) [
    | inr ne ↦ rw ne refl
    | inl e ↦ elim (Bool-cases (side_to_index r.side == s)) [
      | inr ne ↦ rw (e, ne) (ap (λ i. m.ticker_side_order i s) (ground (arith, e)))
      | inl q ↦
          let same : r.ticker_id ≡ t = ground (arith, e) in
          let side : side_to_index r.side ≡ s = ground (arith, q) in
          rw (e, q)
            (ap (λ i. after_response (m.ticker_side_order i (side_to_index r.side)) r) same
              ∙ ap (λ i. after_response (m.ticker_side_order t i) r) side)
    ]
  ]

  fills_of-cons :
      (t : ℕ) (r : MeClientResponse) (rs : List MeClientResponse) (p : PositionInfo F.Double)
      → add_fills F (add_fills F p (fills_of t (r ∷ []))) (fills_of t rs)
        ≡ add_fills F p (fills_of t (r ∷ rs))
  fills_of-cons t r rs p = elim (Bool-cases (is_filled r && (r.ticker_id == t))) [
    | inl b ↦ rw b refl
    | inr b ↦ rw b refl
  ]

  answers_to-cons :
      (t s : ℕ) (r : MeClientResponse) (rs : List MeClientResponse) (o : OmOrder)
      → after_all (after_all o (answers_to t s (r ∷ []))) (answers_to t s rs)
        ≡ after_all o (answers_to t s (r ∷ rs))
  answers_to-cons t s r rs o =
      elim (Bool-cases ((r.ticker_id == t) && (side_to_index r.side == s))) [
        | inl b ↦ rw b refl
        | inr b ↦ rw b refl
      ]

  Followed-cons :
      (e e₁ e₂ : TradeEngine F.Double) (r : MeClientResponse) (rs : List MeClientResponse)
      → Followed e e₁ (r ∷ [])
      → Followed e₁ e₂ rs
      → Followed e e₂ (r ∷ rs)
  Followed-cons e e₁ e₂ r rs f g = record {
    positions = λ t.
        g.positions t
        ∙ ap (λ p. add_fills F p (fills_of t rs)) (f.positions t)
        ∙ fills_of-cons t r rs (e.ticker_position t);
    orders = λ t s.
        g.orders t s
        ∙ ap (λ o. after_all o (answers_to t s rs)) (f.orders t s)
        ∙ answers_to-cons t s r rs (e.order_manager.ticker_side_order t s);
    algo = g.algo ∙ f.algo;
  }

  module _ (feature_invalid half : F.Double) (ticker_cfg : ℕ → TradeEngineCfg F.Double) where
    -- The engine behind one response to a known instrument.
    abbrev answered : TradeEngine F.Double → MeClientResponse → TradeEngine F.Double
    answered e r = record e {
      ticker_position =
          if is_filled r
          then update e.ticker_position r.ticker_id (add_fill F (e.ticker_position r.ticker_id) r)
          else e.ticker_position;
      order_manager =
          put_order e.order_manager r.ticker_id (side_to_index r.side) (
            after_response (e.order_manager.ticker_side_order r.ticker_id (side_to_index r.side))
              r);
    }

    abbrev by_algo :
        TradeEngine F.Double
        → Outcome (TradeEngine F.Double)
        → AlgoType
        → Outcome (TradeEngine F.Double)
    by_algo e run algo = elim algo [ AlgoType.maker ↦ run | AlgoType.taker ↦ run | _ ↦ ok e ]

    algo_on_order_update-answered :
        (e : TradeEngine F.Double) (r : MeClientResponse)
        → HasStrategy e
        → r.ticker_id < me_max_tickers
        → algo_on_order_update F feature_invalid half ticker_cfg e r
          ≡ ok (record e {
            order_manager = put_order e.order_manager r.ticker_id (side_to_index r.side) (
                after_response
                  (e.order_manager.ticker_side_order r.ticker_id (side_to_index r.side))
                  r);
          })
    unfolding algo_on_order_update OrderManager.on_order_update
    algo_on_order_update-answered e r (inl a) h =
        let known = lt→ltb r.ticker_id me_max_tickers h in
        ap
          (by_algo e (
            with_orders F feature_invalid half ticker_cfg e
              (OrderManager.on_order_update e.order_manager r)))
          a
        ∙ rw (known, OrderManager.on_order_update) refl
    algo_on_order_update-answered e r (inr a) h =
        let known = lt→ltb r.ticker_id me_max_tickers h in
        ap
          (by_algo e (
            with_orders F feature_invalid half ticker_cfg e
              (OrderManager.on_order_update e.order_manager r)))
          a
        ∙ rw (known, OrderManager.on_order_update) refl

    on_order_update-answered :
        (e : TradeEngine F.Double) (r : MeClientResponse)
        → HasStrategy e
        → r.ticker_id < me_max_tickers
        → on_order_update F feature_invalid half ticker_cfg e r ≡ ok (answered e r)
    unfolding on_order_update keeper_add_fill
    on_order_update-answered e r strategy h = elim (Bool-cases (is_filled r)) [
      | inl b ↦
          rw (b, lt→ltb r.ticker_id me_max_tickers h, on_order_update, keeper_add_fill)
            (algo_on_order_update-answered
              (record e {
                ticker_position =
                    update e.ticker_position r.ticker_id
                      (add_fill F (e.ticker_position r.ticker_id) r);
              })
              r strategy h)
      | inr b ↦ rw (b, on_order_update) (algo_on_order_update-answered e r strategy h)
    ]

    Followed-answered :
        (e : TradeEngine F.Double) (r : MeClientResponse) → Followed e (answered e r) (r ∷ [])
    Followed-answered e r = record {
      positions = filled_position e.ticker_position r;
      orders = answered_order e.order_manager r;
      algo = refl;
    }

    -- What the loop leaves behind.
    abbrev pub Handled : TradeEngine F.Double → Outcome (TradeEngine F.Double) → Type 0
    Handled e run =
        (e' : TradeEngine F.Double) × (run ≡ ok e')
        × (contents e'.incoming_ogw_responses ≡ [])
        × Followed e e' (contents e.incoming_ogw_responses)

    run_responses-fuel :
        (fuel : ℕ) (e : TradeEngine F.Double)
        → HasStrategy e
        → IsValid e.incoming_ogw_responses
        → All (λ r. r.ticker_id < me_max_tickers) (contents e.incoming_ogw_responses)
        → length (contents e.incoming_ogw_responses) < fuel
        → Handled e (run_responses F feature_invalid half ticker_cfg fuel e)
    unfolding run_responses
    run_responses-fuel zero e strategy v known h = ground (arith, h)
    run_responses-fuel (suc fuel) e strategy v known h =
        let q = e.incoming_ogw_responses in
        elim (get_next_to_read-contents q v) [
          | inl (empty, nothing) ↦ (
            e,
            rw (nothing, run_responses) refl,
            empty,
            rw empty (record { positions = λ t. refl; orders = λ t s. refl; algo = refl }),
          )
          | inr (rest, front, there) ↦ elim (update_read_index-contents q v) [
            | inl (empty, _) ↦ cc
            | inr (q', read, v', both, _) ↦
                let r = q.store q.next_read_index in
                let known' = subst (All (λ r. r.ticker_id < me_max_tickers)) both known in
                let len : length (contents q) ≡ suc (length (contents q')) = ap length both in
                let one = on_order_update-answered e r strategy known'.0 in
                let e₁ : TradeEngine F.Double = record (answered e r) {
                  incoming_ogw_responses = q';
                } in
                let (e', done, drained, f) =
                  run_responses-fuel fuel e₁ strategy v' known'.1 (omega (arith, len, h)) in
                let first = Followed-answered e r in
                (
                  e',
                  rw (there, one, read, run_responses) done,
                  drained,
                  subst (Followed e e') (sym both) (
                      Followed-cons e e₁ e' r (contents q')
                        (record {
                          positions = first.positions;
                          orders = first.orders;
                          algo = first.algo;
                        })
                        f),
                )
          ]
        ]

    -- With a strategy that quotes or takes, and only known instruments in the queue, the loop over the
    -- responses ends with the queue empty: the position of each instrument has taken the fills of that
    -- instrument in their order, and each order of the strategy the responses to its instrument and
    -- side, and nothing else.
    pub run_responses-Handled :
        (e : TradeEngine F.Double)
        → HasStrategy e
        → IsValid e.incoming_ogw_responses
        → All (λ r. r.ticker_id < me_max_tickers) (contents e.incoming_ogw_responses)
        → Handled e (
            run_responses F feature_invalid half ticker_cfg (suc (size e.incoming_ogw_responses)) e)
    unfolding size
    run_responses-Handled e strategy v known =
        let count = length-contents e.incoming_ogw_responses in
        run_responses-fuel (suc e.incoming_ogw_responses.num_elements) e strategy v known
          (omega arith)
