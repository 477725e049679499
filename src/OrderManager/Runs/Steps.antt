-- ===== src/OrderManager/Runs/Steps.antt =====
-- trading/strategy/order_manager.cpp: the requests of one move or response.
use low_latency_learn.Base.{
  ℕ, ◌+◌, ◌≤◌, ◌≡◌, refl, inl, inr, ◌&&◌, [], ◌∷◌, arith, ◌==◌, if◌then◌else◌, Bool-cases,
}
use low_latency_learn.Types.{Side, Price, side_to_index}
use low_latency_learn.Messages.{MeClientResponse, ClientResponseType}
use low_latency_learn.LfQueue.Contents.{write_all}
use low_latency_learn.OrderManager.{
  OrderManager, OmOrder, OmOrderState, after_response, new_order, cancel_order, put_order,
  new_request, cancel_request,
}
use low_latency_learn.OrderManager.Runs.{HasSent, is_end, at_work}

pub HasSent-none : (m : OrderManager) → HasSent m m (λ t s. 0)
unfolding write_all
HasSent-none m = record {
  requests = [];
  queued = refl;
  numbered = refl;
  balance = λ t s. omega arith;
}

pub HasSent-cancel_order :
    (m : OrderManager) (t s : ℕ)
    → (m.ticker_side_order t s).order_state ≡ OmOrderState.live
    → HasSent m (cancel_order m t s) (λ t' s'. 0)
unfolding write_all cancel_order
HasSent-cancel_order m t s live = record {
  requests = cancel_request m (m.ticker_side_order t s) ∷ [];
  queued = refl;
  numbered = refl;
  balance = λ t' s'. ground (arith, live);
}

pub HasSent-new_order :
    (m : OrderManager) (t : ℕ) (price : Price) (side : Side) (qty : ℕ)
    → at_work (m.ticker_side_order t (side_to_index side)).order_state ≡ 0
    → HasSent m (new_order m t (side_to_index side) t price side qty) (λ t' s'. 0)
unfolding write_all new_order
HasSent-new_order m t price side qty idle = record {
  requests = new_request m t price side qty ∷ [];
  queued = refl;
  numbered = (refl, refl);
  balance = λ t' s'. ground (arith, idle);
}

at_work_le : (st : OmOrderState) → at_work st ≤ 1
at_work_le OmOrderState.invalid = omega arith
at_work_le OmOrderState.dead = omega arith
at_work_le OmOrderState.live = omega arith
at_work_le OmOrderState.pending_new = omega arith
at_work_le OmOrderState.pending_cancel = omega arith

at_work-after_response :
    (o : OmOrder) (r : MeClientResponse)
    → at_work o.order_state
      ≤ (if is_end r.type r.leaves_qty then 1 else 0) + at_work (after_response o r).order_state
unfolding after_response
at_work-after_response o r = go r.type refl
  where
    le : at_work o.order_state ≤ 1
    le = at_work_le o.order_state

    go :
        (t : ClientResponseType)
        → r.type ≡ t
        → at_work o.order_state
          ≤ (if is_end r.type r.leaves_qty then 1 else 0) + at_work (after_response o r).order_state
    go ClientResponseType.accepted e = rw (e, after_response) (omega (arith, le))
    go ClientResponseType.canceled e = rw (e, after_response) (omega (arith, le))
    go ClientResponseType.filled e = elim (Bool-cases (r.leaves_qty == 0)) [
      | inl empty ↦ rw (e, empty, after_response) (omega (arith, le))
      | inr more ↦ rw (e, more, after_response) (omega arith)
    ]
    go ClientResponseType.cancel_rejected e = rw (e, after_response) (omega arith)
    go ClientResponseType.invalid e = rw (e, after_response) (omega arith)

-- The responses that end an order of an instrument and side.
abbrev pub over_by : MeClientResponse → (t s : ℕ) → ℕ
over_by r t s =
    if is_end r.type r.leaves_qty && (r.ticker_id == t) && (side_to_index r.side == s) then 1 else 0

pub HasSent-response :
    (m : OrderManager) (r : MeClientResponse)
    → let s = side_to_index r.side in
      HasSent m
        (put_order m r.ticker_id s (after_response (m.ticker_side_order r.ticker_id s) r))
        (over_by r)
unfolding write_all
HasSent-response m r =
    let i = side_to_index r.side in
    record {
      requests = [];
      queued = refl;
      numbered = refl;
      balance = λ t s. ground (arith, at_work-after_response (m.ticker_side_order r.ticker_id i) r);
    }
