-- ===== src/OrderManager/Runs.antt =====
-- trading/strategy/order_manager.cpp: the orders over many moves and responses. Steps has what one of
-- them sends, Sequences all of them, Quoting what is at work after a move, and Replacing how an order
-- is replaced.
pub mod Steps
pub mod Sequences
pub mod Quoting
pub mod Replacing
use mathlib.Core.Path.{subst}
use low_latency_learn.Base.{
  ℕ, zero, suc, ◌+◌, ◌≤◌, ◌≡◌, refl, sym, ap, ◌∙◌, inl, inr, Bool, true, false, ◌&&◌, List, [], ◌∷◌,
  All, ap₂, not, ◌||◌, ◌++◌, arith, ltb, ◌==◌, if◌then◌else◌, Bool-cases, Outcome, ok, in_range,
  ◌>>=◌, ◌>>◌, >>=-eq-ok, ok-inj, update,
}
use low_latency_learn.Base.Int.{eqb_ℤ}
use low_latency_learn.Types.{
  Side, Price, price_invalid, side_to_index, inc64, me_max_tickers, Floats,
}
use low_latency_learn.Messages.{
  MeClientRequest, ClientRequestType, MeClientResponse, ClientResponseType,
}
use low_latency_learn.LfQueue.{LfQueue, write}
use low_latency_learn.LfQueue.Contents.{write_all}
use low_latency_learn.Risk.{RiskInfo, RiskCheckResult, check_pre_trade_risk, check_risk_info}
use low_latency_learn.OrderManager.{
  OrderManager, OmOrder, OmOrderState, after_response, on_order_update, new_order, cancel_order,
  open_order, move_order, move_orders, put_order, new_request, cancel_request,
}
use low_latency_learn.OrderManager.Moves.{Moved, kept, cancelled, opened, move_order-Moved}

-- What happens to an order manager: the orders of an instrument are moved, or a response comes.
pub data Event : Type 0 where
  moves : (ticker_id : ℕ) → (bid_price ask_price : Price) → (clip : ℕ) → Event
  response : MeClientResponse → Event

abbrev pub is_new : ClientRequestType → Bool
is_new ClientRequestType.new = true
is_new _ = false

-- The instrument of an event is within the array.
abbrev pub IsKnown : Event → Type 0
IsKnown (Event.moves ticker_id bid_price ask_price clip) = ltb ticker_id me_max_tickers ≡ true
IsKnown (Event.response r) = ltb r.ticker_id me_max_tickers ≡ true

-- The requests for new orders of an instrument and side.
abbrev pub news : (t s : ℕ) → List MeClientRequest → ℕ
news t s [] = 0
news t s (r ∷ rs) =
    (if is_new r.type && (r.ticker_id == t) && (side_to_index r.side == s) then 1 else 0)
    + news t s rs

-- An order is over where it is canceled, or filled to the end.
abbrev pub is_end : ClientResponseType → (leaves_qty : ℕ) → Bool
is_end ClientResponseType.canceled leaves_qty = true
is_end ClientResponseType.filled leaves_qty = leaves_qty == 0
is_end _ leaves_qty = false

abbrev pub ends : (t s : ℕ) → List Event → ℕ
ends t s [] = 0
ends t s (Event.moves ticker_id bid_price ask_price clip ∷ es) = ends t s es
ends t s (Event.response r ∷ es) =
    (if is_end r.type r.leaves_qty && (r.ticker_id == t) && (side_to_index r.side == s)
      then 1
      else 0)
    + ends t s es

abbrev pub at_work : OmOrderState → ℕ
at_work OmOrderState.invalid = 0
at_work OmOrderState.dead = 0
at_work _ = 1

abbrev pub working : OrderManager → (t s : ℕ) → ℕ
working m t s = at_work (m.ticker_side_order t s).order_state

-- The requests for new orders carry the ids that follow one another from `n` on, up to `n'`.
abbrev pub Numbered : (n : ℕ) → List MeClientRequest → (n' : ℕ) → Type 0
Numbered n [] n' = n' ≡ n
Numbered n (r ∷ rs) n' =
    if is_new r.type then (r.order_id ≡ n) × Numbered (inc64 n) rs n' else Numbered n rs n'

-- What has been sent on the way from one state to the other, where orders are over `over` times.
pub record HasSent (m m' : OrderManager) (over : ℕ → ℕ → ℕ) : Type 0 where
  pub requests : List MeClientRequest
  pub queued : m'.outgoing_ogw_requests ≡ write_all m.outgoing_ogw_requests requests
  pub numbered : Numbered m.next_order_id requests m'.next_order_id
  pub balance : (t s : ℕ) → news t s requests + working m t s ≤ over t s + working m' t s

write_all-append :
    (q : LfQueue MeClientRequest) (rs rs' : List MeClientRequest)
    → write_all q (rs ++ rs') ≡ write_all (write_all q rs) rs'
unfolding write_all
write_all-append q [] rs' = refl
write_all-append q (r ∷ rs) rs' = write_all-append (write q r) rs rs'

news-append :
    (t s : ℕ) (rs rs' : List MeClientRequest) → news t s (rs ++ rs') ≡ news t s rs + news t s rs'
news-append t s [] rs' = omega arith
news-append t s (r ∷ rs) rs' = omega (arith, news-append t s rs rs')

Numbered-append :
    (n n' n'' : ℕ) (rs rs' : List MeClientRequest)
    → Numbered n rs n'
    → Numbered n' rs' n''
    → Numbered n (rs ++ rs') n''
Numbered-append n n' n'' [] rs' h k = subst (λ i. Numbered i rs' n'') h k
Numbered-append n n' n'' (r ∷ rs) rs' h k =
    go (is_new r.type) (λ l. Numbered-append (inc64 n) n' n'' rs rs' l k)
      (λ l. Numbered-append n n' n'' rs rs' l k) h
  where
    go :
        (b : Bool)
        → (Numbered (inc64 n) rs n' → Numbered (inc64 n) (rs ++ rs') n'')
        → (Numbered n rs n' → Numbered n (rs ++ rs') n'')
        → (if b then (r.order_id ≡ n) × Numbered (inc64 n) rs n' else Numbered n rs n')
        → (if b
            then (r.order_id ≡ n) × Numbered (inc64 n) (rs ++ rs') n''
            else Numbered n (rs ++ rs') n'')
    go true f g (e, l) = (e, f l)
    go false f g l = g l

pub HasSent-trans :
    (m m' m'' : OrderManager) (over over' : ℕ → ℕ → ℕ)
    → HasSent m m' over
    → HasSent m' m'' over'
    → HasSent m m'' (λ t s. over t s + over' t s)
HasSent-trans m m' m'' over over' h k = record {
  requests = h.requests ++ k.requests;
  queued =
      k.queued
      ∙ ap (λ q. write_all q k.requests) h.queued
      ∙ sym (write_all-append m.outgoing_ogw_requests h.requests k.requests);
  numbered =
      Numbered-append m.next_order_id m'.next_order_id m''.next_order_id h.requests k.requests
        h.numbered k.numbered;
  balance =
      λ t s. omega (arith, news-append t s h.requests k.requests, h.balance t s, k.balance t s);
}

pub HasSent-same :
    (m m' : OrderManager) (over over' : ℕ → ℕ → ℕ)
    → HasSent m m' over
    → ((t s : ℕ) → over t s ≡ over' t s)
    → HasSent m m' over'
HasSent-same m m' over over' h same = record {
  requests = h.requests;
  queued = h.queued;
  numbered = h.numbered;
  balance = λ t s. omega (arith, h.balance t s, same t s);
}

pub ends-cons :
    (t s : ℕ) (e : Event) (es : List Event) → ends t s (e ∷ []) + ends t s es ≡ ends t s (e ∷ es)
ends-cons t s (Event.moves ticker_id bid_price ask_price clip) es = omega arith
ends-cons t s (Event.response r) es = omega arith
