-- ===== src/Sockets/Server/Sockets.antt =====
-- common/tcp_server.cpp: the lists of sockets that `poll` keeps.
use mathlib.Core.Path.{subst}
use low_latency_learn.Base.{
  ℕ, ◌<◌, ◌≡◌, ◌≢◌, ◌∙◌, Bool, true, false, not, ◌&&◌, List, [], ◌∷◌, arith, if◌then◌else◌, ◌==◌,
  Bool-cases, inl, inr, Ends, Ends-bind, Ends-mono,
}
use low_latency_learn.Book.Ring.{has, has-append, IsDistinct, IsDistinct-append}
use low_latency_learn.Sockets.Server.{
  TcpServer, Event, Connection, removed, push_new, del, del_all, on_event, on_events, accept_one,
  accept_all, poll,
}

-- No socket stands twice in one of the lists.
pub record IsValid (v : TcpServer) : Type 0 where
  pub sockets : IsDistinct v.sockets
  pub receive : IsDistinct v.receive_sockets
  pub send : IsDistinct v.send_sockets
  pub disconnected : IsDistinct v.disconnected_sockets

-- The socket `x` was made, and is neither received from nor sent to.
pub record IsGone (x : ℕ) (v : TcpServer) : Type 0 where
  pub made : x < v.next_socket
  pub sockets : has x v.sockets ≡ false
  pub receive : has x v.receive_sockets ≡ false
  pub send : has x v.send_sockets ≡ false

-- No event is one of the socket `x`.
abbrev pub NoEventOf : ℕ → List Event → Type 0
NoEventOf x [] = Unit
NoEventOf x (e ∷ es) = (x ≢ e.socket) × NoEventOf x es

has-removed : (x y : ℕ) (xs : List ℕ) → has x (removed y xs) ≡ (not (x == y) && has x xs)
unfolding removed
has-removed x y [] = ground arith
has-removed x y (z ∷ xs) = ground (arith, has-removed x y xs)

IsDistinct-removed : (y : ℕ) (xs : List ℕ) → IsDistinct xs → IsDistinct (removed y xs)
unfolding removed
IsDistinct-removed y [] d = tt
IsDistinct-removed y (x ∷ xs) d = elim (Bool-cases (x == y)) [
  | inl e ↦ rw e (IsDistinct-removed y xs d.1)
  | inr e ↦ rw e (has-removed x y xs ∙ ground (arith, d.0), IsDistinct-removed y xs d.1)
]

IsDistinct-push_new : (xs : List ℕ) (y : ℕ) → IsDistinct xs → IsDistinct (push_new xs y)
IsDistinct-push_new xs y d = elim (Bool-cases (has y xs)) [
  | inl h ↦ rw h d
  | inr h ↦ rw h (IsDistinct-append xs y d h)
]

has-push_new :
    (x : ℕ) (xs : List ℕ) (y : ℕ) → x ≢ y → has x xs ≡ false → has x (push_new xs y) ≡ false
has-push_new x xs y ne h = elim (Bool-cases (has y xs)) [
  | inl i ↦ rw i h
  | inr i ↦ rw i (has-append x xs (y ∷ []) ∙ ground (arith, h))
]

IsDistinct-push_if :
    (b : Bool) (xs : List ℕ) (y : ℕ) → IsDistinct xs → IsDistinct (if b then push_new xs y else xs)
IsDistinct-push_if true xs y d = IsDistinct-push_new xs y d
IsDistinct-push_if false xs y d = d

has-push_if :
    (b : Bool) (x : ℕ) (xs : List ℕ) (y : ℕ)
    → x ≢ y
    → has x xs ≡ false
    → has x (if b then push_new xs y else xs) ≡ false
has-push_if true x xs y ne h = has-push_new x xs y ne h
has-push_if false x xs y ne h = h

del_all-IsValid : (v : TcpServer) (xs : List ℕ) → IsValid v → IsValid (del_all v xs)
unfolding del_all del
del_all-IsValid v [] h = h
del_all-IsValid v (x ∷ xs) h = del_all-IsValid (del v x) xs (record {
  sockets = IsDistinct-removed x v.sockets h.sockets;
  receive = IsDistinct-removed x v.receive_sockets h.receive;
  send = IsDistinct-removed x v.send_sockets h.send;
  disconnected = h.disconnected;
})

del-IsGone : (x y : ℕ) (v : TcpServer) → IsGone x v → IsGone x (del v y)
unfolding del
del-IsGone x y v h = record {
  made = h.made;
  sockets = has-removed x y v.sockets ∙ ground (arith, h.sockets);
  receive = has-removed x y v.receive_sockets ∙ ground (arith, h.receive);
  send = has-removed x y v.send_sockets ∙ ground (arith, h.send);
}

del_self : (x : ℕ) (v : TcpServer) → x < v.next_socket → IsGone x (del v x)
unfolding del
del_self x v made = record {
  made = made;
  sockets = has-removed x x v.sockets ∙ ground arith;
  receive = has-removed x x v.receive_sockets ∙ ground arith;
  send = has-removed x x v.send_sockets ∙ ground arith;
}

del_all-kept : (x : ℕ) (v : TcpServer) (xs : List ℕ) → IsGone x v → IsGone x (del_all v xs)
unfolding del_all
del_all-kept x v [] h = h
del_all-kept x v (y ∷ ys) h = del_all-kept x (del v y) ys (del-IsGone x y v h)

del_all-IsGone :
    (x : ℕ) (v : TcpServer) (xs : List ℕ)
    → x < v.next_socket
    → has x xs ≡ true
    → IsGone x (del_all v xs)
unfolding del_all del
del_all-IsGone x v [] made h = cc
del_all-IsGone x v (y ∷ ys) made h = elim (Bool-cases (x == y)) [
  | inl e ↦
      let same : x ≡ y = ground (arith, e) in
      del_all-kept x (del v y) ys (subst (λ z. IsGone x (del v z)) same (del_self x v made))
  | inr e ↦ del_all-IsGone x (del v y) ys made (ground (arith, h, e))
]

on_events-IsValid : (v : TcpServer) (es : List Event) → IsValid v → IsValid (on_events v es).0
unfolding on_events on_event
on_events-IsValid v [] h = h
on_events-IsValid v (e ∷ es) h = elim (Bool-cases (e.readable && (e.socket == 0))) [
  | inl b ↦ rw b (on_events-IsValid v es h)
  | inr b ↦ rw b (
      on_events-IsValid (on_event v e) es (record {
        sockets = h.sockets;
        receive = IsDistinct-push_if e.readable v.receive_sockets e.socket h.receive;
        send = IsDistinct-push_if e.writable v.send_sockets e.socket h.send;
        disconnected = IsDistinct-push_if e.gone v.disconnected_sockets e.socket h.disconnected;
      }))
]

on_events-IsGone :
    (x : ℕ) (v : TcpServer) (es : List Event)
    → NoEventOf x es
    → IsGone x v
    → IsGone x (on_events v es).0
unfolding on_events on_event
on_events-IsGone x v [] none_of h = h
on_events-IsGone x v (e ∷ es) none_of h = elim (Bool-cases (e.readable && (e.socket == 0))) [
  | inl b ↦ rw b (on_events-IsGone x v es none_of.1 h)
  | inr b ↦ rw b (
      on_events-IsGone x (on_event v e) es none_of.1 (record {
        made = h.made;
        sockets = h.sockets;
        receive = has-push_if e.readable x v.receive_sockets e.socket none_of.0 h.receive;
        send = has-push_if e.writable x v.send_sockets e.socket none_of.0 h.send;
      }))
]

-- The lists stay without repetitions, and a socket that is gone stays gone.
record Keeps (v v' : TcpServer) : Type 0 where
  valid : IsValid v → IsValid v'
  gone : (x : ℕ) → IsGone x v → IsGone x v'

accept_one-Keeps : (v : TcpServer) (c : Connection) → Ends (Keeps v) (accept_one v c)
unfolding accept_one
accept_one-Keeps v c = elim (Bool-cases (c.non_blocking && c.no_delay)) [
  | inr b ↦ rw b (λ e. (cc))
  | inl b ↦ elim (Bool-cases c.added) [
    | inr a ↦ rw (b, a) (λ e. (cc))
    | inl a ↦
        let y = v.next_socket in
        rw (b, a)
          (record {
            valid = λ h. record {
              sockets = IsDistinct-push_new v.sockets y h.sockets;
              receive = IsDistinct-push_new v.receive_sockets y h.receive;
              send = h.send;
              disconnected = h.disconnected;
            };
            gone = λ x h.
                let new : x ≢ y = omega (arith, h.made) in
                record {
                  made = omega (arith, h.made);
                  sockets = has-push_new x v.sockets y new h.sockets;
                  receive = has-push_new x v.receive_sockets y new h.receive;
                  send = h.send;
                };
          })
  ]
]

accept_all-Keeps : (v : TcpServer) (cs : List Connection) → Ends (Keeps v) (accept_all v cs)
unfolding accept_all
accept_all-Keeps v [] = record { valid = λ h. h; gone = λ x h. h }
accept_all-Keeps v (c ∷ cs) =
    Ends-bind (Keeps v) (Keeps v) (accept_one v c) (λ v'. accept_all v' cs) (accept_one-Keeps v c)
      (λ v' k.
        Ends-mono (Keeps v') (Keeps v) (accept_all v' cs)
          (λ v'' k'. record {
            valid = λ h. k'.valid (k.valid h);
            gone = λ x h. k'.gone x (k.gone x h);
          })
          (accept_all-Keeps v' cs))

-- What `poll` leaves: no list with a repetition, and no socket that had hung up before.
pub record Polled (v v' : TcpServer) (es : List Event) : Type 0 where
  pub valid : IsValid v'
  pub gone :
      (x : ℕ)
      → x < v.next_socket
      → has x v.disconnected_sockets ≡ true
      → NoEventOf x es
      → IsGone x v'

-- From lists without repetitions, `poll` ends, and where it does not exit the lists have no
-- repetitions still; a socket whose hang-up an earlier call has seen is then in none of the lists
-- of sockets to keep, to receive from and to send to, unless an event names it again.
pub poll-Polled :
    (v : TcpServer) (es : List Event) (cs : List Connection)
    → IsValid v
    → Ends (λ v'. Polled v v' es) (poll v es cs)
unfolding poll
poll-Polled v es cs h =
    let cleared = del_all v v.disconnected_sockets in
    let r = on_events cleared es in
    let valid = on_events-IsValid cleared es (del_all-IsValid v v.disconnected_sockets h) in
    let gone : (x : ℕ)
        → x < v.next_socket
        → has x v.disconnected_sockets ≡ true
        → NoEventOf x es
        → IsGone x r.0 =
      λ x made i none_of.
        on_events-IsGone x cleared es none_of (del_all-IsGone x v v.disconnected_sockets made i) in
    elim (Bool-cases r.1) [
      | inr b ↦ rw b (record { valid = valid; gone = gone })
      | inl b ↦ rw b (
          Ends-mono (Keeps r.0) (λ v'. Polled v v' es) (accept_all r.0 cs)
            (λ v' k. record {
              valid = k.valid valid;
              gone = λ x made i none_of. k.gone x (gone x made i none_of);
            })
            (accept_all-Keeps r.0 cs))
    ]
