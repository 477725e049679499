-- ===== src/Sockets/Tcp/Pending.antt =====
-- common/tcp_socket.cpp: what becomes of the bytes that wait to be sent.
use low_latency_learn.Base.{
  ℕ, ◌-◌, ◌≤◌, ◌<◌, ◌≡◌, refl, sym, ap, ◌∙◌, inl, inr, Bool, true, false, Option, none, some, List,
  [], if◌then◌else◌, ◌==◌, ltb, min, length, take, take-front, arith, Outcome, ok, failed,
  exit_failure, ◌>>=◌, Bool-cases,
}
use mathlib.Core.List.{append-nil}
use low_latency_learn.Base.Int.{ℤ}
use low_latency_learn.Sockets.Tcp.{TcpSocket, tcp_buffer_size, send_loop, send_pending, on_result}

take-length : (xs : List ℕ) → take (length xs) xs ≡ xs
take-length xs = ap (take (length xs)) (sym (append-nil xs)) ∙ take-front (length xs) xs [] refl

-- One round of the loop takes all the bytes there are.
one_call :
    (k : TcpSocket)
    → 0 < length k.send_buffer
    → length k.send_buffer ≤ tcp_buffer_size
    → let n = length k.send_buffer in
      (min tcp_buffer_size n ≡ n) × (min n n ≡ n) × (ltb 0 n ≡ true) × (ltb n n ≡ false)
one_call k some_bytes room = (omega arith, omega arith, ground arith, ground arith)

module _ {W : Type 0} (sys_send : W → ℤ → List ℕ → Bool → Option ℕ × W)
    (would_block : W → Bool) where
  -- What the code makes of the result of the one system call.
  abbrev pub sent_by : TcpSocket → Option ℕ × W → Outcome (W × TcpSocket)
  sent_by k r = elim r.0 [
    | none ↦ ok (
      r.1,
      record k {
        send_buffer = [];
        send_disconnected = if would_block r.1 then k.send_disconnected else true;
      },
    )
    | some n ↦
        if n == length k.send_buffer
        then ok (r.1, record k { send_buffer = [] })
        else failed exit_failure
  ]

  -- The code behind the one system call.
  abbrev after_call : TcpSocket → Option ℕ × W → Outcome (W × TcpSocket)
  after_call k r =
      let n = length k.send_buffer in
      on_result sys_send would_block (send_loop sys_send would_block 1) k n n r >>= λ x.
      ok (x.0, record x.1 { send_buffer = [] })

  after_call-sent_by : (k : TcpSocket) (r : Option ℕ × W) → after_call k r ≡ sent_by k r
  unfolding send_loop on_result
  after_call-sent_by k (none, w') = elim (Bool-cases (would_block w')) [
    | inl b ↦ rw b refl
    | inr b ↦ rw b refl
  ]
  after_call-sent_by k (some m, w') = elim (Bool-cases (m == length k.send_buffer)) [
    | inr b ↦ rw b refl
    | inl b ↦
        let done : ltb 0 (length k.send_buffer - m) ≡ false = ground arith in
        rw (b, done, send_loop) refl
  ]

  send_pending-after_call :
      (w : W) (k : TcpSocket)
      → 0 < length k.send_buffer
      → length k.send_buffer ≤ tcp_buffer_size
      → send_pending sys_send would_block w k ≡ after_call k (sys_send w k.fd k.send_buffer false)
  unfolding send_pending send_loop
  send_pending-after_call w k some_bytes room =
      let (top, all, go, last) = one_call k some_bytes room in
      rw (top, all, go, last, take-length k.send_buffer) refl

  -- With bytes to send, no more than the buffer holds, there is one call of `send` with all of them:
  -- when it fails the bytes are dropped, and the socket counts as disconnected unless the call would
  -- have blocked; when it takes all of them none are left; when it takes another number of them the
  -- process exits.
  pub send_pending_lem :
      (w : W) (k : TcpSocket)
      → 0 < length k.send_buffer
      → length k.send_buffer ≤ tcp_buffer_size
      → send_pending sys_send would_block w k ≡ sent_by k (sys_send w k.fd k.send_buffer false)
  unfolding send_pending send_loop
  send_pending_lem w k some_bytes room =
      send_pending-after_call w k some_bytes room
      ∙ after_call-sent_by k (sys_send w k.fd k.send_buffer false)
