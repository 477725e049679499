-- ===== src/Sockets/Framing/Cuts.antt =====
-- The loops of the `recvCallback`s: a stream of messages, however it is cut into packets.
use mathlib.Core.List.{append_assoc, append-nil}
use low_latency_learn.Base.{
  ℕ, zero, suc, ◌+◌, ◌≤◌, ◌<◌, ◌≡◌, refl, sym, ap, ◌∙◌, inl, inr, true, false, List, [], ◌∷◌, ◌++◌,
  arith, if◌then◌else◌, leb, leb→le, length, length-append, take, drop, length-drop, take-append,
  drop-append, drop-add, take-front, drop-front, Bool-cases, Outcome, ok, failed, out_of_fuel,
  ◌>>=◌, >>=-assoc, >>=-cong, >>=-ok,
}
use low_latency_learn.Sockets.Framing.{frame_loop, recv_frames}

abbrev pub concat : List (List ℕ) → List ℕ
concat [] = []
concat (p ∷ ps) = p ++ concat ps

-- The bytes of some messages, one behind the other.
abbrev pub bytes : {M : Type 0} → (M → List ℕ) → List M → List ℕ
bytes encode [] = []
bytes encode (m ∷ ms) = encode m ++ bytes encode ms

module _ {S M : Type 0} (size_of : ℕ) (message : List ℕ → M) (handle : S → M → Outcome S) where
  -- The messages one after the other.
  abbrev pub handle_all : S → List M → Outcome S
  handle_all s [] = ok s
  handle_all s (m ∷ ms) = handle s m >>= λ s'. handle_all s' ms

  -- A packet is put behind what the last one left, and the callback runs.
  abbrev pub recv_packets : S → (left : List ℕ) → List (List ℕ) → Outcome (S × List ℕ)
  recv_packets s left [] = ok (s, left)
  recv_packets s left (p ∷ ps) =
      recv_frames size_of message handle s (left ++ p) >>= λ r. recv_packets r.0 r.1 ps

  -- The loop on the bytes that are left, without an index.
  whole : (fuel : ℕ) → S → List ℕ → Outcome (S × List ℕ)
  whole zero s buffer = failed out_of_fuel
  whole (suc fuel) s buffer =
      let round =
        handle s (message (take size_of buffer)) >>= λ s'. whole fuel s' (drop size_of buffer) in
      if leb size_of (length buffer) then round else ok (s, buffer)

  abbrev rest_at : List ℕ → S × ℕ → Outcome (S × List ℕ)
  rest_at buffer r = ok (r.0, drop r.1 buffer)

  frame_loop-whole :
      (fuel : ℕ) (s : S) (buffer : List ℕ) (i : ℕ)
      → i ≤ length buffer
      → (frame_loop size_of message handle fuel s buffer i >>= rest_at buffer)
        ≡ whole fuel s (drop i buffer)
  unfolding frame_loop whole
  frame_loop-whole zero s buffer i h = refl
  frame_loop-whole (suc fuel) s buffer i h =
      let len = length-drop i buffer h in
      elim (Bool-cases (leb (i + size_of) (length buffer))) [
        | inl more ↦
            let fits : leb size_of (length (drop i buffer)) ≡ true = ground (arith, len) in
            let room = leb→le (i + size_of) (length buffer) more in
            rw (more, fits, drop-add size_of i buffer)
              (>>=-assoc (handle s (message (take size_of (drop i buffer)))) _ (rest_at buffer)
                ∙ >>=-cong (handle s (message (take size_of (drop i buffer)))) _ _
                    (λ s'. frame_loop-whole fuel s' buffer (i + size_of) room))
        | inr over ↦
            let short : leb size_of (length (drop i buffer)) ≡ false = ground (arith, len) in
            rw (over, short) refl
      ]

  recv_frames-whole :
      (s : S) (buffer : List ℕ)
      → recv_frames size_of message handle s buffer ≡ whole (suc (length buffer)) s buffer
  unfolding recv_frames whole
  recv_frames-whole s buffer = elim (Bool-cases (leb size_of (length buffer))) [
    | inl more ↦
        rw more
          (frame_loop-whole (suc (length buffer)) s buffer 0 (omega arith) ∙ rw (more, whole) refl)
    | inr short ↦ rw (short, whole) refl
  ]

  module _ (one : 0 < size_of) where
    whole-fuel :
        (f g : ℕ) (s : S) (buffer : List ℕ)
        → length buffer < f
        → length buffer < g
        → whole f s buffer ≡ whole g s buffer
    unfolding whole
    whole-fuel zero g s buffer hf hg = ground (arith, hf)
    whole-fuel (suc f) zero s buffer hf hg = ground (arith, hg)
    whole-fuel (suc f) (suc g) s buffer hf hg = elim (Bool-cases (leb size_of (length buffer))) [
      | inr short ↦ rw (short, whole) refl
      | inl more ↦
          let fits = leb→le size_of (length buffer) more in
          let len = length-drop size_of buffer fits in
          rw (more, whole)
            (>>=-cong (handle s (message (take size_of buffer))) _ _
              (λ s'. whole-fuel f g s' (drop size_of buffer) (omega arith) (omega arith)))
    ]

    -- Bytes that come later are seen by what is left.
    whole-append :
        (f g : ℕ) (s : S) (a b : List ℕ)
        → length (a ++ b) < f
        → length a < g
        → whole f s (a ++ b)
          ≡ (whole g s a >>= λ r. recv_frames size_of message handle r.0 (r.1 ++ b))
    unfolding whole
    whole-append zero g s a b hf hg = ground (arith, hf)
    whole-append (suc f) zero s a b hf hg = ground (arith, hg)
    whole-append (suc f) (suc g) s a b hf hg = elim (Bool-cases (leb size_of (length a))) [
      | inr short ↦
          rw (short, whole)
            (whole-fuel (suc f) (suc (length (a ++ b))) s (a ++ b) hf (omega arith)
              ∙ sym (recv_frames-whole s (a ++ b)))
      | inl more ↦
          let fits = leb→le size_of (length a) more in
          let len = length-drop size_of a fits in
          let both = length-append a b in
          let left = length-append (drop size_of a) b in
          let more' : leb size_of (length (a ++ b)) ≡ true = ground (arith, both) in
          rw (more, more', take-append size_of a b fits, drop-append size_of a b fits, whole)
            (>>=-cong (handle s (message (take size_of a))) _ _
                (λ s'. whole-append f g s' (drop size_of a) b (omega arith) (omega arith))
              ∙ sym (>>=-assoc (handle s (message (take size_of a))) _ _))
    ]

    recv_frames-append :
        (s : S) (a b : List ℕ)
        → recv_frames size_of message handle s (a ++ b) ≡ (
            recv_frames size_of message handle s a >>= λ r.
            recv_frames size_of message handle r.0 (r.1 ++ b))
    recv_frames-append s a b =
        recv_frames-whole s (a ++ b)
        ∙ whole-append (suc (length (a ++ b))) (suc (length a)) s a b (omega arith) (omega arith)
        ∙ ap (λ m. m >>= λ r. recv_frames size_of message handle r.0 (r.1 ++ b))
            (sym (recv_frames-whole s a))

    recv_packets-concat :
        (s : S) (left p : List ℕ) (ps : List (List ℕ))
        → recv_packets s left (p ∷ ps)
          ≡ recv_frames size_of message handle s (left ++ concat (p ∷ ps))
    recv_packets-concat s left p [] =
        >>=-ok (recv_frames size_of message handle s (left ++ p))
        ∙ ap (λ l. recv_frames size_of message handle s (left ++ l)) (sym (append-nil p))
    recv_packets-concat s left p (q ∷ ps) =
        >>=-cong (recv_frames size_of message handle s (left ++ p)) _ _
          (λ r. recv_packets-concat r.0 r.1 q ps)
        ∙ sym (recv_frames-append s (left ++ p) (concat (q ∷ ps)))
        ∙ ap (recv_frames size_of message handle s) (append_assoc left p (concat (q ∷ ps)))

    module _ (encode : M → List ℕ) (sized : (m : M) → length (encode m) ≡ size_of)
        (read : (m : M) → message (encode m) ≡ m) where
      whole-bytes :
          (f : ℕ) (s : S) (ms : List M) (rest : List ℕ)
          → length rest < size_of
          → length (bytes encode ms ++ rest) < f
          → whole f s (bytes encode ms ++ rest) ≡ (handle_all s ms >>= λ s'. ok (s', rest))
      unfolding whole
      whole-bytes zero s ms rest short hf = ground (arith, hf)
      whole-bytes (suc f) s [] rest short hf =
          let over : leb size_of (length rest) ≡ false = ground arith in rw (over, whole) refl
      whole-bytes (suc f) s (m ∷ ms) rest short hf =
          let more = bytes encode ms ++ rest in
          let len = length-append (encode m) more in
          let split = append_assoc (encode m) (bytes encode ms) rest in
          let fits : leb size_of (length (encode m ++ more)) ≡ true =
            ground (arith, len, sized m) in
          let bound : length (encode m ++ more) < suc f = rw (sym split) hf in
          rw
            (
              split,
              fits,
              take-front size_of (encode m) more (sized m),
              drop-front size_of (encode m) more (sized m),
              read m,
              whole,
            )
            (>>=-cong (handle s m) _ _
                (λ s'. whole-bytes f s' ms rest short (omega (arith, len, sized m, bound)))
              ∙ sym (>>=-assoc (handle s m) _ _))

      -- However a stream of encoded messages, of which the last may not be complete, is cut into
      -- packets, the callbacks together do what the messages do one after the other, and what is
      -- left in the buffer is the incomplete one. A message has at least one byte, all messages have
      -- the same number, and reading undoes encoding.
      pub recv_packets-bytes :
          (s : S) (left p : List ℕ) (ps : List (List ℕ)) (ms : List M) (rest : List ℕ)
          → length rest < size_of
          → left ++ concat (p ∷ ps) ≡ bytes encode ms ++ rest
          → recv_packets s left (p ∷ ps) ≡ (handle_all s ms >>= λ s'. ok (s', rest))
      recv_packets-bytes s left p ps ms rest short stream =
          recv_packets-concat s left p ps
          ∙ ap (recv_frames size_of message handle s) stream
          ∙ recv_frames-whole s (bytes encode ms ++ rest)
          ∙ whole-bytes (suc (length (bytes encode ms ++ rest))) s ms rest short (omega arith)
