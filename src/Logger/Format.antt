-- ===== src/Logger/Format.antt =====
-- common/logging.hpp: what `log` makes of a format, against a format taken apart into pieces.
use mathlib.Core.List.{map}
use low_latency_learn.Base.{
  ℕ, ◌≡◌, refl, ap, ◌∙◌, Bool, true, false, Option, none, some, List, [], ◌∷◌, ◌++◌, ◌==◌, Outcome,
  ok, failed, exit_failure,
}
use low_latency_learn.LfQueue.{LfQueue}
use low_latency_learn.LfQueue.Contents.{write_all}
use low_latency_learn.Logger.{
  LogElement, Value, percent, push_char, push_string, push_value, log_rest, log,
}

-- A piece of a format: a character other than `%`, the pair `%%`, or a `%` for an argument.
pub data Piece : Type 0 where
  literal : ℕ → Piece
  escaped hole : Piece

abbrev pub spell : List Piece → List ℕ
spell [] = []
spell (Piece.literal c ∷ ps) = c ∷ spell ps
spell (Piece.escaped ∷ ps) = percent ∷ percent ∷ spell ps
spell (Piece.hole ∷ ps) = percent ∷ spell ps

abbrev pub starts_plain : List Piece → Bool
starts_plain [] = true
starts_plain (Piece.literal c ∷ ps) = true
starts_plain (Piece.escaped ∷ ps) = false
starts_plain (Piece.hole ∷ ps) = false

-- The pieces can be told apart in the text: no `%` stands behind the `%` of an argument.
abbrev pub IsReadable : List Piece → Type 0
IsReadable [] = Unit
IsReadable (Piece.literal c ∷ ps) = ((c == percent) ≡ false) × IsReadable ps
IsReadable (Piece.escaped ∷ ps) = IsReadable ps
IsReadable (Piece.hole ∷ ps) = (starts_plain ps ≡ true) × IsReadable ps

module _ {D : Type 0} where
  abbrev pub elements_of : Value D → List (LogElement D)
  elements_of (Value.element e) = e ∷ []
  elements_of (Value.string cs) = map LogElement.char cs

  abbrev pub before :
      List (LogElement D) → Option (List (LogElement D)) → Option (List (LogElement D))
  before es none = none
  before es (some fs) = some (es ++ fs)

  -- The elements of the message, if there are as many arguments as places for them.
  abbrev pub fill : List Piece → List (Value D) → Option (List (LogElement D))
  fill [] [] = some []
  fill [] (v ∷ vs) = none
  fill (Piece.literal c ∷ ps) vs = before (LogElement.char c ∷ []) (fill ps vs)
  fill (Piece.escaped ∷ ps) vs = before (LogElement.char percent ∷ []) (fill ps vs)
  fill (Piece.hole ∷ ps) [] = none
  fill (Piece.hole ∷ ps) (v ∷ vs) = before (elements_of v) (fill ps vs)

  -- The message goes into the queue, or the process exits.
  abbrev pub queued :
      LfQueue (LogElement D) → Option (List (LogElement D)) → Outcome (LfQueue (LogElement D))
  queued q none = failed exit_failure
  queued q (some es) = ok (write_all q es)

  write_all-push_string :
      (q : LfQueue (LogElement D)) (cs : List ℕ) (es : List (LogElement D))
      → write_all (push_string q cs) es ≡ write_all q (map LogElement.char cs ++ es)
  unfolding write_all push_string
  write_all-push_string q [] es = refl
  write_all-push_string q (c ∷ cs) es = write_all-push_string (push_char q c) cs es

  queued-char :
      (q : LfQueue (LogElement D)) (c : ℕ) (m : Option (List (LogElement D)))
      → queued (push_char q c) m ≡ queued q (before (LogElement.char c ∷ []) m)
  unfolding write_all
  queued-char q c none = refl
  queued-char q c (some es) = refl

  queued-value :
      (q : LfQueue (LogElement D)) (v : Value D) (m : Option (List (LogElement D)))
      → queued (push_value q v) m ≡ queued q (before (elements_of v) m)
  unfolding write_all push_value
  queued-value q v none = refl
  queued-value q (Value.element e) (some es) = refl
  queued-value q (Value.string cs) (some es) = ap ok (write_all-push_string q cs es)

  log_rest-plain :
      (q : LfQueue (LogElement D)) (c : ℕ) (s : List ℕ)
      → (c == percent) ≡ false
      → log_rest q (c ∷ s) ≡ log_rest (push_char q c) s
  unfolding log_rest
  log_rest-plain q c [] h = rw h refl
  log_rest-plain q c (d ∷ s) h = rw h refl

  log-plain :
      (q : LfQueue (LogElement D)) (c : ℕ) (s : List ℕ) (v : Value D) (vs : List (Value D))
      → (c == percent) ≡ false
      → log q (c ∷ s) (v ∷ vs) ≡ log (push_char q c) s (v ∷ vs)
  unfolding log
  log-plain q c [] v vs h = rw h refl
  log-plain q c (d ∷ s) v vs h = rw h refl

  log-none : (q : LfQueue (LogElement D)) (s : List ℕ) → log q s [] ≡ log_rest q s
  unfolding log
  log-none q [] = refl
  log-none q (c ∷ []) = refl
  log-none q (c ∷ d ∷ s) = refl

  log_rest-hole :
      (q : LfQueue (LogElement D)) (ps : List Piece)
      → IsReadable (Piece.hole ∷ ps)
      → log_rest q (percent ∷ spell ps) ≡ failed exit_failure
  unfolding log_rest
  log_rest-hole q [] h = refl
  log_rest-hole q (Piece.literal d ∷ ps) h = rw (h.1.0, log_rest) refl
  log_rest-hole q (Piece.escaped ∷ ps) h = cc
  log_rest-hole q (Piece.hole ∷ ps) h = cc

  log-hole :
      (q : LfQueue (LogElement D)) (ps : List Piece) (v : Value D) (vs : List (Value D))
      → IsReadable (Piece.hole ∷ ps)
      → log q (percent ∷ spell ps) (v ∷ vs) ≡ log (push_value q v) (spell ps) vs
  unfolding log
  log-hole q [] v vs h = refl
  log-hole q (Piece.literal d ∷ ps) v vs h = rw (h.1.0, log) refl
  log-hole q (Piece.escaped ∷ ps) v vs h = cc
  log-hole q (Piece.hole ∷ ps) v vs h = cc

  log_rest-fill :
      (q : LfQueue (LogElement D)) (ps : List Piece)
      → IsReadable ps
      → log_rest q (spell ps) ≡ queued q (fill ps [])
  unfolding log_rest write_all
  log_rest-fill q [] h = refl
  log_rest-fill q (Piece.literal c ∷ ps) h =
      log_rest-plain q c (spell ps) h.0
      ∙ log_rest-fill (push_char q c) ps h.1
      ∙ queued-char q c (fill ps [])
  log_rest-fill q (Piece.escaped ∷ ps) h =
      log_rest-fill (push_char q percent) ps h ∙ queued-char q percent (fill ps [])
  log_rest-fill q (Piece.hole ∷ ps) h = log_rest-hole q ps h

  -- For a format whose pieces can be told apart, `log` queues the elements of the message: the
  -- characters, one `%` for each `%%`, and the arguments at their places in their order; with too few
  -- or too many arguments the process exits.
  pub log-fill :
      (q : LfQueue (LogElement D)) (ps : List Piece) (vs : List (Value D))
      → IsReadable ps
      → log q (spell ps) vs ≡ queued q (fill ps vs)
  unfolding log write_all
  log-fill q ps [] h = log-none q (spell ps) ∙ log_rest-fill q ps h
  log-fill q [] (v ∷ vs) h = refl
  log-fill q (Piece.literal c ∷ ps) (v ∷ vs) h =
      log-plain q c (spell ps) v vs h.0
      ∙ log-fill (push_char q c) ps (v ∷ vs) h.1
      ∙ queued-char q c (fill ps (v ∷ vs))
  log-fill q (Piece.escaped ∷ ps) (v ∷ vs) h =
      log-fill (push_char q percent) ps (v ∷ vs) h ∙ queued-char q percent (fill ps (v ∷ vs))
  log-fill q (Piece.hole ∷ ps) (v ∷ vs) h =
      log-hole q ps v vs h ∙ log-fill (push_value q v) ps vs h.1 ∙ queued-value q v (fill ps vs)
