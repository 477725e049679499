-- ===== src/Matcher/Printer/Sorted.antt =====
-- exchange/matcher/me_order_book.cpp, `toString` and the destructor: which books pass the check.
use Prim.Native.String.{String, ◌++◌}
use mathlib.Core.List.{map}
use mathlib.Core.Path.{subst}
use low_latency_learn.Base.{
  ℕ, zero, suc, ◌+◌, ◌<◌, ◌≡◌, refl, sym, ap, ◌∙◌, inl, inr, Bool, true, false, ◌&&◌, Option, none,
  some, List, [], ◌∷◌, All, arith, length, ◌==◌, if◌then◌else◌, Bool-cases, Outcome, ok, failed,
  exit_failure, ◌>>=◌, >>=-assoc,
}
use low_latency_learn.Base.Int.{ℤ, pos, ltb_ℤ}
use low_latency_learn.Types.{Side, Price}
use low_latency_learn.Book.{Book, level_at, same_pointer}
use low_latency_learn.Book.Ring.{has, last, Links, IsDistinct, Ring}
use low_latency_learn.Book.Blocks.{length-IsDistinct}
use low_latency_learn.Book.Levels.{next_level, prev_level}
use low_latency_learn.Matcher.{MeOrderBook, MeOrderKey}
use low_latency_learn.Matcher.Printer.{
  price_min, price_max, is_unsorted, next_price, print_level, print_levels, me_order_book_to_string,
  destroy,
}
use low_latency_learn.Matcher.Printer.Lines.{IsFilled, print_level-filled, print_levels-end}

-- The prices rise strictly from above `low` on, or fall strictly from below `high` on.
abbrev pub rises : (low : Price) → List Price → Bool
rises low [] = true
rises low (p ∷ ps) = ltb_ℤ low p && rises p ps

abbrev pub falls : (high : Price) → List Price → Bool
falls high [] = true
falls high (p ∷ ps) = ltb_ℤ p high && falls p ps

-- The test of the code lets each price through.
abbrev passes : Side → (last_price : Price) → List Price → Bool
passes side last_price [] = true
passes side last_price (p ∷ ps) =
    let rest = passes side p ps in if is_unsorted side last_price p then false else rest

passes-rises : (low : Price) (ps : List Price) → passes Side.sell low ps ≡ rises low ps
passes-rises low [] = refl
passes-rises low (p ∷ ps) = ground (arith, passes-rises p ps)

passes-falls : (high : Price) (ps : List Price) → passes Side.buy high ps ≡ falls high ps
passes-falls high [] = refl
passes-falls high (p ∷ ps) = ground (arith, passes-falls p ps)

-- A text, or the end of the process.
abbrev pub Checks : Bool → Outcome String → Type 0
Checks true o = (text : String) × (o ≡ ok text)
Checks false o = o ≡ failed exit_failure

Checks-bind :
    (c : Bool) (o : Outcome String) (f : String → String)
    → Checks c o
    → Checks c (o >>= λ t. ok (f t))
Checks-bind true o f (text, e) = (f text, rw e refl)
Checks-bind false o f e = rw e refl

module _ (digits : ℤ → String) (padded : ℤ → String → String) (b : Book MeOrderKey)
    (detailed : Bool) (side : Side) (name : String) (best : ℕ) where
  abbrev levels : (fuel count : ℕ) → (last_price : Price) → Option ℕ → Outcome String
  levels fuel count last_price level =
      print_levels digits padded fuel b detailed true side name count last_price (some best) level

  abbrev price_of : ℕ → Price
  price_of level = (level_at b level).price

  -- What stands before the lines of the later levels.
  abbrev line : (count : ℕ) → (text rest : String) → String
  line count text rest = name ++ " L:" ++ digits (pos count) ++ " => " ++ text ++ rest

  levels-step :
      (fuel count : ℕ) (last_price : Price) (p : ℕ) (next : Option ℕ) (text : String)
      → print_level digits padded b detailed true side last_price p
        ≡ (next_price true side last_price (price_of p) >>= λ n. ok (text, n))
      → (if same_pointer (next_level b p) (some best) then none else next_level b p) ≡ next
      → levels (suc fuel) count last_price (some p) ≡ (
          next_price true side last_price (price_of p) >>= λ n.
          levels fuel (count + 1) n next >>= λ rest. ok (line count text rest))
  unfolding print_levels
  levels-step fuel count last_price p next text printed link =
      rw (printed, link, print_levels)
        (>>=-assoc (next_price true side last_price (price_of p)) (λ n. ok (text, n))
          (λ r. levels fuel (count + 1) r.1 next >>= λ rest. ok (line count r.0 rest)))

  levels-Checks :
      (fuel count : ℕ) (last_price : Price) (prev p : ℕ) (ys : List ℕ)
      → prev_level b p ≡ some prev
      → Links (next_level b) (prev_level b) p ys
      → next_level b (last p ys) ≡ some best
      → has best ys ≡ false
      → All (IsFilled b) (p ∷ ys)
      → length (p ∷ ys) < fuel
      → Checks
          (passes side last_price (map price_of (p ∷ ys)))
          (levels fuel count last_price (some p))
  levels-Checks zero count last_price prev p ys back l e out h hf = absurd (omega (arith, hf))
  levels-Checks (suc zero) count last_price prev p ys back l e out h hf = absurd (omega (arith, hf))
  levels-Checks (suc (suc fuel)) count last_price prev p [] back l e out h hf =
      let (text, printed) =
        print_level-filled digits padded b detailed true side last_price p prev best h.0 back e in
      let self : (best == best) ≡ true = ground arith in
      let step = levels-step (suc fuel) count last_price p none text printed (rw (e, self) refl) in
      elim (Bool-cases (is_unsorted side last_price (price_of p))) [
        | inl bad ↦ rw bad (step ∙ rw bad refl)
        | inr good ↦ rw good (
          line count text "",
          step
              ∙ rw good (
                  ap (λ o. o >>= λ rest. ok (line count text rest))
                    (print_levels-end digits padded b detailed fuel true side name (count + 1)
                      (price_of p) (some best))),
        )
      ]
  levels-Checks (suc (suc fuel)) count last_price prev p (y ∷ ys) back l e out h hf =
      let (text, printed) =
        print_level-filled digits padded b detailed true side last_price p prev y h.0 back l.0.0 in
      let other : (y == best) ≡ false = ground (arith, out) in
      let step =
        levels-step (suc fuel) count last_price p (some y) text printed (rw (l.0.0, other) refl) in
      let rest =
        Checks-bind (passes side (price_of p) (map price_of (y ∷ ys)))
          (levels (suc fuel) (count + 1) (price_of p) (some y)) (line count text)
          (levels-Checks (suc fuel) (count + 1) (price_of p) p y ys l.0.1 l.1 e
            (ground (arith, out)) h.1 (omega (arith, hf))) in
      elim (Bool-cases (is_unsorted side last_price (price_of p))) [
        | inl bad ↦ rw bad (step ∙ rw bad refl)
        | inr good ↦
            let onwards : levels (suc (suc fuel)) count last_price (some p) ≡ (
                levels (suc fuel) (count + 1) (price_of p) (some y) >>= λ rest.
                ok (line count text rest)) =
              step ∙ rw good refl in
            rw good
              (subst (Checks (passes side (price_of p) (map price_of (y ∷ ys)))) (sym onwards) rest)
      ]

-- The levels of a side, best first: a ring in which each level holds orders, in blocks of the pool.
pub data HoldsSide (b : Book MeOrderKey) : Option ℕ → List ℕ → Type 0 where
  empty : HoldsSide b none []
  ring :
      (best : ℕ) (rest : List ℕ)
      → Ring (next_level b) (prev_level b) best rest
      → IsDistinct (best ∷ rest)
      → ((a : ℕ) → has a (best ∷ rest) ≡ true → a < b.orders_at_price_pool.size)
      → All (IsFilled b) (best ∷ rest)
      → HoldsSide b (some best) (best ∷ rest)

abbrev pub prices : Book MeOrderKey → List ℕ → List Price
prices b levels = map (λ a. (level_at b a).price) levels

module _ (digits : ℤ → String) (padded : ℤ → String → String) where
  side-Checks :
      (b : Book MeOrderKey) (detailed : Bool) (side : Side) (name : String) (last_price : Price)
      (best : Option ℕ) (xs : List ℕ)
      → HoldsSide b best xs
      → Checks (passes side last_price (prices b xs)) (
          print_levels digits padded
            (suc (suc b.orders_at_price_pool.size))
            b
            detailed
            true
            side
            name
            0
            last_price
            best
            best)
  side-Checks b detailed side name last_price _ _ (HoldsSide.empty) = (
    "",
    print_levels-end digits padded b detailed (suc b.orders_at_price_pool.size) true side name 0
        last_price none,
  )
  side-Checks b detailed side name last_price _ _ (HoldsSide.ring best rest r d inside h) =
      let fits = length-IsDistinct b.orders_at_price_pool.size (best ∷ rest) d inside in
      levels-Checks digits padded b detailed side name best (suc (suc b.orders_at_price_pool.size))
        0 last_price (last best rest) best rest r.1.1 r.0 r.1.0 d.0 h (omega (arith, fits))

  asks-Checks :
      (b : Book MeOrderKey) (detailed : Bool) (xs : List ℕ)
      → HoldsSide b b.asks_by_price xs
      → Checks (rises price_min (prices b xs)) (
          print_levels digits padded
            (suc (suc b.orders_at_price_pool.size))
            b
            detailed
            true
            Side.sell
            "ASKS"
            0
            price_min
            b.asks_by_price
            b.asks_by_price)
  asks-Checks b detailed xs h =
      subst
        (λ c. Checks c (
          print_levels digits padded (suc (suc b.orders_at_price_pool.size)) b detailed true
            Side.sell "ASKS" 0 price_min b.asks_by_price b.asks_by_price))
        (passes-rises price_min (prices b xs))
        (side-Checks b detailed Side.sell "ASKS" price_min b.asks_by_price xs h)

  bids-Checks :
      (b : Book MeOrderKey) (detailed : Bool) (xs : List ℕ)
      → HoldsSide b b.bids_by_price xs
      → Checks (falls price_max (prices b xs)) (
          print_levels digits padded
            (suc (suc b.orders_at_price_pool.size))
            b
            detailed
            true
            Side.buy
            "BIDS"
            0
            price_max
            b.bids_by_price
            b.bids_by_price)
  bids-Checks b detailed xs h =
      subst
        (λ c. Checks c (
          print_levels digits padded (suc (suc b.orders_at_price_pool.size)) b detailed true
            Side.buy "BIDS" 0 price_max b.bids_by_price b.bids_by_price))
        (passes-falls price_max (prices b xs))
        (side-Checks b detailed Side.buy "BIDS" price_max b.bids_by_price xs h)

  Checks-both :
      (c d : Bool) (o p : Outcome String) (f : String → String → String)
      → Checks c o
      → Checks d p
      → Checks (c && d) (o >>= λ t. p >>= λ u. ok (f t u))
  Checks-both true d o p f (t, e) k = rw e (Checks-bind d p (f t) k)
  Checks-both false d o p f e k = rw e refl

  -- The text of a book with the check of its levels, where each side is a ring of levels that hold
  -- orders, in blocks of the pools: it is there exactly where the prices of the asks rise
  -- strictly, from above the lowest price of all, and those of the bids fall strictly, from below
  -- the highest; else the process ends.
  pub me_order_book_to_string-Checks :
      (b : MeOrderBook) (detailed : Bool) (asks bids : List ℕ)
      → HoldsSide b.book b.book.asks_by_price asks
      → HoldsSide b.book b.book.bids_by_price bids
      → Checks
          (rises price_min (prices b.book asks) && falls price_max (prices b.book bids))
          (me_order_book_to_string digits padded b detailed true)
  unfolding me_order_book_to_string
  me_order_book_to_string-Checks b detailed asks bids h k =
      Checks-both (rises price_min (prices b.book asks)) (falls price_max (prices b.book bids)) _ _
        _ (asks-Checks b.book detailed asks h) (bids-Checks b.book detailed bids k)

  -- The end of a book whose levels are such rings, of which one is not sorted, ends the process.
  pub destroy-unsorted :
      (b : MeOrderBook) (asks bids : List ℕ)
      → HoldsSide b.book b.book.asks_by_price asks
      → HoldsSide b.book b.book.bids_by_price bids
      → (rises price_min (prices b.book asks) && falls price_max (prices b.book bids)) ≡ false
      → destroy digits padded b ≡ failed exit_failure
  unfolding destroy
  destroy-unsorted b asks bids h k unsorted =
      let found = me_order_book_to_string-Checks b false asks bids h k in
      let e =
        subst (λ c. Checks c (me_order_book_to_string digits padded b false true)) unsorted found in
      rw (e, destroy) refl
