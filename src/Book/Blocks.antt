-- ===== src/Book/Blocks.antt =====
-- The shared book structure: lists of blocks of a pool, as the nodes of a ring are.
use mathlib.Core.List.{map}
use low_latency_learn.Base.{
  ℕ, zero, suc, ◌≤◌, ◌<◌, ◌≡◌, ◌≢◌, refl, ap, ap₂, inl, inr, true, List, [], ◌∷◌, ◌++◌, arith,
  length, Bool-cases,
}
use low_latency_learn.Book.Ring.{has, has-append, IsDistinct, erase, IsDistinct-erase}

pub has-erase_of : (a z : ℕ) (xs : List ℕ) → has a (erase z xs) ≡ true → has a xs ≡ true
has-erase_of a z [] h = cc
has-erase_of a z (x ∷ xs) h = ground (arith, has-erase_of a z xs)

pub has-erase_ne : (a z : ℕ) (xs : List ℕ) → IsDistinct xs → has a (erase z xs) ≡ true → a ≢ z
has-erase_ne a z [] d h = cc
has-erase_ne a z (x ∷ xs) d h = ground (arith, has-erase_ne a z xs d.1, d.0)

length-erase : (z : ℕ) (xs : List ℕ) → has z xs ≡ true → suc (length (erase z xs)) ≡ length xs
length-erase z [] h = cc
length-erase z (x ∷ xs) h = ground (arith, length-erase z xs)

-- There are no more distinct blocks than places.
pub length-IsDistinct :
    (n : ℕ) (xs : List ℕ) → IsDistinct xs → ((a : ℕ) → has a xs ≡ true → a < n) → length xs ≤ n
length-IsDistinct zero [] d h = omega arith
length-IsDistinct zero (x ∷ xs) d h = ground (arith, h x)
length-IsDistinct (suc n) xs d h = elim (Bool-cases (has n xs)) [
  | inl e ↦
      let fewer = length-IsDistinct n (erase n xs) (IsDistinct-erase n xs d) (λ a i.
        let below = h a (has-erase_of a n xs i) in
        let other = has-erase_ne a n xs d i in ground (arith, below, other)) in
      ground (arith, fewer, length-erase n xs e)
  | inr e ↦
      let fewer =
        length-IsDistinct n xs d (λ a i. let below = h a i in ground (arith, below, e, i)) in
      omega (arith, fewer)
]

module _ {B : Type 0} where
  pub map-same :
      (f g : ℕ → B) (xs : List ℕ) → ((a : ℕ) → has a xs ≡ true → f a ≡ g a) → map f xs ≡ map g xs
  map-same f g [] h = refl
  map-same f g (x ∷ xs) h =
      ap₂ (λ y ys. y ∷ ys) (h x (ground arith)) (map-same f g xs (λ a i. h a (ground arith)))

  pub map-snoc : (f : ℕ → B) (xs : List ℕ) (z : ℕ) → map f (xs ++ (z ∷ [])) ≡ map f xs ++ (f z ∷ [])
  map-snoc f [] z = refl
  map-snoc f (x ∷ xs) z = ap (λ l. f x ∷ l) (map-snoc f xs z)

pub has-snoc :
    (a : ℕ) (xs : List ℕ) (z : ℕ) → has a (xs ++ (z ∷ [])) ≡ true → a ≢ z → has a xs ≡ true
has-snoc a xs z h ne = ground (arith, has-append a xs (z ∷ []))
