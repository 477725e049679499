-- ===== src/Book/Ring.antt =====
-- Doubly linked rings, which are the orders of a level and the levels of a side: `next` and `prev`
-- lead from a node through the nodes of a list and back to it.
use low_latency_learn.Base.{
  ℕ, ◌≡◌, ◌≢◌, refl, sym, ap, ◌∙◌, inl, inr, Bool, true, false, ◌||◌, Option, some, List, [], ◌∷◌,
  ◌++◌, arith, ◌==◌, if◌then◌else◌, Bool-cases,
}
use mathlib.Core.Path.{subst}

abbrev pub has : ℕ → List ℕ → Bool
has a [] = false
has a (x ∷ xs) = (a == x) || has a xs

abbrev pub IsDistinct : List ℕ → Type 0
IsDistinct [] = Unit
IsDistinct (x ∷ xs) = (has x xs ≡ false) × IsDistinct xs

abbrev pub last : ℕ → List ℕ → ℕ
last p [] = p
last p (y ∷ ys) = last y ys

pub last-append : (p : ℕ) (xs : List ℕ) (y : ℕ) (ys : List ℕ) → last p (xs ++ (y ∷ ys)) ≡ last y ys
last-append p [] y ys = refl
last-append p (x ∷ xs) y ys = last-append x xs y ys

pub has-append : (a : ℕ) (xs ys : List ℕ) → has a (xs ++ ys) ≡ (has a xs || has a ys)
has-append a [] ys = refl
has-append a (x ∷ xs) ys = ground (arith, has-append a xs ys)

pub has-last : (p : ℕ) (xs : List ℕ) → has (last p xs) (p ∷ xs) ≡ true
has-last p [] = ground arith
has-last p (y ∷ ys) = ground (arith, has-last y ys)

pub IsDistinct-append :
    (xs : List ℕ) (y : ℕ) → IsDistinct xs → has y xs ≡ false → IsDistinct (xs ++ (y ∷ []))
IsDistinct-append [] y d h = (refl, tt)
IsDistinct-append (x ∷ xs) y d h =
    (has-append x xs (y ∷ []) ∙ ground arith, IsDistinct-append xs y d.1 (ground arith))

-- A node and the one behind it.
abbrev pub Linked : (next prev : ℕ → Option ℕ) → ℕ → ℕ → Type 0
Linked next prev p q = (next p ≡ some q) × (prev q ≡ some p)

-- From `p` on through `xs`.
abbrev pub Links : (next prev : ℕ → Option ℕ) → ℕ → List ℕ → Type 0
Links next prev p [] = Unit
Links next prev p (y ∷ ys) = Linked next prev p y × Links next prev y ys

abbrev pub Ring : (next prev : ℕ → Option ℕ) → ℕ → List ℕ → Type 0
Ring next prev p xs = Links next prev p xs × Linked next prev (last p xs) p

module _ (next prev : ℕ → Option ℕ) where
  pub Links-append :
      (p : ℕ) (xs : List ℕ) (y : ℕ) (ys : List ℕ)
      → Links next prev p xs
      → Linked next prev (last p xs) y
      → Links next prev y ys
      → Links next prev p (xs ++ (y ∷ ys))
  Links-append p [] y ys l e m = (e, m)
  Links-append p (x ∷ xs) y ys l e m = (l.0, Links-append x xs y ys l.1 e m)

  pub Links-split :
      (p : ℕ) (xs : List ℕ) (y : ℕ) (ys : List ℕ)
      → Links next prev p (xs ++ (y ∷ ys))
      → Links next prev p xs × Linked next prev (last p xs) y × Links next prev y ys
  Links-split p [] y ys (e, l) = (tt, e, l)
  Links-split p (x ∷ xs) y ys l =
      let (front, edge, back) = Links-split x xs y ys l.1 in ((l.0, front), edge, back)

  -- A ring may be entered at each of its nodes.
  pub Ring-rotate :
      (p : ℕ) (xs : List ℕ) (y : ℕ) (ys : List ℕ)
      → Ring next prev p (xs ++ (y ∷ ys))
      → Ring next prev y (ys ++ (p ∷ xs))
  Ring-rotate p xs y ys (l, e) =
      let (front, edge, back) = Links-split p xs y ys l in
      let closing = subst (λ z. Linked next prev z p) (last-append p xs y ys) e in
      (
        Links-append y ys p xs back closing front,
        subst (λ z. Linked next prev z y) (sym (last-append y ys p xs)) edge,
      )

pub ne-last : (p y : ℕ) (ys : List ℕ) → has p (y ∷ ys) ≡ false → p ≢ last y ys
ne-last p y [] h = ground arith
ne-last p y (z ∷ zs) h = ne-last p z zs (ground arith)

pub has_ne : (a b : ℕ) (xs : List ℕ) → has a xs ≡ true → has b xs ≡ false → a ≢ b
has_ne a b xs h k = λ e. (cc)

-- Links survive a change of `next` at the last node, of `prev` at the first, and of both outside.
pub Links-frame :
    {next prev next' prev' : ℕ → Option ℕ} (p : ℕ) (xs : List ℕ)
    → IsDistinct (p ∷ xs)
    → ((a : ℕ) → has a (p ∷ xs) ≡ true → a ≢ last p xs → next' a ≡ next a)
    → ((a : ℕ) → has a xs ≡ true → prev' a ≡ prev a)
    → Links next prev p xs
    → Links next' prev' p xs
Links-frame p [] d hn hp l = tt
Links-frame p (y ∷ ys) d hn hp ((n, b), l) =
    let apart = ne-last p y ys d.0 in
    (
      (hn p (ground arith) apart ∙ n, hp y (ground arith) ∙ b),
      Links-frame y ys d.1 (λ a h. hn a (ground arith)) (λ a h. hp a (ground arith)) l,
    )

-- Without the first `z`.
abbrev pub erase : ℕ → List ℕ → List ℕ
erase z [] = []
erase z (x ∷ xs) = if z == x then xs else x ∷ erase z xs

pub has-erase : (a z : ℕ) (xs : List ℕ) → has a xs ≡ false → has a (erase z xs) ≡ false
has-erase a z [] h = refl
has-erase a z (x ∷ xs) h = ground (arith, has-erase a z xs)

pub IsDistinct-erase : (z : ℕ) (xs : List ℕ) → IsDistinct xs → IsDistinct (erase z xs)
IsDistinct-erase z [] d = tt
IsDistinct-erase z (x ∷ xs) d = elim (Bool-cases (z == x)) [
  | inl e ↦ rw e d.1
  | inr e ↦ rw e (has-erase x z xs d.0, IsDistinct-erase z xs d.1)
]

pub erase-append : (z : ℕ) (us vs : List ℕ) → has z us ≡ false → erase z (us ++ (z ∷ vs)) ≡ us ++ vs
erase-append z [] vs h = ground arith
erase-append z (u ∷ us) vs h = ground (arith, erase-append z us vs)

pub has-split :
    (z : ℕ) (xs : List ℕ)
    → has z xs ≡ true
    → (us : List ℕ) × (vs : List ℕ) × (xs ≡ us ++ (z ∷ vs)) × (has z us ≡ false)
has-split z [] h = cc
has-split z (x ∷ xs) h = elim (Bool-cases (z == x)) [
  | inl e ↦ ([], xs, ground arith, refl)
  | inr e ↦
      let (us, vs, q, out) = has-split z xs (ground arith) in
      (x ∷ us, vs, ap (λ l. x ∷ l) q, ground arith)
]

-- Distinct nodes stay distinct where the list is entered at another of them.
IsDistinct-parts :
    (xs ys : List ℕ)
    → IsDistinct (xs ++ ys)
    → IsDistinct xs × IsDistinct ys × ((a : ℕ) → has a xs ≡ true → has a ys ≡ false)
IsDistinct-parts [] ys d = (tt, d, λ a h. cc)
IsDistinct-parts (x ∷ xs) ys d =
    let (dx, dy, apart) = IsDistinct-parts xs ys d.1 in
    (
      (ground (arith, has-append x xs ys), dx),
      dy,
      λ a h. ground (arith, has-append x xs ys, apart a),
    )

IsDistinct-join :
    (xs ys : List ℕ)
    → IsDistinct xs
    → IsDistinct ys
    → ((a : ℕ) → has a xs ≡ true → has a ys ≡ false)
    → IsDistinct (xs ++ ys)
IsDistinct-join [] ys dx dy apart = dy
IsDistinct-join (x ∷ xs) ys dx dy apart = (
  has-append x xs ys ∙ ground (arith, apart x),
  IsDistinct-join xs ys dx.1 dy (λ a h. apart a (ground arith)),
)

pub IsDistinct-rotate : (xs ys : List ℕ) → IsDistinct (xs ++ ys) → IsDistinct (ys ++ xs)
IsDistinct-rotate xs ys d =
    let (dx, dy, apart) = IsDistinct-parts xs ys d in
    IsDistinct-join ys xs dy dx (λ a h. ground (arith, apart a))

-- A ring survives every change outside.
pub Ring-outside :
    {next prev next' prev' : ℕ → Option ℕ} (p : ℕ) (xs : List ℕ)
    → IsDistinct (p ∷ xs)
    → ((a : ℕ) → has a (p ∷ xs) ≡ true → next' a ≡ next a)
    → ((a : ℕ) → has a (p ∷ xs) ≡ true → prev' a ≡ prev a)
    → Ring next prev p xs
    → Ring next' prev' p xs
Ring-outside p xs d hn hp (links, (n, b)) = (
  Links-frame p xs d (λ a h _. hn a h) (λ a h. hp a (ground arith)) links,
  (hn (last p xs) (has-last p xs) ∙ n, hp p (ground arith) ∙ b),
)
