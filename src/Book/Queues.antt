-- ===== src/Book/Queues.antt =====
-- The shared book structure: the ring of the orders of a level as the queue that it stands for.
use mathlib.Core.Path.{subst}
use mathlib.Core.List.{append-nil}
use low_latency_learn.Base.{
  ℕ, ◌≡◌, ◌≢◌, refl, sym, ap, ◌∙◌, inl, inr, true, false, Option, none, some, List, [], ◌∷◌, ◌++◌,
  arith, ◌==◌, ok, if◌then◌else◌, Bool-cases,
}
use low_latency_learn.Book.{
  Book, order_at, level_at, get_orders_at_price, link_order, unlink_order, set_next_order,
  set_prev_order, put_level, same_pointer,
}
use low_latency_learn.Book.Ring.{
  has, has_ne, IsDistinct, IsDistinct-append, last, last-append, ne-last, Linked, Links-append,
  Links-frame, Ring, Ring-rotate, erase, erase-append, has-split, IsDistinct-rotate,
}

module _ {K : Type 0} where
  abbrev pub next_of : Book K → ℕ → Option ℕ
  next_of b a = (order_at b a).next_order

  abbrev pub prev_of : Book K → ℕ → Option ℕ
  prev_of b a = (order_at b a).prev_order

  -- The level holds the orders `x ∷ rest`, oldest first.
  pub record Holds (b : Book K) (level x : ℕ) (rest : List ℕ) : Type 0 where
    pub first : (level_at b level).first_order ≡ some x
    pub ring : Ring (next_of b) (prev_of b) x rest
    pub distinct : IsDistinct (x ∷ rest)

  -- All orders are the same but for their links.
  pub record SameData (b b' : Book K) : Type 0 where
    pub keys : (a : ℕ) → (order_at b' a).key ≡ (order_at b a).key
    pub sides : (a : ℕ) → (order_at b' a).side ≡ (order_at b a).side
    pub prices : (a : ℕ) → (order_at b' a).price ≡ (order_at b a).price
    pub qtys : (a : ℕ) → (order_at b' a).qty ≡ (order_at b a).qty
    pub priorities : (a : ℕ) → (order_at b' a).priority ≡ (order_at b a).priority

  -- The four writes that put `z` between `l` and `x`.
  abbrev joined : Book K → (x l z : ℕ) → Book K
  joined b x l z =
      let b₁ : Book K = set_next_order b l (some z) in
      let b₂ : Book K = set_prev_order b₁ z (order_at b₁ x).prev_order in
      let b₃ : Book K = set_next_order b₂ z (some x) in set_prev_order b₃ x (some z)

  module _ (b : Book K) (x l z : ℕ) (xz : z ≢ x) (lz : z ≢ l)
      (closing : Linked (next_of b) (prev_of b) l x) where
    next_of-joined : (next_of (joined b x l z) l ≡ some z) × (next_of (joined b x l z) z ≡ some x)
    next_of-joined = ground arith

    prev_of-joined : (prev_of (joined b x l z) x ≡ some z) × (prev_of (joined b x l z) z ≡ some l)
    prev_of-joined = ground arith

    next_of-joined_ne : (a : ℕ) → a ≢ l → a ≢ z → next_of (joined b x l z) a ≡ next_of b a
    next_of-joined_ne a al az = ground arith

    prev_of-joined_ne : (a : ℕ) → a ≢ x → a ≢ z → prev_of (joined b x l z) a ≡ prev_of b a
    prev_of-joined_ne a ax az = ground arith

  SameData-joined : (b : Book K) (x l z : ℕ) → SameData b (joined b x l z)
  SameData-joined b x l z = record {
    keys = λ a. ground arith;
    sides = λ a. ground arith;
    prices = λ a. ground arith;
    qtys = λ a. ground arith;
    priorities = λ a. ground arith;
  }

  -- An order, not yet in the ring, that joins a level which holds orders goes behind the last of
  -- them; apart from the links no order changes, and no level does.
  pub link_order-Holds :
      (b : Book K) (z level x : ℕ) (rest : List ℕ)
      → get_orders_at_price b (order_at b z).price ≡ some level
      → Holds b level x rest
      → has z (x ∷ rest) ≡ false
      → (b' : Book K) × (link_order b z ≡ ok b')
        × Holds b' level x (rest ++ (z ∷ []))
        × SameData b b'
        × (b' ≡ record b { order_pool = b'.order_pool })
        × (b'.order_pool ≡ record (b.order_pool) { object = b'.order_pool.object })
  unfolding link_order
  link_order-Holds b z level x rest at h out =
      let l = last x rest in
      let (links, closing) = h.ring in
      let xz : z ≢ x = ground arith in
      let lz = ne-last z x rest out in
      let b' = joined b x l z in
      let (n₁, n₂) = next_of-joined b x l z xz lz closing in
      let (p₁, p₂) = prev_of-joined b x l z xz lz closing in
      let kept =
        Links-frame x rest h.distinct
          (λ a i al. next_of-joined_ne b x l z xz lz closing a al (has_ne a z (x ∷ rest) i out))
          (λ a i.
            prev_of-joined_ne b x l z xz lz closing a (has_ne a x rest i h.distinct.0)
              (has_ne a z rest i (ground arith)))
          links in
      (
        b',
        rw (at, h.first, closing.1, link_order) refl,
        record {
          first = h.first;
          ring = (
            Links-append (next_of b') (prev_of b') x rest z [] kept (n₁, p₂) tt,
            subst (λ y. Linked (next_of b') (prev_of b') y x) (sym (last-append x rest z []))
                (n₂, p₁),
          );
          distinct = IsDistinct-append (x ∷ rest) z h.distinct out;
        },
        SameData-joined b x l z,
        refl,
        refl,
      )

  -- Nothing but the links of orders and the first orders of levels has changed.
  pub record Apart (b b' : Book K) : Type 0 where
    pub data_kept : SameData b b'
    pub asks : b'.asks_by_price ≡ b.asks_by_price
    pub bids : b'.bids_by_price ≡ b.bids_by_price
    pub prices : b'.price_orders_at_price ≡ b.price_orders_at_price
    pub is_free : b'.order_pool.is_free ≡ b.order_pool.is_free
    pub size : b'.order_pool.size ≡ b.order_pool.size
    pub next_free_index : b'.order_pool.next_free_index ≡ b.order_pool.next_free_index
    pub level_prices : (a : ℕ) → (level_at b' a).price ≡ (level_at b a).price
    pub slots : b'.slot_to_order ≡ b.slot_to_order

  -- The writes that take `z` out from between `l` and `y`, and from the head of its level.
  abbrev parted : Book K → (y l z level : ℕ) → Book K
  parted b y l z level =
      let b₁ : Book K = set_next_order b l (some y) in
      let b₂ : Book K = set_prev_order b₁ y (some l) in
      let b₃ : Book K =
        if same_pointer (level_at b₂ level).first_order (some z)
        then put_level b₂ level (record (level_at b₂ level) { first_order = some y })
        else b₂ in
      set_next_order (set_prev_order b₃ z none) z none

  module _ (b : Book K) (y l z level : ℕ) (yz : z ≢ y) (lz : z ≢ l) where
    next_of-parted : next_of (parted b y l z level) l ≡ some y
    next_of-parted = ground arith

    prev_of-parted : prev_of (parted b y l z level) y ≡ some l
    prev_of-parted = ground arith

    next_of-parted_ne : (a : ℕ) → a ≢ l → a ≢ z → next_of (parted b y l z level) a ≡ next_of b a
    next_of-parted_ne a al az = ground arith

    prev_of-parted_ne : (a : ℕ) → a ≢ y → a ≢ z → prev_of (parted b y l z level) a ≡ prev_of b a
    prev_of-parted_ne a ay az = ground arith

    first_order-parted :
        (x : ℕ)
        → (level_at b level).first_order ≡ some x
        → (level_at (parted b y l z level) level).first_order ≡ some (if x == z then y else x)
    first_order-parted x h = ground arith

  Apart-parted : (b : Book K) (y l z level : ℕ) → Apart b (parted b y l z level)
  Apart-parted b y l z level = record {
    data_kept = record {
      keys = λ a. ground arith;
      sides = λ a. ground arith;
      prices = λ a. ground arith;
      qtys = λ a. ground arith;
      priorities = λ a. ground arith;
    };
    asks = ground arith;
    bids = ground arith;
    prices = ground arith;
    is_free = ground arith;
    size = ground arith;
    next_free_index = ground arith;
    level_prices = λ a. ground arith;
    slots = ground arith;
  }

  -- Taking `z` out leaves the ring of the others.
  Ring-parted :
      (b : Book K) (z y level : ℕ) (ys : List ℕ)
      → IsDistinct (z ∷ y ∷ ys)
      → Ring (next_of b) (prev_of b) z (y ∷ ys)
      → Ring
          (next_of (parted b y (last y ys) z level))
          (prev_of (parted b y (last y ys) z level))
          y
          ys
  Ring-parted b z y level ys d (links, closing) =
      let l = last y ys in
      let yz : z ≢ y = ground arith in
      let lz = ne-last z y ys d.0 in
      (
        Links-frame y ys d.1
            (λ a i al. next_of-parted_ne b y l z level yz lz a al (has_ne a z (y ∷ ys) i d.0))
            (λ a i.
              prev_of-parted_ne b y l z level yz lz a (has_ne a y ys i d.1.0)
                (has_ne a z ys i (ground arith)))
            links.1,
        (next_of-parted b y l z level yz lz, prev_of-parted b y l z level yz lz),
      )

  unlink_order-parted :
      (b : Book K) (z y level : ℕ) (ys : List ℕ)
      → get_orders_at_price b (order_at b z).price ≡ some level
      → IsDistinct (z ∷ y ∷ ys)
      → Ring (next_of b) (prev_of b) z (y ∷ ys)
      → unlink_order b z ≡ ok (parted b y (last y ys) z level)
  unfolding unlink_order
  unlink_order-parted b z y level ys at d (links, closing) =
      let l = last y ys in
      let apart : (l == z) ≡ false = ground (arith, ne-last z y ys d.0) in
      rw (at, closing.1, links.0.0, apart, unlink_order) refl

  -- The level holds these orders, oldest first, and at least one.
  abbrev pub HoldsAll : Book K → (level : ℕ) → List ℕ → Type 0
  HoldsAll b level [] = ⊥
  HoldsAll b level (x ∷ rest) = Holds b level x rest

  -- An order behind the first one leaves; the ring is entered at it.
  unlink_order-behind :
      (b : Book K) (z level x : ℕ) (us vs : List ℕ)
      → get_orders_at_price b (order_at b z).price ≡ some level
      → Holds b level x (us ++ (z ∷ vs))
      → (x == z) ≡ false
      → has z us ≡ false
      → (b' : Book K) × (unlink_order b z ≡ ok b') × Holds b' level x (us ++ vs) × Apart b b'
  unlink_order-behind b z level x us [] at h ne out =
      let ring = Ring-rotate (next_of b) (prev_of b) x us z [] h.ring in
      let d = IsDistinct-rotate (x ∷ us) (z ∷ []) h.distinct in
      let b' = parted b x (last x us) z level in
      let xz : z ≢ x = ground arith in
      (
        b',
        unlink_order-parted b z x level us at d ring,
        record {
          first =
              first_order-parted b x (last x us) z level xz (ne-last z x us d.0) x h.first
              ∙ rw ne refl;
          ring = rw (append-nil us) (Ring-parted b z x level us d ring);
          distinct = rw (append-nil us) d.1;
        },
        Apart-parted b x (last x us) z level,
      )
  unlink_order-behind b z level x us (v ∷ vs) at h ne out =
      let ring = Ring-rotate (next_of b) (prev_of b) x us z (v ∷ vs) h.ring in
      let d = IsDistinct-rotate (x ∷ us) (z ∷ v ∷ vs) h.distinct in
      let ys = vs ++ (x ∷ us) in
      let l = last v ys in
      let b' = parted b v l z level in
      let vz : z ≢ v = ground arith in
      (
        b',
        unlink_order-parted b z v level ys at d ring,
        record {
          first = first_order-parted b v l z level vz (ne-last z v ys d.0) x h.first ∙ rw ne refl;
          ring =
              Ring-rotate (next_of b') (prev_of b') v vs x us (Ring-parted b z v level ys d ring);
          distinct = IsDistinct-rotate (v ∷ vs) (x ∷ us) d.1;
        },
        Apart-parted b v l z level,
      )

  pub unlink_order-Holds :
      (b : Book K) (z level x y : ℕ) (rest : List ℕ)
      → get_orders_at_price b (order_at b z).price ≡ some level
      → HoldsAll b level (x ∷ y ∷ rest)
      → has z (x ∷ y ∷ rest) ≡ true
      → (b' : Book K) × (unlink_order b z ≡ ok b')
        × HoldsAll b' level (erase z (x ∷ y ∷ rest))
        × Apart b b'
  unlink_order-Holds b z level x y rest at h i = elim (Bool-cases (z == x)) [
    | inl e ↦
        let same : x ≡ z = ground arith in
        let ring = subst (λ p. Ring (next_of b) (prev_of b) p (y ∷ rest)) same h.ring in
        let d = subst (λ p. IsDistinct (p ∷ y ∷ rest)) same h.distinct in
        let l = last y rest in
        let yz : z ≢ y = ground arith in
        (
          parted b y l z level,
          unlink_order-parted b z y level rest at d ring,
          rw e (record {
            first =
                first_order-parted b y l z level yz (ne-last z y rest d.0) x h.first ∙ ground arith;
            ring = Ring-parted b z y level rest d ring;
            distinct = d.1;
          }),
          Apart-parted b y l z level,
        )
    | inr e ↦
        let (us, vs, q, out) = has-split z (y ∷ rest) (ground arith) in
        let (b', done, h', kept) =
          unlink_order-behind b z level x us vs at (subst (Holds b level x) q h) (ground arith)
            out in
        let left : erase z (x ∷ y ∷ rest) ≡ x ∷ (us ++ vs) =
          rw e (ap (λ l. x ∷ l) (ap (erase z) q ∙ erase-append z us vs out)) in
        (b', done, subst (HoldsAll b' level) (sym left) h', kept)
  ]
