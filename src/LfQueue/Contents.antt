-- ===== src/LfQueue/Contents.antt =====
-- common/lf_queue.hpp against a list, oldest element first.
use mathlib.Core.List.{append_assoc, append-nil}
use native.Mathlib.Decide.{ℕ_discrete}
use low_latency_learn.Base.{
  ℕ, zero, suc, ◌+◌, ◌-◌, ◌%◌, ◌<◌, ◌≡◌, ◌≢◌, ◌∙◌, refl, sym, ap, ap₂, ◌⊎◌, inl, inr, List, [], ◌∷◌,
  ◌++◌, >>=-eq-ok, ok-inj, assert, not, ◌==◌, none, some, arith, ok, failed, exit_failure, update,
  update_self, length,
}
use low_latency_learn.LfQueue.{LfQueue, lf_queue, get_next_to_read, update_read_index, write, size}

-- The slots of `n` elements from index `r` on, going round at `cap`.
abbrev pub slots : {T : Type 0} → (ℕ → T) → (cap r n : ℕ) → List T
slots store cap r zero = []
slots store cap r (suc n) = store r ∷ slots store cap ((r + 1) % cap) n

abbrev pub contents : {T : Type 0} → LfQueue T → List T
contents q = slots q.store q.store_size q.next_read_index q.num_elements

-- The indices lie in the store, and the count of elements is the way from one to the other. Of the
-- slots one stays unused.
pub record IsValid {T : Type 0} (q : LfQueue T) : Type 0 where
  pub read_in : q.next_read_index < q.store_size
  pub write_in : q.next_write_index < q.store_size
  pub room : q.num_elements < q.store_size
  pub apart :
      (q.next_read_index + q.num_elements ≡ q.next_write_index)
      ⊎ (q.next_read_index + q.num_elements ≡ q.next_write_index + q.store_size)

next_index_cases :
    (cap i : ℕ)
    → i < cap
    → ((i + 1 < cap) × ((i + 1) % cap ≡ i + 1)) ⊎ ((i + 1 ≡ cap) × ((i + 1) % cap ≡ 0))
next_index_cases cap i h = grind arith

-- A write outside the walk does not show in it.
slots-update :
    {T : Type 0} (store : ℕ → T) (cap w : ℕ) (v : T) (r n : ℕ)
    → r < cap
    → (r + n ≡ w) ⊎ (r + n ≡ w + cap)
    → n < cap
    → w < cap
    → slots (update store w v) cap r n ≡ slots store cap r n
slots-update store cap w v r zero hr e hn hw = refl
slots-update store cap w v r (suc n) hr e hn hw =
    ap₂ ◌∷◌ (ground arith) (elim (next_index_cases cap r hr) [
      | inl (below, same) ↦
          slots-update store cap w v ((r + 1) % cap) n (omega arith) (omega arith) (omega arith) hw
      | inr (top, back) ↦
          slots-update store cap w v ((r + 1) % cap) n (omega arith) (omega arith) (omega arith) hw
    ])

slots-snoc :
    {T : Type 0} (store : ℕ → T) (cap w r n : ℕ)
    → r < cap
    → (r + n ≡ w) ⊎ (r + n ≡ w + cap)
    → n < cap
    → w < cap
    → slots store cap r (suc n) ≡ slots store cap r n ++ (store w ∷ [])
slots-snoc store cap w r zero hr e hn hw = let same : r ≡ w = omega arith in rw same
slots-snoc store cap w r (suc n) hr e hn hw =
    ap (λ l. store r ∷ l)
      (elim (next_index_cases cap r hr) [
        | inl (below, same) ↦
            slots-snoc store cap w ((r + 1) % cap) n (omega arith) (omega arith) (omega arith) hw
        | inr (top, back) ↦
            slots-snoc store cap w ((r + 1) % cap) n (omega arith) (omega arith) (omega arith) hw
      ])

-- A write just past the walk extends it.
slots-write :
    {T : Type 0} (store : ℕ → T) (cap w : ℕ) (v : T) (r n : ℕ)
    → r < cap
    → (r + n ≡ w) ⊎ (r + n ≡ w + cap)
    → n < cap
    → w < cap
    → slots (update store w v) cap r (suc n) ≡ slots store cap r n ++ (v ∷ [])
slots-write store cap w v r n hr e hn hw =
    slots-snoc (update store w v) cap w r n hr e hn hw
    ∙ ap₂ (λ l x. l ++ (x ∷ [])) (slots-update store cap w v r n hr e hn hw) (update_self store w v)

slots_of_ne_zero :
    {T : Type 0} (store : ℕ → T) (cap r n : ℕ)
    → n ≢ 0
    → slots store cap r n ≡ store r ∷ slots store cap ((r + 1) % cap) (n - 1)
slots_of_ne_zero store cap r zero h = absurd (h refl)
slots_of_ne_zero store cap r (suc n) h =
    let e : n ≡ suc n - 1 = omega arith in ap (λ k. store r ∷ slots store cap ((r + 1) % cap) k) e

length-slots : {T : Type 0} (store : ℕ → T) (cap r n : ℕ) → length (slots store cap r n) ≡ n
length-slots store cap r zero = refl
length-slots store cap r (suc n) = ap suc (length-slots store cap ((r + 1) % cap) n)

-- The arithmetic of the invariant under a write and a read.
module _ {T : Type 0} (q : LfQueue T) (v : IsValid q) where
  open q use {store, store_size, next_write_index, next_read_index, num_elements}

  -- A write with room left keeps the queue valid and puts the element behind the others.
  pub write-append :
      (value : T)
      → num_elements + 1 < store_size
      → IsValid (write q value) × (contents (write q value) ≡ contents q ++ (value ∷ []))
  unfolding write
  write-append value more =
      let e : num_elements + 1 ≡ suc num_elements = omega arith in
      let shown =
        slots-write store store_size next_write_index value next_read_index num_elements v.read_in
          v.apart v.room v.write_in in
      elim (next_index_cases store_size next_write_index v.write_in) [
        | inl (below, same) ↦ (omega arith, rw e shown)
        | inr (top, back) ↦ (omega arith, rw e shown)
      ]

  -- A reader finds an element exactly if there is one, and it is the oldest.
  pub get_next_to_read-contents :
      ((contents q ≡ []) × (get_next_to_read q ≡ none))
      ⊎ ((rest : List T) × (contents q ≡ store next_read_index ∷ rest)
          × (get_next_to_read q ≡ some next_read_index))
  unfolding get_next_to_read
  get_next_to_read-contents = elim (ℕ_discrete num_elements 0) [
    | yes e ↦ inl (rw e, ground arith)
    | no ne ↦
        inr (_, slots_of_ne_zero store store_size next_read_index num_elements ne, ground arith)
  ]

  -- Moving on past the oldest element drops it and keeps the queue valid; on an empty queue the
  -- ASSERT exits.
  pub update_read_index-contents :
      ((contents q ≡ []) × (update_read_index q ≡ failed exit_failure))
      ⊎ ((q' : LfQueue T) × (update_read_index q ≡ ok q')
          × IsValid q'
          × (contents q ≡ store next_read_index ∷ contents q')
          × (q'.store_size ≡ store_size))
  unfolding update_read_index
  update_read_index-contents = elim (ℕ_discrete num_elements 0) [
    | yes e ↦ inl (rw e, ground arith)
    | no ne ↦
        let shown = slots_of_ne_zero store store_size next_read_index num_elements ne in
        let moved : LfQueue T = record q {
          next_read_index = (next_read_index + 1) % store_size;
          num_elements = num_elements - 1;
        } in
        elim (next_index_cases store_size next_read_index v.read_in) [
          | inl (below, same) ↦ inr (moved, ground arith, omega arith, shown, refl)
          | inr (top, back) ↦ inr (moved, ground arith, omega arith, shown, refl)
        ]
  ]

  -- Nothing stops a write into the last free slot: the indices meet, and the reader finds the
  -- queue empty although `size` counts every slot as filled.
  pub write-overflow :
      (value : T)
      → num_elements + 1 ≡ store_size
      → (get_next_to_read (write q value) ≡ none) × (size (write q value) ≡ store_size)
  unfolding write get_next_to_read size
  write-overflow value full = elim (next_index_cases store_size next_write_index v.write_in) [
    | inl (below, same) ↦ (ground arith, full)
    | inr (top, back) ↦ (ground arith, full)
  ]

pub length-contents : {T : Type 0} (q : LfQueue T) → length (contents q) ≡ q.num_elements
length-contents q = length-slots q.store q.store_size q.next_read_index q.num_elements

pub store-update_read_index :
    {T : Type 0} (q : LfQueue T) {q' : LfQueue T} → update_read_index q ≡ ok q' → q'.store ≡ q.store
unfolding update_read_index
store-update_read_index q h =
    let (x, e, k) =
      >>=-eq-ok (assert (not (q.num_elements == 0)))
        (λ _. ok (record q {
          next_read_index = (q.next_read_index + 1) % q.store_size;
          num_elements = q.num_elements - 1;
        }))
        h in
    sym (ap (λ a. a.store) (ok-inj k))

-- A new queue is valid and empty.
pub lf_queue-IsValid :
    {T : Type 0} (num_elems : ℕ) (default : T)
    → 0 < num_elems
    → IsValid (lf_queue num_elems default) × (contents (lf_queue num_elems default) ≡ [])
lf_queue-IsValid num_elems default h = (omega arith, refl)

-- Several writes, one after the other.
unfoldable pub write_all : {T : Type 0} → LfQueue T → List T → LfQueue T
write_all q [] = q
write_all q (x ∷ xs) = write_all (write q x) xs

-- Room for `n` more elements.
abbrev pub HasRoom : {T : Type 0} → LfQueue T → ℕ → Type 0
HasRoom q n = IsValid q × (q.num_elements + n < q.store_size)

pub write_all-append :
    {T : Type 0} (q : LfQueue T) (xs : List T)
    → HasRoom q (length xs)
    → IsValid (write_all q xs) × (contents (write_all q xs) ≡ contents q ++ xs)
unfolding write_all write
write_all-append q [] h = (h.0, sym (append-nil (contents q)))
write_all-append q (x ∷ xs) h =
    let (v, e) = write-append q h.0 x (omega arith) in
    let (v', e') = write_all-append (write q x) xs (v, omega arith) in
    (v', rw (e', e) (append_assoc (contents q) (x ∷ []) xs))
