-- ===== src/Positions/Fills.antt =====
-- trading/strategy/position_keeper.hpp: what the fills of an instrument add up to.
use low_latency_learn.Base.{ℕ, ◌+◌, ◌*◌, ◌%◌, ◌^◌, ◌≡◌, refl, ap, ◌∙◌, List, [], ◌∷◌, arith}
use low_latency_learn.Base.Int.{ℤ, pos}
use low_latency_learn.Types.{Floats, Price, to_u32, to_i32, add32, side_to_value}
use low_latency_learn.Messages.{MeClientResponse}
use low_latency_learn.Positions.{
  PositionInfo, add_fill, open_or_close, mark_to_fill, moved_position,
}

-- What a fill adds to the position, as a word.
unfoldable pub signed_qty : MeClientResponse → ℕ
signed_qty r = r.exec_qty * to_u32 (side_to_value r.side)

abbrev pub sum_of : (MeClientResponse → ℕ) → List MeClientResponse → ℕ
sum_of f [] = 0
sum_of f (r ∷ rs) = f r + sum_of f rs

to_u32-to_i32 : (n : ℕ) → to_u32 (to_i32 n) ≡ n % 2 ^ 32
to_u32-to_i32 n = ground arith

moved_position_lem :
    (position : ℤ) (r : MeClientResponse)
    → to_u32 (moved_position position r.exec_qty r.side) ≡ (to_u32 position + signed_qty r) % 2 ^ 32
unfolding moved_position signed_qty
moved_position_lem position r =
    let added = r.exec_qty * to_u32 (side_to_value r.side) in
    to_u32-to_i32 (add32 (to_u32 position) (added % 2 ^ 32)) ∙ omega arith

module _ (F : Floats) where
  abbrev pub add_fills : PositionInfo F.Double → List MeClientResponse → PositionInfo F.Double
  add_fills p [] = p
  add_fills p (r ∷ rs) = add_fills (add_fill F p r) rs

  position-open_or_close :
      (p : PositionInfo F.Double) (old : ℤ) (r : MeClientResponse)
      → (open_or_close F p old r).position ≡ p.position
  unfolding open_or_close
  position-open_or_close p old r = ground arith

  volume-open_or_close :
      (p : PositionInfo F.Double) (old : ℤ) (r : MeClientResponse)
      → (open_or_close F p old r).volume ≡ p.volume
  unfolding open_or_close
  volume-open_or_close p old r = ground arith

  total_pnl-open_or_close :
      (p : PositionInfo F.Double) (old : ℤ) (r : MeClientResponse)
      → (open_or_close F p old r).total_pnl ≡ p.total_pnl
  unfolding open_or_close
  total_pnl-open_or_close p old r = ground arith

  position-mark_to_fill :
      (q : PositionInfo F.Double) (price : Price) → (mark_to_fill F q price).position ≡ q.position
  unfolding mark_to_fill
  position-mark_to_fill q price = ground arith

  volume-mark_to_fill :
      (q : PositionInfo F.Double) (price : Price) → (mark_to_fill F q price).volume ≡ q.volume
  unfolding mark_to_fill
  volume-mark_to_fill q price = ground arith

  total_pnl-mark_to_fill :
      (q : PositionInfo F.Double) (price : Price)
      → q.position ≡ pos 0
      → (mark_to_fill F q price).total_pnl ≡ q.total_pnl
  unfolding mark_to_fill
  total_pnl-mark_to_fill q price h = rw h refl

  position-add_fill :
      (p : PositionInfo F.Double) (r : MeClientResponse)
      → (add_fill F p r).position ≡ moved_position p.position r.exec_qty r.side
  unfolding add_fill
  position-add_fill p r =
      position-mark_to_fill (open_or_close F _ p.position r) r.price
      ∙ position-open_or_close _ p.position r

  volume-add_fill :
      (p : PositionInfo F.Double) (r : MeClientResponse)
      → (add_fill F p r).volume ≡ add32 p.volume r.exec_qty
  unfolding add_fill
  volume-add_fill p r =
      volume-mark_to_fill (open_or_close F _ p.position r) r.price
      ∙ volume-open_or_close _ p.position r

  -- A fill that brings the position to 0 leaves the total profit as it was before the fill,
  -- whatever the fill gained or lost.
  pub total_pnl-add_fill :
      (p : PositionInfo F.Double) (r : MeClientResponse)
      → moved_position p.position r.exec_qty r.side ≡ pos 0
      → (add_fill F p r).total_pnl ≡ p.total_pnl
  unfolding add_fill
  total_pnl-add_fill p r h =
      total_pnl-mark_to_fill (open_or_close F _ p.position r) r.price
        (position-open_or_close _ p.position r ∙ h)
      ∙ total_pnl-open_or_close _ p.position r

  -- After any fills, in any prices and sides, the position is what it was before, plus the bought
  -- and less the sold quantities, and the volume is what it was plus all quantities, both as 32-bit
  -- words.
  pub add_fills_lem :
      (p : PositionInfo F.Double) (rs : List MeClientResponse)
      → (to_u32 (add_fills p rs).position ≡ (to_u32 p.position + sum_of signed_qty rs) % 2 ^ 32)
        × ((add_fills p rs).volume % 2 ^ 32 ≡ (p.volume + sum_of (λ r. r.exec_qty) rs) % 2 ^ 32)
  add_fills_lem p [] = (ground arith, ground arith)
  add_fills_lem p (r ∷ rs) =
      let ih = add_fills_lem (add_fill F p r) rs in
      let hp = ap to_u32 (position-add_fill p r) ∙ moved_position_lem p.position r in
      let hv = volume-add_fill p r in (ih.0 ∙ omega (arith, hp), ih.1 ∙ omega (arith, hv))
