-- ===== src/Positions.antt =====
-- trading/strategy/position_keeper.hpp, with the `BBO` of trading/strategy/market_order.hpp: the
-- position in each instrument and its profit. Signed arithmetic that overflows is undefined in the
-- source; here the products of ints are exact.
pub mod Strings
pub mod Fills
use low_latency_learn.Base.{
  ℕ, ◌%◌, ◌*◌, ◌^◌, Bool, true, false, not, ◌&&◌, List, [], ◌∷◌, Option, none, some, if◌then◌else◌,
  ltb, update, Outcome, ok, in_range, ◌>>=◌, ◌>>◌,
}
use low_latency_learn.Base.Int.{ℤ, pos, ltb_ℤ, eqb_ℤ, ◌+ℤ◌, ◌*ℤ◌}
use low_latency_learn.Types.{
  Side, is_buy, Price, price_invalid, qty_invalid, add32, to_i32, to_u32, abs, side_to_index,
  side_to_value, Floats, me_max_tickers,
}
use low_latency_learn.Messages.{MeClientResponse}

pub record Bbo : Type 0 where
  pub bid_price : Price
  pub ask_price : Price
  pub bid_qty : ℕ
  pub ask_qty : ℕ

abbrev pub bbo_default : Bbo
bbo_default = record {
  bid_price = price_invalid;
  ask_price = price_invalid;
  bid_qty = qty_invalid;
  ask_qty = qty_invalid;
}

-- `m_bbo` points to the best bid and offer of the book; kept is what was there at the last `updateBBO`.
pub record PositionInfo (D : Type 0) : Type 0 where
  pub position : ℤ
  pub real_pnl : D
  pub unreal_pnl : D
  pub total_pnl : D
  pub open_vwap : ℕ → D
  pub volume : ℕ
  pub bbo : Option Bbo

-- `m_position += exec_qty * side_value`: the sum is one of uint32_t, and is converted back.
unfoldable pub moved_position : ℤ → (exec_qty : ℕ) → Side → ℤ
unfolding side_to_value
moved_position position exec_qty side =
    to_i32 (add32 (to_u32 position) (exec_qty * to_u32 (side_to_value side) % 2 ^ 32))

abbrev pub opposite : Side → Side
opposite side = if is_buy side then Side.sell else Side.buy

module _ (F : Floats) where
  -- The unrealised profit at a price.
  unfoldable pub unrealised : PositionInfo F.Double → F.Double → F.Double
  unfolding side_to_index
  unrealised p price =
      let size = F.of_int (abs p.position) in
      let bought = F.mul (F.sub price (F.div (p.open_vwap (side_to_index Side.buy)) size)) size in
      let sold = F.mul (F.sub (F.div (p.open_vwap (side_to_index Side.sell)) size) price) size in
      if ltb_ℤ (pos 0) p.position then bought else sold

  -- The fill against the position that was there: it opens or adds to a position, or closes one,
  -- and may go over to the other side.
  unfoldable pub open_or_close :
      PositionInfo F.Double → ℤ → MeClientResponse → PositionInfo F.Double
  unfolding side_to_index side_to_value ◌*ℤ◌
  open_or_close p old_position r =
      let side_index = side_to_index r.side in
      let opp_side_index = side_to_index (opposite r.side) in
      let price = F.of_int r.price in
      let old_size = abs old_position in
      let opened : PositionInfo F.Double = record p {
        open_vwap =
            update p.open_vwap side_index
              (F.add (p.open_vwap side_index) (F.of_int (r.price *ℤ pos r.exec_qty)));
      } in
      let opp_side_vwap = F.div (p.open_vwap opp_side_index) (F.of_int old_size) in
      let closed_qty = if ltb_ℤ old_size (to_i32 r.exec_qty) then old_size else to_i32 r.exec_qty in
      let gain =
        F.mul (F.mul (F.of_int closed_qty) (F.sub opp_side_vwap price))
          (F.of_int (side_to_value r.side)) in
      let closed : PositionInfo F.Double = record p { real_pnl = F.add p.real_pnl gain } in
      let crossed : PositionInfo F.Double = record closed {
        open_vwap =
            update (update closed.open_vwap side_index (F.of_int (r.price *ℤ abs p.position)))
              opp_side_index (F.of_int (pos 0));
      } in
      if not (ltb_ℤ (old_position *ℤ side_to_value r.side) (pos 0))
      then opened
      else if ltb_ℤ (p.position *ℤ old_position) (pos 0)
      then crossed
      else closed

  -- The last part of `addFill`, at the price of the fill. As in the source, the total is not brought
  -- up to date when the position is 0.
  unfoldable pub mark_to_fill : PositionInfo F.Double → Price → PositionInfo F.Double
  unfolding side_to_index
  mark_to_fill q price =
      let flat : PositionInfo F.Double = record q {
        open_vwap =
            update (update q.open_vwap (side_to_index Side.sell) (F.of_int (pos 0)))
              (side_to_index Side.buy) (F.of_int (pos 0));
        unreal_pnl = F.of_int (pos 0);
      } in
      let unreal = unrealised q (F.of_int price) in
      let held : PositionInfo F.Double = record q {
        unreal_pnl = unreal;
        total_pnl = F.add unreal q.real_pnl;
      } in
      if eqb_ℤ q.position (pos 0) then flat else held

  -- `PositionInfo::addFill`.
  unfoldable pub add_fill : PositionInfo F.Double → MeClientResponse → PositionInfo F.Double
  add_fill p r =
      let moved : PositionInfo F.Double = record p {
        position = moved_position p.position r.exec_qty r.side;
        volume = add32 p.volume r.exec_qty;
      } in
      mark_to_fill (open_or_close moved p.position r) r.price

  -- `PositionInfo::updateBBO`; `half` is the literal 0.5.
  unfoldable pub update_bbo :
      (half : F.Double) → PositionInfo F.Double → Bbo → PositionInfo F.Double
  unfolding ◌+ℤ◌
  update_bbo half p bbo =
      let seen : PositionInfo F.Double = record p { bbo = some bbo } in
      let mid_price = F.mul (F.of_int (bbo.bid_price +ℤ bbo.ask_price)) half in
      let unreal = unrealised p mid_price in
      if not (eqb_ℤ p.position (pos 0))
        && not (eqb_ℤ bbo.bid_price price_invalid)
        && not (eqb_ℤ bbo.ask_price price_invalid)
      then record seen { unreal_pnl = unreal; total_pnl = F.add unreal p.real_pnl }
      else seen

  -- `PositionKeeper`: one position for each instrument, behind the bounds check of `at`.
  unfoldable pub keeper_add_fill :
      (ℕ → PositionInfo F.Double) → MeClientResponse → Outcome (ℕ → PositionInfo F.Double)
  keeper_add_fill ticker_position r = do
    in_range (ltb r.ticker_id me_max_tickers)
    ok (update ticker_position r.ticker_id (add_fill (ticker_position r.ticker_id) r))

  unfoldable pub keeper_update_bbo :
      (half : F.Double)
      → (ℕ → PositionInfo F.Double)
      → (ticker_id : ℕ) → Bbo
      → Outcome (ℕ → PositionInfo F.Double)
  keeper_update_bbo half ticker_position ticker_id bbo = do
    in_range (ltb ticker_id me_max_tickers)
    ok (update ticker_position ticker_id (update_bbo half (ticker_position ticker_id) bbo))
