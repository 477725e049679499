-- ===== src/Matcher/Priority/Sent.antt =====
-- exchange/matcher/me_order_book.cpp, `checkForMatch`: the updates of one round of its loop and of the
-- rounds after it.
use mathlib.Core.List.{map, append-nil, append_assoc}
use low_latency_learn.Base.{
  ℕ, ◌-◌, ◌≡◌, sym, ap, ap₂, ◌∙◌, true, false, List, ◌∷◌, ◌++◌, arith, ltb, ◌==◌, update_self,
}
use low_latency_learn.Types.{Side}
use low_latency_learn.Book.{Book, order_at, put_order}
use low_latency_learn.Book.Ring.{has}
use low_latency_learn.Matcher.{MeOrderBook, MeOrderKey}
use low_latency_learn.Matcher.Priority.{qty_in, Beside, Beside-put_order}
use low_latency_learn.Matcher.Priority.Published.{
  fills, part_fill, published, quote_in, left_quotes, IsPublished, published-Beside, quotes-Beside,
}

module _ (ticker_id : ℕ) (side : Side) (b : MeOrderBook) (qty : ℕ → ℕ) (leaves x : ℕ)
    (rest : List ℕ) (known : qty_in b.book x ≡ qty x) where
  pub IsPublished-nothing :
      leaves ≡ 0 → ltb leaves (qty x) ≡ true → IsPublished ticker_id side b b qty leaves (x ∷ rest)
  IsPublished-nothing nothing less =
      let over : (leaves == 0) ≡ true = ground (arith, nothing) in
      let whole : qty_in b.book x ≡ qty x - leaves = omega (arith, nothing, known) in
      record {
        sent = rw over (sym (append-nil b.market_updates));
        quotes =
            rw (known, less)
              (ap (λ n. ((order_at b.book x).key.market_order_id, n) ∷ map (quote_in b.book) rest)
                whole);
      }

  pub IsPublished-part :
      (b' : MeOrderBook)
      → b'.book ≡ put_order b.book x (record (order_at b.book x) { qty = qty x - leaves })
      → b'.market_updates ≡ b.market_updates ++ part_fill ticker_id side (order_at b.book x) leaves
      → (leaves == 0) ≡ false
      → ltb leaves (qty x) ≡ true
      → has x rest ≡ false
      → IsPublished ticker_id side b b' qty leaves (x ∷ rest)
  IsPublished-part b' done sent some_left less out =
      let o = record (order_at b.book x) { qty = qty x - leaves } in
      let c : Book MeOrderKey = put_order b.book x o in
      let mine : quote_in c x
          ≡ ((order_at b.book x).key.market_order_id, qty_in b.book x - leaves) =
        ap (λ p. (p.key.market_order_id, p.qty)) (update_self b.book.order_pool.object x o)
        ∙ ap (λ n. ((order_at b.book x).key.market_order_id, n - leaves)) (sym known) in
      let less' : ltb leaves (qty_in b.book x) ≡ true = ap (ltb leaves) known ∙ less in
      record {
        sent = rw (some_left, less') sent;
        quotes =
            rw (less, less')
              (ap (λ k. map (quote_in k) (x ∷ rest)) done
                ∙ ap₂ (λ p l. p ∷ l) mine
                    (quotes-Beside x b.book c rest (Beside-put_order b.book x (qty x - leaves))
                      out));
      }

  pub IsPublished-first :
      (b₁ b' : MeOrderBook)
      → Beside x b.book b₁.book
      → b₁.market_updates ≡ b.market_updates ++ fills ticker_id side (order_at b.book x)
      → (leaves == 0) ≡ false
      → ltb leaves (qty x) ≡ false
      → has x rest ≡ false
      → IsPublished ticker_id side b₁ b' qty (leaves - qty x) rest
      → IsPublished ticker_id side b b' qty leaves (x ∷ rest)
  IsPublished-first b₁ b' k sent some_left enough out t =
      let enough' : ltb leaves (qty_in b.book x) ≡ false = ap (ltb leaves) known ∙ enough in
      record {
        sent =
            rw (some_left, enough')
              (t.sent
                ∙ ap₂ (λ l r. l ++ r) sent
                    (published-Beside ticker_id side x b.book b₁.book (leaves - qty x) rest k out
                      ∙ ap (λ n. published ticker_id side b.book (leaves - n) rest) (sym known))
                ∙ append_assoc b.market_updates (fills ticker_id side (order_at b.book x)) _);
        quotes =
            rw (enough, enough')
              (t.quotes
                ∙ ap₂ (λ n l. left_quotes (leaves - n) l) (sym known)
                    (quotes-Beside x b.book b₁.book rest k out));
      }
