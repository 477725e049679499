-- ===== src/Publisher/Updates.antt =====
-- exchange/market_data/market_data_publisher.cpp: what the snapshot synthesizer gets to read.
use mathlib.Core.List.{append_assoc, append-nil}
use low_latency_learn.Base.{
  ℕ, suc, ◌+◌, ◌<◌, ◌≡◌, refl, sym, ap, ◌∙◌, inl, inr, List, [], ◌∷◌, ◌++◌, arith, length, numbered,
  number_after, some, none, ok, false, ◌==◌,
}
use low_latency_learn.Types.{inc64}
use low_latency_learn.Messages.{MeMarketUpdate}
use low_latency_learn.LfQueue.{LfQueue, write, get_next_to_read, update_read_index, size}
use low_latency_learn.LfQueue.Contents.{
  IsValid, HasRoom, contents, length-contents, store-update_read_index, write-append,
  get_next_to_read-contents, update_read_index-contents,
}
use low_latency_learn.Snapshot.Published.{mdp_update}
use low_latency_learn.Publisher.{MarketDataPublisher, publish_update, publish_updates}

-- What the publisher has done with the updates that waited.
pub record Published (p p' : MarketDataPublisher) (us : List MeMarketUpdate) : Type 0 where
  pub emptied : contents p'.outgoing_md_updates ≡ []
  pub handed_on :
      contents p'.snapshot_md_updates
      ≡ contents p.snapshot_md_updates ++ numbered mdp_update p.next_inc_seq_num us
  pub next : p'.next_inc_seq_num ≡ number_after p.next_inc_seq_num us

module _ (bytes_of : ℕ → MeMarketUpdate) where
  -- The state behind one round, where `q` is what the queue has become.
  abbrev after_update :
      MarketDataPublisher → (pointer : ℕ) → LfQueue MeMarketUpdate → MarketDataPublisher
  after_update p i q = record {
    next_inc_seq_num = inc64 p.next_inc_seq_num;
    outgoing_md_updates = q;
    snapshot_md_updates = write p.snapshot_md_updates (mdp_update p.next_inc_seq_num (q.store i));
    sent = p.sent ++ (mdp_update p.next_inc_seq_num (bytes_of i) ∷ []);
  }

  publish_updates-none :
      (fuel : ℕ) (p : MarketDataPublisher)
      → get_next_to_read p.outgoing_md_updates ≡ none
      → publish_updates bytes_of (suc fuel) p ≡ ok p
  unfolding publish_updates
  publish_updates-none fuel p h = rw (h, publish_updates) refl

  publish_updates-some :
      (fuel : ℕ) (p : MarketDataPublisher) (i : ℕ) (q : LfQueue MeMarketUpdate)
      → get_next_to_read p.outgoing_md_updates ≡ some i
      → (size p.outgoing_md_updates == 0) ≡ false
      → update_read_index p.outgoing_md_updates ≡ ok q
      → publish_updates bytes_of (suc fuel) p ≡ publish_updates bytes_of fuel (after_update p i q)
  unfolding publish_updates publish_update
  publish_updates-some fuel p i q h k e = rw (h, k, e, publish_updates, publish_update) refl

  -- The updates that wait in a valid queue, with room for them in the queue to the synthesizer, all
  -- reach this queue, in their order and under consecutive numbers from the publisher's on, with
  -- one round of the loop for each and one more. Then no update waits, and the next number is the
  -- one behind the last.
  pub publish_updates-Published :
      (us : List MeMarketUpdate) (p : MarketDataPublisher)
      → IsValid p.outgoing_md_updates
      → contents p.outgoing_md_updates ≡ us
      → HasRoom p.snapshot_md_updates (length us)
      → (p' : MarketDataPublisher) × (publish_updates bytes_of (suc (length us)) p ≡ ok p')
        × Published p p' us
  unfolding size write
  publish_updates-Published [] p v e h =
      let read : get_next_to_read p.outgoing_md_updates ≡ none =
        elim (get_next_to_read-contents p.outgoing_md_updates v) [
          | inl (none_left, none_read) ↦ none_read
          | inr (rest, shown, read) ↦ cc
        ] in
      (
        p,
        publish_updates-none 0 p read,
        record {
          emptied = e;
          handed_on = sym (append-nil (contents p.snapshot_md_updates));
          next = refl;
        },
      )
  publish_updates-Published (u ∷ us) p v e h =
      elim (update_read_index-contents p.outgoing_md_updates v) [
        | inl (none_left, exits) ↦ cc
        | inr (q, moved, v', shown, same) ↦
            let at = p.outgoing_md_updates.next_read_index in
            let read : get_next_to_read p.outgoing_md_updates ≡ some at =
              elim (get_next_to_read-contents p.outgoing_md_updates v) [
                | inl (none_left, none_read) ↦ cc
                | inr (rest, shown', found) ↦ found
              ] in
            let counted : p.outgoing_md_updates.num_elements ≡ suc (length us) =
              sym (length-contents p.outgoing_md_updates) ∙ ap length e in
            let left : contents q ≡ us = cc in
            let head : q.store at ≡ u =
              ap (λ f. f at) (store-update_read_index p.outgoing_md_updates moved) ∙ cc in
            let p₁ = after_update p at q in
            let (room, grown) =
              write-append p.snapshot_md_updates h.0 (mdp_update p.next_inc_seq_num (q.store at))
                (omega arith) in
            let more : (write p.snapshot_md_updates
                    (mdp_update p.next_inc_seq_num (q.store at))).num_elements
                  + length us
                < p.snapshot_md_updates.store_size =
              omega arith in
            let (p', runs, done) = publish_updates-Published us p₁ v' left (room, more) in
            (
              p',
              publish_updates-some (suc (length us)) p at q read (ground arith) moved ∙ runs,
              record {
                emptied = done.emptied;
                handed_on =
                    done.handed_on
                    ∙ ap (λ l. l ++ numbered mdp_update (inc64 p.next_inc_seq_num) us) grown
                    ∙ append_assoc (contents p.snapshot_md_updates)
                        (mdp_update p.next_inc_seq_num (q.store at) ∷ []) _
                    ∙ ap
                        (λ x.
                          contents p.snapshot_md_updates
                          ++ (mdp_update p.next_inc_seq_num x
                              ∷ numbered mdp_update (inc64 p.next_inc_seq_num) us))
                        head;
                next = done.next;
              },
            )
      ]
