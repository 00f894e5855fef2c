-- ===== src/Receive/Truncated.antt =====
-- Transfers that lose too much, and end all the same.
use hairgap.Wirehair.{Wirehair, feed, feed-ready, feed-more, Recovers}
use hairgap.Code.{to_int, success}
use hairgap.Proto.{Pkt, begin, end, pkt_type, max_chunk_size}
use hairgap.Encoding.Decode.{t_started, t_data, Decoder, decoder_new, decoder_read}
use hairgap.Encoding.Packet.{Piece, Parcel, wire, wire_size, IsParcel}
use hairgap.Encoding.Reading.{Running, decoder_read-wire, decoder_read-noise, decoder_read-begin}
use hairgap.Encoding.Delivery.{block_of, IsReady, IsCollecting, large_first, large_refused, collect}
use hairgap.Receive.Decloop.{Thread, Turn, round, loop}
use hairgap.Receive.Events.{Event, piece, noise, arrival, turns_of, blocks_of, IsEventOf}
use hairgap.Receive.Stream.{pair-cases, loop-goes_on, loop-same, read_piece}
use hairgap.Receive.Transfer.{
  Delivery, IsDelivery, all_turns, messages, Renumbered, last_num, loop-deliveries, loop-end,
}
use hairgap.Prelude.{
  length, All, negsuc, ret, ℕ, ◌^◌, ◌≤◌, ◌<◌, ◌≡◌, refl, sym, ◌∙◌, ◌≢◌, inl, inr, false, Option,
  none, some, List, [], ◌∷◌, ◌++◌,
}

-- A large chunk of which too little arrives: a wirehair decoder never reports itself ready.
pub record IsUnfinished (w : Wirehair) (c : Parcel) (es : List Event) : Type 0 where
  pub parcel : IsParcel c
  pub bounded : length c.message ≤ max_chunk_size
  pub big : c.pay < length c.message
  pub enc : Option w.State
  pub pieces : All (IsEventOf w enc c) es
  pub starved :
      (reuse : Option w.State)
      → (s : w.State) × (w.decode reuse (length c.message) c.pay ≡ some s)
        × (feed w s (blocks_of es) ≡ none)

module _ (w : Wirehair) (junk : Pkt) (malloc : ℕ → List ℕ)
    (alloc : (n : ℕ) → length (malloc n) ≡ n) where
  open w use {State, read}

  module _ (c : Parcel) (enc : Option State) (v : IsParcel c)
      (bounded : length c.message ≤ max_chunk_size) (big : c.pay < length c.message) where
    loop-starved :
        (dec : Decoder State) (d : State) (es : List Event) (sent : List (List ℕ)) (ts : List Turn)
        → IsCollecting w c d dec
        → All (IsEventOf w enc c) es
        → feed w d (blocks_of es) ≡ none
        → (dec' : Decoder State) × (loop w junk malloc dec sent (turns_of c es ++ ts)
            ≡ loop w junk malloc dec' sent ts)
          × (dec'.phase ≡ t_data)
    loop-starved dec d [] sent ts k h f = (dec, refl, k.phase)
    loop-starved dec d (noise raw size ∷ es) sent ts k h f =
        let (dec', eq, ph) = loop-starved dec d es sent ts k h.1 f in
        (
          dec',
          loop-goes_on w junk malloc dec dec raw size sent (turns_of c es ++ ts)
                (decoder_read-noise w junk dec raw size (inr k.phase) h.0.0 h.0.1)
              ∙ eq,
          ph,
        )
    loop-starved dec d (piece p ∷ es) sent ts k h f = elim (pair-cases (read d p.id p.body)) [
      | inl (s, e) ↦ cc (feed-ready w d s (block_of p) (blocks_of es) e, f)
      | inr (s, e) ↦
          let (dec1, eq, kept) = collect w v bounded k h.0 big e in
          let (dec', eq', ph) =
            loop-starved dec1 s es sent ts kept h.1
              (sym (feed-more w d s (block_of p) (blocks_of es) e) ∙ f) in
          (
            dec',
            loop-goes_on w junk malloc dec dec1 (wire c p) (wire_size c) sent (turns_of c es ++ ts)
                  (read_piece w junk malloc c enc v bounded alloc dec p h.0 k.phase ∙ eq)
                ∙ eq',
            ph,
          )
    ]

    loop-unfinished :
        (dec : Decoder State) (es : List Event) (sent : List (List ℕ)) (ts : List Turn)
        → IsReady w c dec
        → Running dec.phase
        → All (IsEventOf w enc c) es
        → ((reuse : Option State)
            → (s : State) × (w.decode reuse (length c.message) c.pay ≡ some s)
              × (feed w s (blocks_of es) ≡ none))
        → (dec' : Decoder State) × (loop w junk malloc dec sent (turns_of c es ++ ts)
            ≡ loop w junk malloc dec' sent ts)
          × Running dec'.phase
    loop-unfinished dec [] sent ts r ph h s = (dec, refl, ph)
    loop-unfinished dec (noise raw size ∷ es) sent ts r ph h s =
        let (dec', eq, ph') = loop-unfinished dec es sent ts r ph h.1 s in
        (
          dec',
          loop-goes_on w junk malloc dec dec raw size sent (turns_of c es ++ ts)
                (decoder_read-noise w junk dec raw size ph h.0.0 h.0.1)
              ∙ eq,
          ph',
        )
    loop-unfinished dec (piece p ∷ es) sent ts r ph h s =
        let dec1 : Decoder State = record dec { phase = t_data } in
        let (d, made, fed) = s dec.chunk.wh_state in
        let (dec2, eq, kept) =
          large_first w v bounded {dec = dec1} (record { complete = r.complete; other = r.other })
            h.0 refl big made in
        let (dec', eq', ph') = loop-starved dec2 d (piece p ∷ es) sent ts kept h fed in
        (
          dec',
          loop-same w junk malloc dec dec2 (wire c p) (wire_size c) sent (turns_of c es ++ ts) (
                decoder_read-wire w junk dec c p v h.0.id_fits ph
                ∙ eq
                ∙ sym (read_piece w junk malloc c enc v bounded alloc dec2 p h.0 kept.phase))
              ∙ eq',
          inr ph',
        )

  -- The decoder thread behind the beacon, the chunks of which enough arrived, and the packets of one of
  -- which too few did.
  pub loop-truncated :
      Recovers w
      → (ds : List Delivery) (c : Parcel) (es : List Event) (beacon : List ℕ) (beacon_size : ℕ)
        (ts : List Turn)
      → pkt_type beacon beacon_size ≡ begin
      → Renumbered 0xffffffffffffffff ds
      → last_num 0xffffffffffffffff ds ≢ c.num
      → All (IsDelivery w) ds
      → IsUnfinished w c es
      → (dec : Decoder State) × (loop w junk malloc decoder_new []
            (arrival beacon beacon_size ∷ (all_turns ds ++ (turns_of c es ++ ts)))
          ≡ loop w junk malloc dec (messages ds) ts)
        × Running dec.phase
  loop-truncated law ds c es beacon bs ts hb r new h u =
      let dec0 : Decoder State = record decoder_new { phase = t_started } in
      let (dec1, eq, b) =
        loop-deliveries w junk malloc law alloc dec0 0xffffffffffffffff ds [] (turns_of c es ++ ts)
          (record { running = inl refl; complete = refl; last = refl }) r h in
      let (dec2, eq', ph) =
        loop-unfinished c u.enc u.parcel u.bounded u.big dec1 es (messages ds) ts
          (record { complete = b.complete; other = λ e. new (sym b.last ∙ e) }) b.running u.pieces
          u.starved in
      (
        dec2,
        loop-goes_on w junk malloc decoder_new dec0 beacon bs []
              (all_turns ds ++ (turns_of c es ++ ts))
              (decoder_read-begin w junk decoder_new beacon bs refl hb)
            ∙ eq
            ∙ eq',
        ph,
      )

  -- After the beacon and enough packets of every chunk before it, a last chunk that is too large
  -- for one packet, and of which too few blocks arrive for a wirehair decoder to be ready, is left
  -- out without notice when the end arrives: the chunks before it are handed over and the thread
  -- reports success. The chunks are numbered so that each has another number than the one before,
  -- and wirehair recovers what it encoded.
  pub truncated_unreported :
      Recovers w
      → (ds : List Delivery) (c : Parcel) (es : List Event) (beacon final : List ℕ)
        (beacon_size final_size : ℕ)
      → pkt_type beacon beacon_size ≡ begin
      → pkt_type final final_size ≡ end
      → Renumbered 0xffffffffffffffff ds
      → last_num 0xffffffffffffffff ds ≢ c.num
      → All (IsDelivery w) ds
      → IsUnfinished w c es
      → (t : Thread State) × (loop w junk malloc decoder_new [] (
            arrival beacon beacon_size
            ∷ (all_turns ds ++ (turns_of c es ++ (arrival final final_size ∷ []))))
          ≡ ret t)
        × (t.output ≡ messages ds)
        × (t.ended ≡ some (to_int success, false))
  truncated_unreported law ds c es beacon final bs fs hb hf r new h u =
      let (dec, eq, ph) =
        loop-truncated law ds c es beacon bs (arrival final fs ∷ []) hb r new h u in
      (_, eq ∙ loop-end w junk malloc law alloc dec final fs (messages ds) [] ph hf, refl, refl)

  loop-refused :
      (dec dec' : Decoder State) (raw : List ℕ) (size : ℕ) (sent : List (List ℕ)) (ts : List Turn)
      → decoder_read w junk dec raw size ≡ ret (dec', negsuc 0)
      → loop w junk malloc dec sent (arrival raw size ∷ ts)
        ≡ ret (record { dec = dec'; output = sent; ended = some (to_int success, false) })
  unfolding loop round
  loop-refused dec dec' raw size sent ts e = rw e refl

  -- When a running decoder between two chunks receives a packet of a new chunk that does not fit
  -- one packet and is not larger than HGAP_MAX_CHUNK_SIZE, and wirehair refuses to make a decoder
  -- for it, the thread takes that for the end of the transfer: it stops, whatever is still to come,
  -- and reports success.
  pub refused_unreported :
      (c : Parcel) (p : Piece) (dec : Decoder State) (sent : List (List ℕ)) (ts : List Turn)
      → IsParcel c
      → p.id < 2 ^ 32
      → length c.message ≤ max_chunk_size
      → c.pay < length c.message
      → IsReady w c dec
      → Running dec.phase
      → w.decode dec.chunk.wh_state (length c.message) c.pay ≡ none
      → (t : Thread State) × (loop w junk malloc dec sent (arrival (wire c p) (wire_size c) ∷ ts)
          ≡ ret t)
        × (t.output ≡ sent)
        × (t.ended ≡ some (to_int success, false))
  refused_unreported c p dec sent ts v id_fits bounded big r ph e =
      let dec1 : Decoder State = record dec { phase = t_data } in
      let (dec', eq) =
        large_refused w {c = c} {dec = dec1} p v bounded
          (record { complete = r.complete; other = r.other }) big e in
      (
        _,
        loop-refused dec dec' (wire c p) (wire_size c) sent ts
            (decoder_read-wire w junk dec c p v id_fits ph ∙ eq),
        refl,
        refl,
      )
