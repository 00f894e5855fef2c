-- ===== src/Receive/Hollow.antt =====
-- A transfer whose input ends with a whole chunk: the last chunk that is sent has no bytes. The decoder
-- takes its packets in and never completes it.
use hairgap.Wirehair.{Wirehair, Recovers}
use hairgap.Code.{to_int, success}
use hairgap.Proto.{Pkt, begin, end, pkt_type}
use hairgap.Encoding.{Chunk, purge}
use hairgap.Encoding.Decode.{
  t_started, t_data, Decoder, decoder_new, first_packet, dec_chunk_init, handle_data,
}
use hairgap.Encoding.Packet.{Piece, Parcel, wire, wire_size, IsParcel}
use hairgap.Encoding.Reading.{Running, decoder_read-wire, decoder_read-noise, decoder_read-begin}
use hairgap.Encoding.Delivery.{pkt_of, payload_lem, IsReady}
use hairgap.Receive.Decloop.{Thread, Turn, loop}
use hairgap.Receive.Events.{Event, piece, noise, arrival, turns_of, IsEventOf}
use hairgap.Receive.Stream.{loop-goes_on}
use hairgap.Receive.Transfer.{
  Delivery, IsDelivery, all_turns, messages, Renumbered, last_num, loop-deliveries, loop-end,
}
use hairgap.Prelude.{
  length, load_lem, All, pos, ret, ℕ, ◌+◌, ◌≡◌, refl, sym, ap, ◌∙◌, ◌≢◌, inl, inr, false, Option,
  some, List, [], ◌∷◌, ◌++◌, arith, u64,
}

phase_same :
    {S : Type 0} (dec : Decoder S) → dec.phase ≡ t_data → record dec { phase = t_data } ≡ dec
phase_same dec e = ground arith

module _ (w : Wirehair) where
  open w use {State}

  -- The decoder has met the chunk `c`, which has no bytes.
  record IsIdle (c : Parcel) (dec : Decoder State) : Type 0 where
    phase : dec.phase ≡ t_data
    num : dec.chunk.num ≡ c.num
    len : dec.chunk.len ≡ 0
    held : dec.chunk.content ≡ some []
    incomplete : dec.chunk_complete ≡ false

  module _ {c : Parcel} (v : IsParcel c) (empty : length c.message ≡ 0) where
    hollow_first :
        {dec : Decoder State} (p : Piece)
        → IsReady w c dec
        → dec.phase ≡ t_data
        → (dec' : Decoder State) × (handle_data w dec (pkt_of c p) ≡ ret (dec', pos 0))
          × IsIdle c dec'
    unfolding handle_data dec_chunk_init
    hollow_first {dec} p r ph =
        let c1 : Chunk State = record (first_packet w (purge dec.chunk) (pkt_of c p)) {
          next_pkt_id = u64 (p.id + 1);
          content = some [];
        } in
        (
          record dec { chunk = c1; chunk_complete = false; chunk_emitted = false },
          ground (
            arith,
            payload_lem v,
            load_lem (p.body ++ p.stale) 0 (length c.message),
            r.complete,
            r.other,
          ),
          ground arith,
        )

    hollow_again :
        {dec : Decoder State} (p : Piece)
        → IsIdle c dec
        → handle_data w dec (pkt_of c p) ≡ ret (dec, pos 0)
    unfolding handle_data
    hollow_again {dec} p k = ground arith

  module _ (junk : Pkt) (malloc : ℕ → List ℕ) (c : Parcel) (enc : Option State) (v : IsParcel c)
      (empty : length c.message ≡ 0) where
    loop-idle :
        (dec : Decoder State) (es : List Event) (sent : List (List ℕ)) (ts : List Turn)
        → IsIdle c dec
        → All (IsEventOf w enc c) es
        → loop w junk malloc dec sent (turns_of c es ++ ts) ≡ loop w junk malloc dec sent ts
    loop-idle dec [] sent ts k h = refl
    loop-idle dec (noise raw size ∷ es) sent ts k h =
        loop-goes_on w junk malloc dec dec raw size sent (turns_of c es ++ ts)
          (decoder_read-noise w junk dec raw size (inr k.phase) h.0.0 h.0.1)
        ∙ loop-idle dec es sent ts k h.1
    loop-idle dec (piece p ∷ es) sent ts k h =
        loop-goes_on w junk malloc dec dec (wire c p) (wire_size c) sent (turns_of c es ++ ts) (
          decoder_read-wire w junk dec c p v h.0.id_fits (inr k.phase)
          ∙ ap (λ d. handle_data w d (pkt_of c p)) (phase_same dec k.phase)
          ∙ hollow_again v empty p k)
        ∙ loop-idle dec es sent ts k h.1

    pub loop-hollow :
        (dec : Decoder State) (es : List Event) (sent : List (List ℕ)) (ts : List Turn)
        → IsReady w c dec
        → Running dec.phase
        → All (IsEventOf w enc c) es
        → (dec' : Decoder State) × (loop w junk malloc dec sent (turns_of c es ++ ts)
            ≡ loop w junk malloc dec' sent ts)
          × Running dec'.phase
    loop-hollow dec [] sent ts r ph h = (dec, refl, ph)
    loop-hollow dec (noise raw size ∷ es) sent ts r ph h =
        let (dec', eq, ph') = loop-hollow dec es sent ts r ph h.1 in
        (
          dec',
          loop-goes_on w junk malloc dec dec raw size sent (turns_of c es ++ ts)
                (decoder_read-noise w junk dec raw size ph h.0.0 h.0.1)
              ∙ eq,
          ph',
        )
    loop-hollow dec (piece p ∷ es) sent ts r ph h =
        let dec1 : Decoder State = record dec { phase = t_data } in
        let (dec2, eq, k) =
          hollow_first v empty {dec = dec1} p (record { complete = r.complete; other = r.other })
            refl in
        (
          dec2,
          loop-goes_on w junk malloc dec dec2 (wire c p) (wire_size c) sent (turns_of c es ++ ts)
                (decoder_read-wire w junk dec c p v h.0.id_fits ph ∙ eq)
              ∙ loop-idle dec2 es sent ts k h.1,
          inr k.phase,
        )

  -- The packets of a last chunk without bytes, however many of them arrive, do not change what a
  -- transfer delivers.
  pub transfer_hollow :
      (junk : Pkt) (malloc : ℕ → List ℕ)
      → Recovers w
      → ((n : ℕ) → length (malloc n) ≡ n)
      → (ds : List Delivery) (c : Parcel) (enc : Option State) (es : List Event)
        (beacon final : List ℕ) (beacon_size final_size : ℕ)
      → pkt_type beacon beacon_size ≡ begin
      → pkt_type final final_size ≡ end
      → Renumbered 0xffffffffffffffff ds
      → last_num 0xffffffffffffffff ds ≢ c.num
      → All (IsDelivery w) ds
      → IsParcel c
      → length c.message ≡ 0
      → All (IsEventOf w enc c) es
      → (t : Thread State) × (loop w junk malloc decoder_new [] (
            arrival beacon beacon_size
            ∷ (all_turns ds ++ (turns_of c es ++ (arrival final final_size ∷ []))))
          ≡ ret t)
        × (t.output ≡ messages ds)
        × (t.ended ≡ some (to_int success, false))
  transfer_hollow junk malloc law alloc ds c enc es beacon final bs fs hb hf new other h v empty
        genuine =
      let dec0 : Decoder State = record decoder_new { phase = t_started } in
      let ts = turns_of c es ++ (arrival final fs ∷ []) in
      let (dec1, eq, b) =
        loop-deliveries w junk malloc law alloc dec0 0xffffffffffffffff ds [] ts
          (record { running = inl refl; complete = refl; last = refl }) new h in
      let (dec2, eq', ph) =
        loop-hollow junk malloc c enc v empty dec1 es (messages ds) (arrival final fs ∷ [])
          (record { complete = b.complete; other = λ e. other (sym b.last ∙ e) }) b.running
          genuine in
      (
        _,
        loop-goes_on w junk malloc decoder_new dec0 beacon bs [] (all_turns ds ++ ts)
              (decoder_read-begin w junk decoder_new beacon bs refl hb)
            ∙ eq
            ∙ eq'
            ∙ loop-end w junk malloc law alloc dec2 final fs (messages ds) [] ph hf,
        refl,
        refl,
      )
