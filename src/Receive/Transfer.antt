-- ===== src/Receive/Transfer.antt =====
-- A whole transfer, from the packet that begins it to the packet that ends it.
use hairgap.Wirehair.{Wirehair, IsBlockOf, feed, Recovers}
use hairgap.Code.{to_int, success}
use hairgap.Proto.{Pkt, begin, end, pkt_type, max_chunk_size}
use hairgap.Encoding.Decode.{t_stopped, t_started, Decoder, decoder_new}
use hairgap.Encoding.Packet.{Parcel, IsParcel}
use hairgap.Encoding.Reading.{Running, decoder_read-end, decoder_read-begin}
use hairgap.Receive.Decloop.{Turn, Thread, round, loop}
use hairgap.Receive.Events.{Event, arrival, turns_of, blocks_of, IsEventOf, Suffices}
use hairgap.Receive.Stream.{loop-parcel, loop-goes_on}
use hairgap.Prelude.{
  length, All, ret, ℕ, ◌≤◌, ◌<◌, ◌≡◌, refl, sym, ap, ◌∙◌, subst, ◌≢◌, inl, inr, true, false, Option,
  some, List, [], ◌∷◌, ◌++◌, append-nil, append_assoc,
}

-- What arrives of one chunk.
pub record Delivery : Type 0 where
  pub parcel : Parcel
  pub events : List Event

abbrev pub all_turns : List Delivery → List Turn
all_turns [] = []
all_turns (d ∷ ds) = turns_of d.parcel d.events ++ all_turns ds

abbrev pub messages : List Delivery → List (List ℕ)
messages [] = []
messages (d ∷ ds) = d.parcel.message ∷ messages ds

-- Each chunk has another number than the one before it; the first, another than `num`.
abbrev pub Renumbered : ℕ → List Delivery → Type 0
Renumbered num [] = Unit
Renumbered num (d ∷ ds) = (num ≢ d.parcel.num) × Renumbered d.parcel.num ds

-- The number of the last chunk, or `num` if there is none.
abbrev pub last_num : ℕ → List Delivery → ℕ
last_num num [] = num
last_num num (d ∷ ds) = last_num d.parcel.num ds

module _ (w : Wirehair) where
  open w use {State, encode, decode}

  -- A chunk of bytes that was encoded and sent in packets, of which enough arrive: one at least,
  -- and if it is large, as many as a wirehair decoder needs to report itself ready.
  pub record IsDelivery (d : Delivery) : Type 0 where
    pub parcel : IsParcel d.parcel
    pub bounded : length d.parcel.message ≤ max_chunk_size
    pub nonempty : 0 < length d.parcel.message
    pub enc : Option State
    pub encoded :
        d.parcel.pay < length d.parcel.message
        → (reuse : Option State) × (e : State) × (encode reuse d.parcel.message d.parcel.pay
            ≡ some e)
          × (enc ≡ some e)
    pub pieces : All (IsEventOf w enc d.parcel) d.events
    pub some_piece : blocks_of d.events ≢ []
    pub ready :
        d.parcel.pay < length d.parcel.message
        → (reuse : Option State)
        → (s : State) × (s' : State) × (decode reuse (length d.parcel.message) d.parcel.pay
            ≡ some s)
          × (feed w s (blocks_of d.events) ≡ some s')

  blocks-IsBlockOf :
      (enc : Option State) (c : Parcel) (es : List Event)
      → c.pay < length c.message
      → All (IsEventOf w enc c) es
      → All (IsBlockOf w enc c.pay) (blocks_of es)
  blocks-IsBlockOf enc c [] big h = tt
  blocks-IsBlockOf enc c (Event.piece p ∷ es) big h =
      (h.0.large big, blocks-IsBlockOf enc c es big h.1)
  blocks-IsBlockOf enc c (Event.noise raw size ∷ es) big h = blocks-IsBlockOf enc c es big h.1

  delivery-Suffices : {d : Delivery} → Recovers w → IsDelivery d → Suffices w d.parcel d.events
  delivery-Suffices {d} law v = record {
    some_piece = v.some_piece;
    enough = λ big reuse.
        let (s, s', made, fed) = v.ready big reuse in
        let (reuse', e, enc_lem, same) = v.encoded big in
        (
          s,
          s',
          made,
          fed,
          law.recovers reuse' reuse d.parcel.message d.parcel.pay (blocks_of d.events) enc_lem made
              (subst (λ enc. All (IsBlockOf w enc d.parcel.pay) (blocks_of d.events)) same
                (blocks-IsBlockOf v.enc d.parcel d.events big v.pieces))
              fed,
        );
  }

module _ (w : Wirehair) (junk : Pkt) (malloc : ℕ → List ℕ) where
  open w use {State}

  -- The decoder between two chunks, after the chunk `num`.
  pub record IsBetween (num : ℕ) (dec : Decoder State) : Type 0 where
    pub running : Running dec.phase
    pub complete : dec.chunk_complete ≡ true
    pub last : dec.chunk.num ≡ num

  module _ (law : Recovers w) (alloc : (n : ℕ) → length (malloc n) ≡ n) where
    pub loop-deliveries :
        (dec : Decoder State) (num : ℕ) (ds : List Delivery) (sent : List (List ℕ)) (ts : List Turn)
        → IsBetween num dec
        → Renumbered num ds
        → All (IsDelivery w) ds
        → (dec' : Decoder State) × (loop w junk malloc dec sent (all_turns ds ++ ts)
            ≡ loop w junk malloc dec' (sent ++ messages ds) ts)
          × IsBetween (last_num num ds) dec'
    loop-deliveries dec num [] sent ts b r h = (dec, rw append-nil refl, b)
    loop-deliveries dec num (d ∷ ds) sent ts b r h =
        let c = d.parcel in
        let v = h.0 in
        let (dec1, eq, held, em) =
          loop-parcel w junk malloc c v.enc v.parcel v.bounded alloc dec d.events sent
            (all_turns ds ++ ts)
            (record { complete = b.complete; other = λ e. r.0 (sym b.last ∙ e) }) b.running v.pieces
            v.nonempty (delivery-Suffices w law v) in
        let (dec', eq', run) =
          loop-deliveries dec1 c.num ds (sent ++ (c.message ∷ [])) ts
            (record { running = inr held.phase; complete = held.complete; last = held.num }) r.1
            h.1 in
        (
          dec',
          ap (loop w junk malloc dec sent) (append_assoc (turns_of c d.events) (all_turns ds) ts)
              ∙ eq
              ∙ eq'
              ∙ ap (λ out. loop w junk malloc dec' out ts)
                  (append_assoc sent (c.message ∷ []) (messages ds)),
          run,
        )

    -- One round on the packet that ends the transfer.
    pub loop-end :
        (dec : Decoder State) (raw : List ℕ) (size : ℕ) (sent : List (List ℕ)) (ts : List Turn)
        → Running dec.phase
        → pkt_type raw size ≡ end
        → loop w junk malloc dec sent (arrival raw size ∷ ts)
          ≡ ret (record {
            dec = record dec { phase = t_stopped };
            output = sent;
            ended = some (to_int success, false);
          })
    unfolding loop round
    loop-end dec raw size sent ts r e = rw (decoder_read-end w junk dec raw size r e) refl

    -- A transfer is delivered: a new decoder that receives the beacon, then enough packets of each
    -- chunk, with lost ones left out and any packets mixed in that are neither data nor the end,
    -- the chunks numbered so that each has another number than the one before, and then the end,
    -- hands to the writer the bytes of all chunks, in order and with nothing else, and its thread
    -- ends without an error. The chunks are not empty and not larger than HGAP_MAX_CHUNK_SIZE, and
    -- wirehair recovers what it encoded.
    pub transfer_delivered :
        (ds : List Delivery) (beacon final : List ℕ) (beacon_size final_size : ℕ)
        → pkt_type beacon beacon_size ≡ begin
        → pkt_type final final_size ≡ end
        → Renumbered 0xffffffffffffffff ds
        → All (IsDelivery w) ds
        → (t : Thread State) × (loop w junk malloc decoder_new []
              (arrival beacon beacon_size ∷ (all_turns ds ++ (arrival final final_size ∷ [])))
            ≡ ret t)
          × (t.output ≡ messages ds)
          × (t.ended ≡ some (to_int success, false))
    transfer_delivered ds beacon final bs fs hb hf r h =
        let dec0 : Decoder State = record decoder_new { phase = t_started } in
        let (dec', eq, run) =
          loop-deliveries dec0 0xffffffffffffffff ds [] (arrival final fs ∷ [])
            (record { running = inl refl; complete = refl; last = refl }) r h in
        (
          _,
          loop-goes_on w junk malloc decoder_new dec0 beacon bs []
                (all_turns ds ++ (arrival final fs ∷ []))
                (decoder_read-begin w junk decoder_new beacon bs refl hb)
              ∙ eq
              ∙ loop-end dec' final fs (messages ds) [] run.running hf,
          refl,
          refl,
        )
