-- ===== src/Receive/Stream.antt =====
-- The decoder thread on the packets of a whole transfer: what survives of the chunks, in order,
-- with control packets anywhere between.
use hairgap.Wirehair.{Wirehair, feed-ready, feed-more, feed}
use hairgap.Proto.{Pkt, max_chunk_size}
use hairgap.Encoding.Decode.{t_data, Decoder, decoder_read, handle_data}
use hairgap.Encoding.Packet.{Piece, Parcel, wire, wire_size, IsParcel}
use hairgap.Encoding.Reading.{Running, decoder_read-wire, decoder_read-noise}
use hairgap.Encoding.Delivery.{
  pkt_of, block_of, IsPieceOf, IsReady, IsCollecting, IsHolding, small_first, large_first, collect,
  complete, decoder_emit-IsHolding, passed_over, emitted-IsHolding,
}
use hairgap.Receive.Decloop.{Turn, round, loop}
use hairgap.Prelude.{
  leb, tests, Bool-cases, length, All, pos, ret, ℕ, suc, ◌-◌, ◌≤◌, ◌<◌, ◌≡◌, refl, sym, ap, ◌∙◌,
  ◌⊎◌, inl, inr, Bool, true, false, Option, some, List, [], ◌∷◌, ◌++◌, append-nil, arith,
}
use hairgap.Receive.Events.{Event, piece, noise, arrival, turns_of, blocks_of, IsEventOf, Suffices}

pub pair-cases :
    {S : Type 0} (x : S × Bool) → ((s : S) × (x ≡ (s, true))) ⊎ ((s : S) × (x ≡ (s, false)))
pair-cases (s, true) = inl (s, refl)
pair-cases (s, false) = inr (s, refl)

module _ (w : Wirehair) (junk : Pkt) (malloc : ℕ → List ℕ) where
  open w use {State, read, reconstruct}

  -- One arrival, by what `hgap_decoder_read` makes of it.
  pub loop-goes_on :
      (dec dec' : Decoder State) (raw : List ℕ) (size : ℕ) (sent : List (List ℕ)) (ts : List Turn)
      → decoder_read w junk dec raw size ≡ ret (dec', pos 0)
      → loop w junk malloc dec sent (arrival raw size ∷ ts) ≡ loop w junk malloc dec' sent ts
  unfolding loop round
  loop-goes_on dec dec' raw size sent ts e = rw e (rw append-nil)

  pub loop-same :
      (dec dec' : Decoder State) (raw : List ℕ) (size : ℕ) (sent : List (List ℕ)) (ts : List Turn)
      → decoder_read w junk dec raw size ≡ decoder_read w junk dec' raw size
      → loop w junk malloc dec sent (arrival raw size ∷ ts)
        ≡ loop w junk malloc dec' sent (arrival raw size ∷ ts)
  unfolding loop round
  loop-same dec dec' raw size sent ts e = rw e

  module _ (c : Parcel) (enc : Option State) (v : IsParcel c)
      (bounded : length c.message ≤ max_chunk_size) (alloc : (n : ℕ) → length (malloc n) ≡ n) where
    pub read_piece :
        (dec : Decoder State) (p : Piece)
        → IsPieceOf w enc c p
        → dec.phase ≡ t_data
        → decoder_read w junk dec (wire c p) (wire_size c) ≡ handle_data w dec (pkt_of c p)
    read_piece dec p i ph =
        decoder_read-wire w junk dec c p v i.id_fits (inr ph)
        ∙ ap (λ (d : Decoder State). handle_data w d (pkt_of c p)) (ground arith)

    -- Once a chunk was emitted, nothing that belongs to it changes anything.
    loop-passed_over :
        (dec : Decoder State) (es : List Event) (sent : List (List ℕ)) (ts : List Turn)
        → IsHolding w c dec
        → dec.chunk_emitted ≡ true
        → All (IsEventOf w enc c) es
        → loop w junk malloc dec sent (turns_of c es ++ ts) ≡ loop w junk malloc dec sent ts
    loop-passed_over dec [] sent ts k e h = refl
    loop-passed_over dec (piece p ∷ es) sent ts k e h =
        loop-goes_on dec dec (wire c p) (wire_size c) sent (turns_of c es ++ ts)
          (read_piece dec p h.0 k.phase ∙ passed_over w p k e)
        ∙ loop-passed_over dec es sent ts k e h.1
    loop-passed_over dec (noise raw size ∷ es) sent ts k e h =
        loop-goes_on dec dec raw size sent (turns_of c es ++ ts)
          (decoder_read-noise w junk dec raw size (inr k.phase) h.0.0 h.0.1)
        ∙ loop-passed_over dec es sent ts k e h.1

    -- The packet that completes the chunk: its bytes go to the writer.
    loop-emits :
        (dec dec' : Decoder State) (raw : List ℕ) (size n : ℕ) (sent : List (List ℕ))
        (ts : List Turn)
        → decoder_read w junk dec raw size ≡ ret (dec', pos (length c.message))
        → length c.message ≡ suc n
        → IsHolding w c dec'
        → loop w junk malloc dec sent (arrival raw size ∷ ts)
          ≡ loop w junk malloc (record dec' { chunk_emitted = true }) (sent ++ (c.message ∷ [])) ts
    unfolding loop round
    loop-emits dec dec' raw size n sent ts e len k =
        let emitted = decoder_emit-IsHolding w (malloc (length c.message)) k (alloc _) in
        rw (e, len) (rw (rw len at emitted) refl)

    -- A large chunk, from the state `d` of its wirehair decoder on.
    loop-collect :
        (dec : Decoder State) (d d' : State) (es : List Event) (sent : List (List ℕ))
        (ts : List Turn)
        → IsCollecting w c d dec
        → All (IsEventOf w enc c) es
        → c.pay < length c.message
        → feed w d (blocks_of es) ≡ some d'
        → reconstruct (some d') ≡ some c.message
        → (dec' : Decoder State) × (loop w junk malloc dec sent (turns_of c es ++ ts)
            ≡ loop w junk malloc dec' (sent ++ (c.message ∷ [])) ts)
          × IsHolding w c dec'
          × (dec'.chunk_emitted ≡ true)
    unfolding feed
    loop-collect dec d d' [] sent ts k h big f rec = cc
    loop-collect dec d d' (noise raw size ∷ es) sent ts k h big f rec =
        let (dec', eq, held, em) = loop-collect dec d d' es sent ts k h.1 big f rec in
        (
          dec',
          loop-goes_on dec dec raw size sent (turns_of c es ++ ts)
                (decoder_read-noise w junk dec raw size (inr k.phase) h.0.0 h.0.1)
              ∙ eq,
          held,
          em,
        )
    loop-collect dec d d' (piece p ∷ es) sent ts k h big f rec =
        elim (pair-cases (read d p.id p.body)) [
          | inl (s, e) ↦
              let same : some s ≡ some d' =
                sym (feed-ready w d s (block_of p) (blocks_of es) e) ∙ f in
              let (dec', eq, held) = complete w v bounded k h.0 big e (ap reconstruct same ∙ rec) in
              let held' = emitted-IsHolding w held in
              (
                record dec' { chunk_emitted = true },
                loop-emits dec dec' (wire c p) (wire_size c) (length c.message - 1) sent
                      (turns_of c es ++ ts) (read_piece dec p h.0 k.phase ∙ eq) (omega arith) held
                    ∙ loop-passed_over (record dec' { chunk_emitted = true }) es
                        (sent ++ (c.message ∷ [])) ts held' refl h.1,
                held',
                refl,
              )
          | inr (s, e) ↦
              let (dec1, eq, kept) = collect w v bounded k h.0 big e in
              let (dec', eq', held, em) =
                loop-collect dec1 s d' es sent ts kept h.1 big
                  (sym (feed-more w d s (block_of p) (blocks_of es) e) ∙ f) rec in
              (
                dec',
                loop-goes_on dec dec1 (wire c p) (wire_size c) sent (turns_of c es ++ ts)
                      (read_piece dec p h.0 k.phase ∙ eq)
                    ∙ eq',
                held,
                em,
              )
        ]

    -- The first packet of a chunk, at a decoder that is ready for it.
    loop-first :
        (dec : Decoder State) (p : Piece) (es : List Event) (sent : List (List ℕ)) (ts : List Turn)
        → IsReady w c dec
        → dec.phase ≡ t_data
        → All (IsEventOf w enc c) (piece p ∷ es)
        → 0 < length c.message
        → Suffices w c (piece p ∷ es)
        → (dec' : Decoder State) × (loop w junk malloc dec sent (turns_of c (piece p ∷ es) ++ ts)
            ≡ loop w junk malloc dec' (sent ++ (c.message ∷ [])) ts)
          × IsHolding w c dec'
          × (dec'.chunk_emitted ≡ true)
    loop-first dec p es sent ts r ph h ne s = elim (Bool-cases (leb (length c.message) c.pay)) [
      | inl fit ↦
          let (dec', eq, held) = small_first w v bounded r h.0 ph ne (omega (tests, fit)) in
          let held' = emitted-IsHolding w held in
          (
            record dec' { chunk_emitted = true },
            loop-emits dec dec' (wire c p) (wire_size c) (length c.message - 1) sent
                  (turns_of c es ++ ts) (read_piece dec p h.0 ph ∙ eq) (omega arith) held
                ∙ loop-passed_over (record dec' { chunk_emitted = true }) es
                    (sent ++ (c.message ∷ [])) ts held' refl h.1,
            held',
            refl,
          )
      | inr big ↦
          let big' : c.pay < length c.message = omega (tests, big) in
          let (d, d', made, fed, rec) = s.enough big' dec.chunk.wh_state in
          let (dec1, eq, kept) = large_first w v bounded r h.0 ph big' made in
          let (dec', eq', held, em) =
            loop-collect dec1 d d' (piece p ∷ es) sent ts kept h big' fed rec in
          (
            dec',
            loop-same dec dec1 (wire c p) (wire_size c) sent (turns_of c es ++ ts)
                  (read_piece dec p h.0 ph ∙ eq ∙ sym (read_piece dec1 p h.0 kept.phase))
                ∙ eq',
            held,
            em,
          )
    ]

    -- A whole chunk, with whatever is mixed into it, at a decoder that is ready for it.
    pub loop-parcel :
        (dec : Decoder State) (es : List Event) (sent : List (List ℕ)) (ts : List Turn)
        → IsReady w c dec
        → Running dec.phase
        → All (IsEventOf w enc c) es
        → 0 < length c.message
        → Suffices w c es
        → (dec' : Decoder State) × (loop w junk malloc dec sent (turns_of c es ++ ts)
            ≡ loop w junk malloc dec' (sent ++ (c.message ∷ [])) ts)
          × IsHolding w c dec'
          × (dec'.chunk_emitted ≡ true)
    loop-parcel dec [] sent ts r ph h ne s = absurd (s.some_piece refl)
    loop-parcel dec (noise raw size ∷ es) sent ts r ph h ne s =
        let (dec', eq, held, em) =
          loop-parcel dec es sent ts r ph h.1 ne
            (record { some_piece = s.some_piece; enough = s.enough }) in
        (
          dec',
          loop-goes_on dec dec raw size sent (turns_of c es ++ ts)
                (decoder_read-noise w junk dec raw size ph h.0.0 h.0.1)
              ∙ eq,
          held,
          em,
        )
    loop-parcel dec (piece p ∷ es) sent ts r ph h ne s =
        let dec1 : Decoder State = record dec { phase = t_data } in
        let (dec', eq, held, em) =
          loop-first dec1 p es sent ts (record { complete = r.complete; other = r.other }) refl h ne
            s in
        (
          dec',
          loop-same dec dec1 (wire c p) (wire_size c) sent (turns_of c es ++ ts) (
                decoder_read-wire w junk dec c p v h.0.id_fits ph
                ∙ sym (decoder_read-wire w junk dec1 c p v h.0.id_fits (inr refl)))
              ∙ eq,
          held,
          em,
        )
