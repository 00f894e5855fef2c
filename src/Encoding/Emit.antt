-- ===== src/Encoding/Emit.antt =====
-- `hgap_enc_chunk_emit`: the packet that it leaves in the buffer.
use hairgap.Wirehair.{Wirehair, Floating, Recovers}
use hairgap.Proto.{Header, header_len, header_bytes}
use hairgap.Proto.Layout.{length-header_bytes, write_header_lem}
use hairgap.Encoding.{Chunk, payload_size}
use hairgap.Encoding.Encode.{Emitted, finish, small_payload, chunk_emit}
use hairgap.Encoding.Packet.{Parcel, header_of}
use hairgap.Encoding.Emission.{IsEncoded}
use hairgap.Encoding.Written.{
  Wrote, Failed, written, written-Wrote, small-IsPieceOf, large-IsPieceOf,
}
use hairgap.Prelude.{
  leb, tests, Bool-cases, Option-cases, length, take, drop, replicate, length-append, length-take,
  length-drop, length-replicate, drop-append, store, store_lem, load_all, length-store, ret, ℕ, ◌+◌,
  ◌≤◌, ◌<◌, ◌≡◌, refl, sym, ap, ◌∙◌, ◌⊎◌, inl, inr, none, some, List, ◌++◌, arith, u32, u64,
}

module _ (w : Wirehair) (f : Floating) where
  open w use {State, encode, write}
  open f use {Double, of_size, divide, minus_one}

  module _ {c : Parcel} {chunk : Chunk State} (v : IsEncoded w c chunk) (pkt : List ℕ)
      (room : c.pay + header_len ≤ length pkt) where
    abbrev id : ℕ
    id = chunk.next_pkt_id

    abbrev counted : Chunk State
    counted = record chunk { next_pkt_id = u64 (id + 1) }

    abbrev hdr : Header
    hdr = header_of c (u32 id)

    payload_lem : payload_size counted ≡ c.pay
    payload_lem = omega (arith, v.size, v.pay_fits)

    -- The header goes in front of a buffer that holds the payload behind `front`.
    finish_lem :
        (front rest : List ℕ)
        → length front ≡ header_len
        → finish w f counted id c.pay (front ++ rest)
          ≡ ret (record {
            chunk = record counted { total_gen = u64 (chunk.total_gen + c.pay) };
            pkt = header_bytes hdr ++ rest;
            size = chunk.pkt_size;
            redund = divide (of_size (u64 (chunk.total_gen + c.pay))) (of_size chunk.len);
          })
    unfolding finish
    finish_lem front rest e = ground (
      arith,
      v.num,
      v.len,
      v.pay_fits,
      write_header_lem hdr (front ++ rest) (omega (arith, length-append front rest, e)),
      drop-append header_len front rest e,
    )

    small_payload_lem :
        length c.message ≤ c.pay
        → (front rest : List ℕ) × (small_payload w f counted pkt
            ≡ ret (front ++ (c.message ++ rest)))
          × (length front ≡ header_len)
          × (length front + (length c.message + length rest) ≡ length pkt)
    unfolding small_payload
    small_payload_lem small =
        let pad : List ℕ = replicate chunk.pkt_size 0 in
        let zeroed : List ℕ = take 0 pkt ++ (pad ++ drop (0 + length pad) pkt) in
        let cleared : store pkt 0 pad ≡ ret zeroed =
          store_lem pkt 0 pad
            (omega (arith, length-replicate {0} {A = ℕ} chunk.pkt_size 0, v.size)) in
        let same : length zeroed ≡ length pkt = length-store pkt 0 pad cleared in
        let fits : length c.message ≡ c.pay = sym (v.small small) in
        (
          take header_len zeroed,
          drop (header_len + length c.message) zeroed,
          ground (
            arith,
            v.len,
            v.size,
            v.held,
            v.pay_fits,
            cleared,
            load_all c.message (length c.message) refl,
            store_lem zeroed header_len c.message (omega arith),
          ),
          omega (arith, length-take header_len zeroed),
          omega (
            arith,
            length-take header_len zeroed,
            length-drop (header_len + length c.message) zeroed,
          ),
        )

    emit_small :
        length c.message ≤ c.pay
        → (size : ℕ)
        → (rest : List ℕ) × (chunk_emit w f chunk pkt size
            ≡ ret (written w f v (c.message ++ rest)))
          × (header_len + (length c.message + length rest) ≡ length pkt)
    unfolding chunk_emit
    emit_small small size =
        let (front, rest, eq, head, room) = small_payload_lem small in
        (
          rest,
          ground (
            arith,
            payload_lem,
            v.len,
            v.small small,
            eq,
            finish_lem front (c.message ++ rest) head,
          ),
          omega (arith, head, room),
        )

    emit_large :
        (block : List ℕ)
        → c.pay < length c.message
        → write chunk.wh_state (u32 id) ≡ some block
        → length block ≤ c.pay
        → (size : ℕ)
        → (rest : List ℕ) × (chunk_emit w f chunk pkt size ≡ ret (written w f v (block ++ rest)))
          × (c.pay ≤ length block + length rest)
          × (header_len + (length block + length rest) ≡ length pkt)
    unfolding chunk_emit
    emit_large block big e fits size = (
      drop (header_len + length block) pkt,
      ground (
        arith,
        payload_lem,
        v.len,
        e,
        store_lem pkt header_len block (omega arith),
        finish_lem (take header_len pkt) (block ++ drop (header_len + length block) pkt)
            (omega (arith, length-take header_len pkt)),
      ),
      omega (arith, length-drop (header_len + length block) pkt),
      omega (arith, length-drop (header_len + length block) pkt),
    )

    emit_fails :
        c.pay < length c.message
        → write chunk.wh_state (u32 id) ≡ none
        → (size : ℕ)
        → chunk_emit w f chunk pkt size
          ≡ ret (record { chunk = counted; pkt = pkt; size = size; redund = minus_one })
    unfolding chunk_emit
    emit_fails big e size = ground (arith, payload_lem, v.len, e)

    emitted-IsEncoded : (total : ℕ) → IsEncoded w c (record counted { total_gen = total })
    emitted-IsEncoded total = record {
      num = v.num;
      len = v.len;
      size = v.size;
      held = v.held;
      pay_fits = v.pay_fits;
      small = v.small;
      large = v.large;
    }

    -- A chunk that was initialised always emits, into any buffer that its packets fit, where
    -- wirehair writes blocks of at most the size it was asked for: the call returns, the chunk can
    -- emit again under the next packet id and with the same wirehair encoder, and the buffer keeps
    -- its size and holds a packet of the chunk, or, when wirehair could not write the block of a
    -- large chunk, is untouched and the result is -1.
    pub chunk_emit_cases :
        Recovers w
        → (size : ℕ)
        → (r : Emitted State Double) × (chunk_emit w f chunk pkt size ≡ ret r)
          × IsEncoded w c r.chunk
          × (r.chunk.next_pkt_id ≡ u64 (id + 1))
          × (r.chunk.wh_state ≡ chunk.wh_state)
          × (length r.pkt ≡ length pkt)
          × (Wrote w f c chunk r ⊎ Failed w f c chunk pkt r)
    chunk_emit_cases law size = elim (Bool-cases (leb (length c.message) c.pay)) [
      | inl s ↦
          let small : length c.message ≤ c.pay = omega (tests, s) in
          let (rest, eq, total) = emit_small small size in
          (
            written w f v (c.message ++ rest),
            eq,
            emitted-IsEncoded (u64 (chunk.total_gen + c.pay)),
            refl,
            refl,
            omega (
              arith,
              total,
              length-header_bytes hdr,
              length-append (header_bytes hdr) (c.message ++ rest),
              length-append c.message rest,
            ),
            inl (
                written-Wrote w f v (c.message ++ rest)
                  (λ stale. small-IsPieceOf w f v rest stale small)),
          )
      | inr b ↦
          let big : c.pay < length c.message = omega (tests, b) in
          elim (Option-cases (write chunk.wh_state (u32 id))) [
            | inl n ↦ (
              _,
              emit_fails big n size,
              emitted-IsEncoded chunk.total_gen,
              refl,
              refl,
              refl,
              inr (record { big = big; write_lem = n; redund = refl; same = refl }),
            )
            | inr (block, q) ↦
                let (reuse, e, made, held) = v.large big in
                let fits : length block ≤ c.pay =
                  law.write_fits reuse c.message c.pay (u32 id) made
                    (ap (λ s. write s (u32 id)) (sym held) ∙ q) in
                let (rest, eq, full, total) = emit_large block big q fits size in
                (
                  written w f v (block ++ rest),
                  eq,
                  emitted-IsEncoded (u64 (chunk.total_gen + c.pay)),
                  refl,
                  refl,
                  omega (
                    arith,
                    total,
                    length-header_bytes hdr,
                    length-append (header_bytes hdr) (block ++ rest),
                    length-append block rest,
                  ),
                  inl (
                      written-Wrote w f v (block ++ rest)
                        (λ stale. large-IsPieceOf w f v block rest stale big q fits full)),
                )
          ]
    ]
