-- ===== src/Encoding/Emission.antt =====
-- What the encoder emits: for a chunk that was initialised, packets of that chunk.
use hairgap.Wirehair.{Wirehair}
use hairgap.Code.{success, err_wirehair_error}
use hairgap.Proto.{header_len}
use hairgap.Encoding.{Chunk, payload_size}
use hairgap.Encoding.Encode.{Encoder, min_size, fresh_chunk, chunk_init}
use hairgap.Encoding.Packet.{Parcel}
use hairgap.Prelude.{
  leb, tests, Bool-cases, Option-cases, length, ℕ, ◌+◌, ◌-◌, ◌^◌, ◌≤◌, ◌<◌, ◌≡◌, refl, ◌↔◌, inl,
  inr, Option, none, some, List, arith, u64,
}

module _ (w : Wirehair) where
  open w use {State, encode, write}

  -- `chunk` is ready to emit the packets of `c`.
  pub record IsEncoded (c : Parcel) (chunk : Chunk State) : Type 0 where
    pub num : chunk.num ≡ c.num
    pub len : chunk.len ≡ length c.message
    pub size : chunk.pkt_size ≡ c.pay + header_len
    pub held : chunk.content ≡ some c.message
    pub pay_fits : c.pay < 2 ^ 32
    pub small : length c.message ≤ c.pay → c.pay ≡ length c.message
    pub large :
        c.pay < length c.message
        → (reuse : Option State) × (e : State) × (encode reuse c.message c.pay ≡ some e)
          × (chunk.wh_state ≡ some e)

  -- The parcel that an encoder makes of a message.
  abbrev pub parcel_of : Encoder → List ℕ → Parcel
  parcel_of enc message = record {
    num = enc.next_chunk_num;
    message = message;
    pay = min_size enc.pkt_size (length message + header_len) - header_len;
  }

  module _ (enc : Encoder) (chunk : Chunk State) (message : List ℕ) (lo : header_len < enc.pkt_size)
      (hi : enc.pkt_size < 2 ^ 32) (fits : length message + header_len < 2 ^ 64) where
    abbrev pay : ℕ
    pay = (parcel_of enc message).pay

    abbrev next_enc : Encoder
    next_enc = record enc { next_chunk_num = u64 (enc.next_chunk_num + 1) }

    payload-fresh : payload_size (fresh_chunk w enc chunk message) ≡ pay
    payload-fresh = ground arith

    size-fresh : (fresh_chunk w enc chunk message).pkt_size ≡ pay + header_len
    size-fresh = ground arith

    pay-small : length message ≤ pay → pay ≡ length message
    pay-small h = ground arith

    pay-lt : pay < 2 ^ 32
    pay-lt = ground arith

    init_small :
        length message ≤ pay
        → chunk_init w enc chunk message ≡ (next_enc, fresh_chunk w enc chunk message, success)
    unfolding chunk_init
    init_small h = rw payload-fresh (ground arith)

    init_large :
        pay < length message
        → chunk_init w enc chunk message ≡ elim (encode chunk.wh_state message pay) [
          | none ↦ (
            next_enc,
            record (fresh_chunk w enc chunk message) { wh_state = none },
            err_wirehair_error,
          )
          | some s ↦
              (next_enc, record (fresh_chunk w enc chunk message) { wh_state = some s }, success)
        ]
    unfolding chunk_init
    init_large h = rw payload-fresh (ground arith)

    -- With packets that hold more than a header and whose size fits 32 bits, and a message whose
    -- packet fits 64 bits: where `hgap_enc_chunk_init` succeeds, whatever the chunk was used for
    -- before, the chunk is ready to emit the packets of the message under the encoder's next
    -- number, from the packet id 0 on, and the encoder goes on to the number after that. The bytes that
    -- the chunk has emitted, from which the redundancy is computed, are counted on from what they were.
    pub chunk_init-IsEncoded :
        (chunk_init w enc chunk message).2 ≡ success
        → ((chunk_init w enc chunk message).0 ≡ next_enc)
          × IsEncoded (parcel_of enc message) (chunk_init w enc chunk message).1
          × ((chunk_init w enc chunk message).1.next_pkt_id ≡ 0)
          × ((chunk_init w enc chunk message).1.total_gen ≡ chunk.total_gen)
    chunk_init-IsEncoded e = elim (Bool-cases (leb (length message) pay)) [
      | inl s ↦
          let fit : length message ≤ pay = omega (tests, s) in
          rw (init_small fit) (
            refl,
            record {
              num = refl;
              len = refl;
              size = size-fresh;
              held = refl;
              pay_fits = pay-lt;
              small = pay-small;
              large = λ h. absurd (omega arith);
            },
            refl,
            refl,
          )
      | inr b ↦
          let big : pay < length message = omega (tests, b) in
          elim (Option-cases (encode chunk.wh_state message pay)) [
            | inl n ↦ ground (arith, init_large big, n, e)
            | inr (s, q) ↦
                rw (init_large big, q)
                  (
                    refl,
                    record {
                      num = refl;
                      len = refl;
                      size = size-fresh;
                      held = refl;
                      pay_fits = pay-lt;
                      small = pay-small;
                      large = λ h. (chunk.wh_state, s, q, refl);
                    },
                    refl,
                    refl,
                  )
          ]
    ]

    -- With packets that hold more than a header and whose size fits 32 bits, and a message whose
    -- packet fits 64 bits, `hgap_enc_chunk_init` reports HGAP_ERR_WIREHAIR_ERROR exactly when the
    -- message does not fit one packet and wirehair fails to encode it in blocks of the payload
    -- size.
    pub chunk_init_fails : ((chunk_init w enc chunk message).2 ≡ err_wirehair_error) ↔ (
        (enc.pkt_size < length message + header_len)
        × (encode chunk.wh_state message (enc.pkt_size - header_len) ≡ none))
    chunk_init_fails = elim (Bool-cases (leb (length message) pay)) [
      | inl s ↦
          let fit : length message ≤ pay = omega (tests, s) in
          rw (init_small fit) (λ e. cc, λ h. absurd (ground (arith, h.0)))
      | inr b ↦
          let big : pay < length message = omega (tests, b) in
          let same : pay ≡ enc.pkt_size - header_len = ground arith in
          elim (Option-cases (encode chunk.wh_state message pay)) [
            | inl n ↦ rw (init_large big, n) (λ e. (ground arith, rw same at n), λ h. refl)
            | inr (s, q) ↦ rw (init_large big, q) (λ e. cc, λ h. cc (rw same at q, h.1))
          ]
    ]

    pub chunk_init_works :
        (enc.pkt_size < length message + header_len
          → (e : State) × (encode chunk.wh_state message (enc.pkt_size - header_len) ≡ some e))
        → (chunk_init w enc chunk message).2 ≡ success
    chunk_init_works works = elim (Bool-cases (leb (length message) pay)) [
      | inl s ↦ rw (init_small (omega (tests, s))) refl
      | inr b ↦
          let big : pay < length message = omega (tests, b) in
          let same : enc.pkt_size - header_len ≡ pay = ground arith in
          let (e, made) = works (ground arith) in rw (init_large big, ← same, made) refl
    ]
