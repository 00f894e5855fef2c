-- ===== src/Send/Numbering.antt =====
-- The chunks that the encoder thread prepares: in order, numbered in sequence, each ready to emit.
use hairgap.Wirehair.{Wirehair}
use hairgap.Code.{to_int, success}
use hairgap.Proto.{header_len}
use hairgap.Encoding.{Chunk, chunk_new}
use hairgap.Encoding.Encode.{Encoder, chunk_init}
use hairgap.Encoding.Emission.{IsEncoded, parcel_of, chunk_init-IsEncoded, chunk_init_works}
use hairgap.Send.Preparing.{Offer, encode_loop}
use hairgap.Prelude.{
  length, All, ℕ, ◌+◌, ◌-◌, ◌^◌, ◌<◌, ◌≡◌, refl, sym, ap, ◌∙◌, true, none, some, List, [], ◌∷◌,
  ◌++◌, append-nil, append_assoc, arith, u64,
}

-- The reader hands over the buffers of `ms` and then the poison, and every chunk can be sent on.
abbrev pub offered : List (List ℕ) → List Offer
offered [] = record { peeked = some none; sent = true } ∷ []
offered (m ∷ ms) = record { peeked = some (some m); sent = true } ∷ offered ms

abbrev pub following : Encoder → Encoder
following enc = record enc { next_chunk_num = u64 (enc.next_chunk_num + 1) }

module _ (w : Wirehair) where
  open w use {State, encode}

  -- A message whose packet fits 64 bits, and that wirehair encodes where one packet does not hold it.
  pub record CanEncode (pkt_size : ℕ) (message : List ℕ) : Type 0 where
    pub fits : length message + header_len < 2 ^ 64
    pub works :
        pkt_size < length message + header_len
        → (e : State) × (encode none message (pkt_size - header_len) ≡ some e)

  -- The chunks of the messages, under the numbers from the encoder's next one on, with nothing
  -- emitted of them.
  abbrev pub AreEncoded : Encoder → List (List ℕ) → List (Chunk State) → Type 0
  AreEncoded enc [] [] = Unit
  AreEncoded enc [] (c ∷ cs) = ⊥
  AreEncoded enc (m ∷ ms) [] = ⊥
  AreEncoded enc (m ∷ ms) (c ∷ cs) =
      IsEncoded w (parcel_of w enc m) c × (c.total_gen ≡ 0) × AreEncoded (following enc) ms cs

  encode_loop-offered :
      (pkt_size : ℕ) (enc : Encoder) (chunks : List (Chunk State)) (ms : List (List ℕ))
      → enc.pkt_size ≡ pkt_size
      → header_len < pkt_size
      → pkt_size < 2 ^ 32
      → All (CanEncode pkt_size) ms
      → (enc' : Encoder) × (out : List (Chunk State)) × (encode_loop w enc chunks (offered ms)
          ≡ record { enc = enc'; chunks = chunks ++ out; ended = some (to_int success) })
        × AreEncoded enc ms out
  unfolding encode_loop
  encode_loop-offered pkt_size enc chunks [] same lo hi h = (
    enc,
    [],
    ap (λ cs. record { enc = enc; chunks = cs; ended = some (to_int success) })
        (sym (append-nil chunks)),
    tt,
  )
  encode_loop-offered pkt_size enc chunks (m ∷ ms) same lo hi h =
      let c : Chunk State = (chunk_init w enc chunk_new m).1 in
      let works : (chunk_init w enc chunk_new m).2 ≡ success =
        chunk_init_works w enc chunk_new m (omega (arith, same, lo)) (omega (arith, same, hi))
          h.0.fits (λ l. rw same (h.0.works (omega (arith, same, l)))) in
      let (next, encoded, _, fresh) =
        chunk_init-IsEncoded w enc chunk_new m (omega (arith, same, lo)) (omega (arith, same, hi))
          h.0.fits works in
      let (enc', out, eq, all) =
        encode_loop-offered pkt_size (following enc) (chunks ++ (c ∷ [])) ms same lo hi h.1 in
      (
        enc',
        c ∷ out,
        rw (works, next)
            (eq
              ∙ ap (λ cs. record { enc = enc'; chunks = cs; ended = some (to_int success) })
                  (append_assoc chunks (c ∷ []) out)),
        (encoded, fresh, all),
      )

  -- With packets that hold more than a header and whose size fits 32 bits, and messages that
  -- wirehair encodes where one packet does not hold them, the encoder thread ends with success
  -- behind the poison, and has handed over one chunk for each buffer, in order and numbered in
  -- sequence, each ready to emit the packets of its message.
  pub encode_loop_whole :
      (enc : Encoder) (ms : List (List ℕ))
      → header_len < enc.pkt_size
      → enc.pkt_size < 2 ^ 32
      → All (CanEncode enc.pkt_size) ms
      → (enc' : Encoder) × (chunks : List (Chunk State)) × (encode_loop w enc [] (offered ms)
          ≡ record { enc = enc'; chunks = chunks; ended = some (to_int success) })
        × AreEncoded enc ms chunks
  encode_loop_whole enc ms lo hi h = encode_loop-offered enc.pkt_size enc [] ms refl lo hi h
