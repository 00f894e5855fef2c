-- ===== src/Encoding/Absorbing.antt =====
-- A data packet in memory: what `handle_data` of the decoder touches, and the decoder that it leaves.
use hairgap.Wirehair.{Wirehair}
use hairgap.Code.{to_int, err_incomplete_chunk, err_bad_chunk}
use hairgap.Proto.{Pkt, header_len, max_chunk_size, first_reserved}
use hairgap.Encoding.{Chunk, payload_size, is_small, purge}
use hairgap.Encoding.Decode.{Decoder, dec_chunk_init, dec_chunk_read, incorporate, handle_data}
use hairgap.Prelude.{
  ltb, ◌==◌, if◌then◌else◌, tests, Bool-cases, Option-cases, length, take, length-take, to_ssize,
  neg, is_pos, ℤ, pos, negsuc, load_lem, Outcome, ret, ℕ, ◌+◌, ◌≤◌, ◌<◌, ◌≡◌, refl, ◌∙◌, ◌≢◌, inl,
  inr, true, false, none, some, List, arith, u64,
}
use hairgap.Encoding.Safe.{IsSafe, Reads}

module _ (w : Wirehair) where
  open w use {State, decode, read, reconstruct}

  -- The three ways in which a packet is taken in that was not complete before.
  module _ (pkt : Pkt) (c : Chunk State) (e : c.content ≡ none) where
    abbrev id : ℕ
    id = pkt.hdr.data_id

    read_small :
        is_small c ≡ true
        → c.len ≤ length pkt.payload
        → dec_chunk_read w c pkt
          ≡ ret (
            record c { next_pkt_id = u64 (id + 1); content = some (take c.len pkt.payload) },
            to_ssize c.len,
          )
    unfolding dec_chunk_read
    read_small t h = ground (arith, load_lem pkt.payload 0 c.len)

    read_blind :
        is_small c ≡ false
        → c.wh_state ≡ none
        → dec_chunk_read w c pkt ≡ ret (record c { next_pkt_id = u64 (id + 1) }, negsuc 0)
    unfolding dec_chunk_read
    read_blind t n = ground arith

    read_block :
        (st : State)
        → is_small c ≡ false
        → c.wh_state ≡ some st
        → payload_size c ≤ length pkt.payload
        → let (st', ready) = read st id (take (payload_size c) pkt.payload) in
          dec_chunk_read w c pkt
          ≡ ret (
            record c { next_pkt_id = u64 (id + 1); wh_state = some st' },
            if ready then to_ssize c.len else pos 0,
          )
    unfolding dec_chunk_read
    read_block st t n h = ground (arith, load_lem pkt.payload 0 (payload_size c))

  module _ {mtu : ℕ} (pkt : Pkt) (room : length pkt.payload + header_len ≡ mtu) where
    pub Reads-by : {x y : Outcome (Decoder State × ℤ)} → x ≡ y → Reads w mtu y → Reads w mtu x
    Reads-by e r = record {
      dec = r.dec;
      result = r.result;
      returns = e ∙ r.returns;
      safe = r.safe;
      emittable = r.emittable;
    }

    -- A call that leaves the decoder alone and returns an error or nothing.
    stays : {dec : Decoder State} {n : ℕ} → IsSafe w mtu dec → Reads w mtu (ret (dec, negsuc n))
    stays {dec} {n} s = record {
      dec = dec;
      result = negsuc n;
      returns = refl;
      safe = s;
      emittable = λ h. cc;
    }

    pub answers :
        {dec : Decoder State} (result : ℤ)
        → IsSafe w mtu dec
        → (is_pos result ≡ true
            → (result ≡ pos dec.chunk.len)
              × (dec.chunk_complete ≡ true)
              × (dec.chunk_emitted ≡ false))
        → Reads w mtu (ret (dec, result))
    answers {dec} result s h = record {
      dec = dec;
      result = result;
      returns = refl;
      safe = s;
      emittable = h;
    }

    -- The decoder that has just met a new chunk.
    abbrev met : Decoder State → Decoder State
    met dec = record dec {
      chunk = (dec_chunk_init w (purge dec.chunk) pkt).0;
      chunk_complete = false;
      chunk_emitted = false;
    }

    init-fields :
        (c : Chunk State)
        → let c' = (dec_chunk_init w c pkt).0 in
          (c'.pkt_size ≡ u64 (pkt.hdr.data_size + header_len))
          × (c'.len ≡ pkt.hdr.chunk_size)
          × (c'.content ≡ none)
    unfolding dec_chunk_init
    init-fields c = ground arith

    fresh-IsSafe :
        {dec : Decoder State}
        → IsSafe w mtu dec
        → pkt.hdr.data_size + header_len ≤ mtu
        → pkt.hdr.chunk_size ≤ max_chunk_size
        → IsSafe w mtu (met dec)
    fresh-IsSafe {dec} s fits small =
        let (size, len, empty) = init-fields (purge dec.chunk) in
        record {
          bound = s.bound;
          size = inl (omega (arith, size, s.bound));
          len = omega (arith, len);
          copy = λ b h. cc;
          fresh = λ _. refl;
          held = λ h. cc;
        }

    -- The chunk changes to `c`, and `result` is what its reading answers.
    Reads-as :
        {dec : Decoder State} (c : Chunk State) (result : ℤ)
        → IsSafe w mtu dec
        → dec.chunk_emitted ≡ false
        → dec_chunk_read w dec.chunk pkt ≡ ret (c, result)
        → (header_len ≤ c.pkt_size) × (c.pkt_size ≤ mtu)
        → c.len ≡ dec.chunk.len
        → ((bytes : List ℕ) → c.content ≡ some bytes → length bytes ≡ c.len)
        → (is_small c ≡ true → c.content ≢ none)
        → (is_pos result ≡ true → result ≡ pos c.len)
        → Reads w mtu (incorporate w dec pkt)
    unfolding incorporate
    Reads-as {dec} c result s em e fits same copy held pos_lem = record {
      dec = record dec {
        chunk = c;
        chunk_complete = if is_pos result then true else dec.chunk_complete;
      };
      result = result;
      returns = rw e refl;
      safe = record {
        bound = s.bound;
        size = inl fits;
        len = omega (arith, s.len);
        copy = copy;
        fresh = λ _. em;
        held = λ _ _ h. held h;
      };
      emittable = λ h. (pos_lem h, rw h refl, em);
    }

    incorporate-Reads :
        {dec : Decoder State}
        → IsSafe w mtu dec
        → dec.chunk_emitted ≡ false
        → header_len ≤ dec.chunk.pkt_size
        → dec.chunk.pkt_size ≤ mtu
        → Reads w mtu (incorporate w dec pkt)
    incorporate-Reads {dec} s em lo hi = elim (Option-cases dec.chunk.content) [
      | inr (bytes, e) ↦
          Reads-as dec.chunk (to_ssize dec.chunk.len) s em (unfold dec_chunk_read in rw e refl)
            (lo, hi) refl s.copy (λ _ n. cc) (λ _. ground (arith, s.len))
      | inl e ↦ elim (Bool-cases (is_small dec.chunk)) [
        | inl t ↦
            let inside : dec.chunk.len ≤ length pkt.payload = ground (arith, t, s.bound) in
            Reads-as _ _ s em (read_small pkt dec.chunk e t inside) (lo, hi) refl
              (λ b h. ground (arith, length-take dec.chunk.len pkt.payload)) (λ _ n. cc)
              (λ _. ground (arith, s.len))
        | inr t ↦ elim (Option-cases dec.chunk.wh_state) [
          | inl n ↦
              Reads-as _ _ s em (read_blind pkt dec.chunk e t n) (lo, hi) refl (λ b h. cc) (λ h. cc)
                (λ h. cc)
          | inr (st, n) ↦
              let inside : payload_size dec.chunk ≤ length pkt.payload = ground (arith, s.bound) in
              Reads-as _ _ s em (read_block pkt dec.chunk e st t n inside) (lo, hi) refl (λ b h. cc)
                (λ h. cc) (λ h. ground (arith, s.len))
        ]
      ]
    ]

    pub handle_data-Reads :
        {dec : Decoder State}
        → IsSafe w mtu dec
        → pkt.hdr.chunk_num < first_reserved
        → pkt.hdr.data_size + header_len ≤ mtu
        → Reads w mtu (handle_data w dec pkt)
    handle_data-Reads {dec} s num fits = elim (Bool-cases (pkt.hdr.chunk_num == dec.chunk.num)) [
      | inr other ↦ elim (Bool-cases dec.chunk_complete) [
        | inr part ↦
            Reads-by {y = ret (dec, neg (to_int err_incomplete_chunk))}
              (unfold handle_data in ground arith) (stays s)
        | inl whole ↦ elim (Bool-cases (ltb max_chunk_size pkt.hdr.chunk_size)) [
          | inl big ↦
              Reads-by {y = ret (dec, neg (to_int err_bad_chunk))}
                (unfold handle_data in ground arith) (stays s)
          | inr ok ↦
              let fresh = fresh-IsSafe s fits (omega (tests, ok)) in
              Reads-by {y = incorporate w (met dec) pkt} (unfold handle_data in ground arith) (
                incorporate-Reads {dec = met dec} fresh refl
                  (omega (arith, (init-fields (purge dec.chunk)).0, s.bound))
                  (omega (arith, (init-fields (purge dec.chunk)).0, s.bound)))
        ]
      ]
      | inl same ↦ elim (Bool-cases dec.chunk_complete) [
        | inr part ↦
            let fit : (header_len ≤ dec.chunk.pkt_size) × (dec.chunk.pkt_size ≤ mtu) =
              ground arith in
            Reads-by {y = incorporate w dec pkt} (unfold handle_data in ground arith)
              (incorporate-Reads s (s.fresh part) fit.0 fit.1)
        | inl whole ↦ elim (Bool-cases dec.chunk_emitted) [
          | inl em ↦
              Reads-by {y = ret (dec, pos 0)} (unfold handle_data in ground arith)
                (answers (pos 0) s (λ h. cc))
          | inr em ↦
              Reads-by {y = ret (dec, to_ssize dec.chunk.len)} (unfold handle_data in ground arith)
                (answers (to_ssize dec.chunk.len) s (λ _. (ground (arith, s.len), whole, em)))
        ]
      ]
    ]
