-- ===== src/Send/Bursts.antt =====
-- What the sending thread sends of one chunk, and when it comes to an end.
use native.Mathlib.Decide.{dec_lt}
use hairgap.Wirehair.{Wirehair, Floating, Recovers}
use hairgap.Proto.{header_len, header_bytes}
use hairgap.Proto.Layout.{length-header_bytes}
use hairgap.Encoding.{Chunk}
use hairgap.Encoding.Encode.{Emitted}
use hairgap.Encoding.Packet.{Parcel, header_of}
use hairgap.Encoding.Emission.{IsEncoded}
use hairgap.Encoding.Written.{Wrote}
use hairgap.Encoding.Emit.{chunk_emit_cases}
use hairgap.Send.Sender.{Burst, burst}
use hairgap.Prelude.{
  Bool-cases, length, take, length-append, length-take, load, load_lem, All, ret, ℕ, zero, suc, ◌+◌,
  ◌^◌, ◌≤◌, ◌<◌, ◌≡◌, ◌≢◌, refl, sym, ap, ◌∙◌, subst, inl, inr, Bool, true, false, Option, none,
  some, List, [], ◌∷◌, ◌++◌, append_assoc, arith, u32,
}
use hairgap.Send.Groups.{IsPacketOf}
use hairgap.Send.Rounds.{burst-fails, burst-goes_on, burst-stops}

cons-ne-nil : (x : List ℕ) (xs : List (List ℕ)) → x ∷ xs ≢ []
cons-ne-nil x xs e = cc

module _ (w : Wirehair) (f : Floating) where
  open w use {State, encode, write}
  open f use {Double, of_size, divide, less, minus_one, zero_double}

  module _ {c : Parcel} (law : Recovers w) (redund : Double) (pkt_size : ℕ) where
    Wrote-room :
        {chunk : Chunk State} {r : Emitted State Double}
        → Wrote w f c chunk r
        → c.pay + header_len ≤ length r.pkt
    Wrote-room {chunk} {r} o = omega (
      arith,
      o.size,
      ap length o.bytes,
      length-take r.size r.pkt,
      length-append (header_bytes (header_of c (u32 chunk.next_pkt_id))) o.body,
      length-header_bytes (header_of c (u32 chunk.next_pkt_id)),
      (o.piece []).body_size,
    )

    Wrote-IsPacketOf :
        {chunk : Chunk State} {r : Emitted State Double}
        → (o : Wrote w f c chunk r) → IsPacketOf w chunk.wh_state c (take r.size r.pkt)
    Wrote-IsPacketOf {chunk} o = record {
      id = u32 chunk.next_pkt_id;
      body = o.body;
      layout = o.bytes;
      piece = o.piece;
    }

    -- As long as wirehair cannot write the blocks of a large chunk that was initialised, the loop
    -- does not end, with a buffer that its packets fit: it goes on after every failure, whatever
    -- the fuel, if -1 is below 0 and below the redundancy that was asked for.
    pub burst_stuck :
        (fuel : ℕ) {chunk : Chunk State} (pkt : List ℕ) (sent : List (List ℕ)) (failed : Bool)
        → ((s : Option State) (id : ℕ) → write s id ≡ none)
        → less minus_one redund ≡ true
        → less minus_one zero_double ≡ true
        → c.pay < length c.message
        → IsEncoded w c chunk
        → c.pay + header_len ≤ length pkt
        → burst w f fuel pkt_size redund chunk pkt sent failed ≡ ret none
    unfolding burst
    burst_stuck zero pkt sent failed broken below negative big v room = refl
    burst_stuck (suc fuel) {chunk} pkt sent failed broken below negative big v room =
        let (r, eq, v', _, _, _, how) = chunk_emit_cases w f v pkt room law pkt_size in
        elim how [
          | inl o ↦
              let b = (o.piece []).large big in
              cc (b.write_lem, broken chunk.wh_state (u32 chunk.next_pkt_id))
          | inr x ↦
              let minus : less r.redund zero_double ≡ true =
                ap (λ d. less d zero_double) x.redund ∙ negative in
              let low : less r.redund redund ≡ true = ap (λ d. less d redund) x.redund ∙ below in
              burst-fails w f fuel pkt_size redund chunk pkt sent failed r eq minus low
              ∙ (burst_stuck fuel r.pkt sent true broken below negative big v'
                  (omega (arith, ap length x.same, room)))
        ]

    -- For a chunk that was initialised, with a payload in its packets and a buffer that they fit,
    -- where wirehair can write the blocks of the chunk and recovers what it encoded, no redundancy
    -- is below 0, and the one that was asked for is reached once `bound` bytes were emitted: the
    -- loop ends after at most as many rounds as bytes are missing, without a failure, and what it
    -- sends is packets of the chunk, one at least. The byte counts fit 64 bits.
    pub burst_ends :
        (bound : ℕ) (enc : Option State) (fuel : ℕ) {chunk : Chunk State} (pkt : List ℕ)
        (sent : List (List ℕ))
        → ((id : ℕ) → c.pay < length c.message → write enc id ≢ none)
        → ((total : ℕ)
            → less (divide (of_size total) (of_size (length c.message))) zero_double ≡ false)
        → ((total : ℕ)
            → bound ≤ total
            → less (divide (of_size total) (of_size (length c.message))) redund ≡ false)
        → 0 < c.pay
        → bound + c.pay < 2 ^ 64
        → chunk.total_gen < bound
        → bound ≤ chunk.total_gen + fuel
        → chunk.wh_state ≡ enc
        → IsEncoded w c chunk
        → c.pay + header_len ≤ length pkt
        → (b : Burst State) × (more : List (List ℕ)) × (burst w f fuel pkt_size redund chunk pkt
              sent false
            ≡ ret (some b))
          × (b.failed ≡ false)
          × (b.sent ≡ sent ++ more)
          × (more ≢ [])
          × All (IsPacketOf w enc c) more
          × (length b.pkt ≡ length pkt)
    unfolding burst
    burst_ends bound enc zero pkt sent able positive reached pay fits below enough same v room =
        absurd (omega arith)
    burst_ends bound enc (suc fuel) {chunk} pkt sent able positive reached pay fits below enough
          same v room =
        let (r, eq, v', _, kept, whole, how) = chunk_emit_cases w f v pkt room law pkt_size in
        elim how [
          | inr x ↦ absurd (
              able (u32 chunk.next_pkt_id) x.big
                (ap (λ s. write s (u32 chunk.next_pkt_id)) (sym same) ∙ x.write_lem))
          | inl o ↦
              let total : r.chunk.total_gen ≡ chunk.total_gen + c.pay = omega (arith, o.total) in
              let room' = Wrote-room o in
              let packet : IsPacketOf w enc c (take r.size r.pkt) =
                subst (λ e. IsPacketOf w e c (take r.size r.pkt)) same (Wrote-IsPacketOf o) in
              let sendable : load r.pkt 0 r.size ≡ ret (take r.size r.pkt) =
                load_lem r.pkt 0 r.size (omega (arith, o.size, room')) in
              let fine : less r.redund zero_double ≡ false =
                ap (λ d. less d zero_double) o.redund ∙ positive r.chunk.total_gen in
              elim (Bool-cases (less r.redund redund)) [
                | inr stop ↦ (
                  _,
                  take r.size r.pkt ∷ [],
                  burst-stops w f fuel pkt_size redund chunk pkt sent false r eq (take r.size r.pkt)
                      sendable fine stop,
                  refl,
                  refl,
                  cons-ne-nil (take r.size r.pkt) [],
                  (packet, tt),
                  whole,
                )
                | inl go ↦
                    let missing : r.chunk.total_gen < bound =
                      elim (dec_lt r.chunk.total_gen bound) [
                        | yes p ↦ p
                        | no ge ↦
                            let stops : less r.redund redund ≡ false =
                              ap (λ d. less d redund) o.redund
                              ∙ reached r.chunk.total_gen (omega (arith, ge)) in
                            absurd (cc (go, stops))
                      ] in
                    let (b, more, eq', ok, all, _, packets, same_room) =
                      burst_ends bound enc fuel r.pkt (sent ++ (take r.size r.pkt ∷ [])) able
                        positive reached pay fits missing (omega (arith, total)) (kept ∙ same) v'
                        room' in
                    (
                      b,
                      take r.size r.pkt ∷ more,
                      burst-goes_on w f fuel pkt_size redund chunk pkt sent false r eq
                            (take r.size r.pkt) sendable fine go
                          ∙ eq',
                      ok,
                      all ∙ append_assoc sent (take r.size r.pkt ∷ []) more,
                      cons-ne-nil (take r.size r.pkt) more,
                      (packet, packets),
                      same_room ∙ whole,
                    )
              ]
        ]

    -- A chunk without bytes is sent in one packet, if the redundancy that was asked for is not above that
    -- of nothing.
    pub burst_once :
        (fuel : ℕ) {chunk : Chunk State} (pkt : List ℕ) (sent : List (List ℕ))
        → length c.message ≡ 0
        → c.pay ≡ 0
        → chunk.total_gen ≡ 0
        → less (divide (of_size 0) (of_size (length c.message))) zero_double ≡ false
        → less (divide (of_size 0) (of_size (length c.message))) redund ≡ false
        → IsEncoded w c chunk
        → c.pay + header_len ≤ length pkt
        → (b : Burst State) × (bytes : List ℕ) × (burst w f
              (suc fuel)
              pkt_size
              redund
              chunk
              pkt
              sent
              false
            ≡ ret (some b))
          × (b.failed ≡ false)
          × (b.sent ≡ sent ++ (bytes ∷ []))
          × IsPacketOf w chunk.wh_state c bytes
          × (length b.pkt ≡ length pkt)
    unfolding burst
    burst_once fuel {chunk} pkt sent empty pay fresh positive stops v room =
        let (r, eq, _, _, _, whole, how) = chunk_emit_cases w f v pkt room law pkt_size in
        elim how [
          | inr x ↦ absurd (omega (arith, x.big, empty))
          | inl o ↦
              let total : r.chunk.total_gen ≡ 0 = omega (arith, o.total, pay, fresh) in
              let ratio : r.redund ≡ divide (of_size 0) (of_size (length c.message)) =
                o.redund ∙ ap (λ n. divide (of_size n) (of_size (length c.message))) total in
              (
                _,
                take r.size r.pkt,
                burst-stops w f fuel pkt_size redund chunk pkt sent false r eq (take r.size r.pkt)
                    (load_lem r.pkt 0 r.size (omega (arith, o.size, Wrote-room o)))
                    (ap (λ d. less d zero_double) ratio ∙ positive)
                    (ap (λ d. less d redund) ratio ∙ stops),
                refl,
                refl,
                Wrote-IsPacketOf o,
                whole,
              )
        ]
