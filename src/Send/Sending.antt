-- ===== src/Send/Sending.antt =====
-- What `send_loop` sends of the chunks that the encoder thread prepared.
use native.Mathlib.Decide.{ℕ_discrete}
use hairgap.Wirehair.{Wirehair, Floating, Recovers}
use hairgap.Code.{to_int, success}
use hairgap.Proto.{header_len, header_bytes, header_begin, header_end}
use hairgap.Proto.Layout.{length-header_bytes, load-header_bytes}
use hairgap.Encoding.{Chunk}
use hairgap.Encoding.Encode.{Encoder}
use hairgap.Encoding.Emission.{IsEncoded, parcel_of}
use hairgap.Encoding.Signals.{handwave_lem, teardown_lem}
use hairgap.Send.Sender.{Burst, burst}
use hairgap.Send.Bursts.{burst_ends, burst_once}
use hairgap.Send.Groups.{supplied, IsGroup, AreSent, CanSend}
use hairgap.Send.Numbering.{AreEncoded, following}
use hairgap.Send.Loop.{send_rounds, send_loop}
use hairgap.Prelude.{
  suc, inl, inr, length, drop, replicate, length-replicate, length-append, length-drop, All, ret, ℕ,
  ◌+◌, ◌-◌, ◌≤◌, ◌<◌, ◌≡◌, ◌≢◌, refl, sym, ap, ◌∙◌, subst, true, false, Option, none, some, List,
  [], ◌∷◌, ◌++◌, append-nil, append_assoc, arith,
}

module _ (w : Wirehair) (f : Floating) where
  open w use {State, encode, write}
  open f use {Double, of_size, divide, less, zero_double}

  module _ (law : Recovers w) (fuel pkt_size : ℕ) (redund : Double) (announced : List ℕ)
      (lo : header_len < pkt_size) where
    -- One chunk.
    burst-sends :
        (enc : Encoder) (m : List ℕ) (chunk : Chunk State) (pkt : List ℕ)
        → enc.pkt_size ≡ pkt_size
        → IsEncoded w (parcel_of w enc m) chunk
        → chunk.total_gen ≡ 0
        → CanSend w f fuel pkt_size redund m
        → length pkt ≡ pkt_size
        → (b : Burst State) × (burst w f fuel pkt_size redund chunk pkt [] false ≡ ret (some b))
          × (b.failed ≡ false)
          × IsGroup w (parcel_of w enc m) b.sent
          × (length b.pkt ≡ pkt_size)
    burst-sends enc m chunk pkt size v fresh can room =
        let c = parcel_of w enc m in
        let small_pay : c.pay + header_len ≤ pkt_size = ground (arith, size, lo) in
        elim (ℕ_discrete (length m) 0) [
          | yes empty ↦
              let pay : c.pay ≡ 0 = ground (arith, size, lo, empty) in
              let more : suc (fuel - 1) ≡ fuel = omega (arith, can.some_bound, can.enough) in
              let (b, bytes, eq, ok, all, packet, same) =
                burst_once w f law redund pkt_size (fuel - 1) pkt [] empty pay fresh
                  (can.positive 0) (can.reached 0 (inl empty)) v (omega (arith, small_pay, room)) in
              (
                b,
                ap (λ k. burst w f k pkt_size redund chunk pkt [] false) (sym more) ∙ eq,
                ok,
                subst (IsGroup w c) (sym all) (record {
                  enc = chunk.wh_state;
                  encoded = λ big. v.large big;
                  genuine = (packet, tt);
                  some_packet = λ e. cc;
                }),
                same ∙ room,
              )
          | no full ↦
              let some_pay : 0 < c.pay = ground (arith, size, lo, full) in
              let able : (id : ℕ) → c.pay < length c.message → write chunk.wh_state id ≢ none =
                λ id big none_left.
                  let (reuse, e, made, held) = v.large big in
                  can.writes reuse c.pay e id made (ap (λ s. write s id) (sym held) ∙ none_left) in
              let (b, more, eq, ok, all, some_more, genuine, same) =
                burst_ends w f law redund pkt_size can.bound chunk.wh_state fuel pkt [] able
                  can.positive (λ total h. can.reached total (inr h)) some_pay
                  (omega (arith, can.fits, small_pay)) (omega (arith, fresh, can.some_bound))
                  (omega (arith, fresh, can.enough)) refl v (omega (arith, small_pay, room)) in
              (
                b,
                eq,
                ok,
                subst (IsGroup w c) (sym all) (record {
                  enc = chunk.wh_state;
                  encoded = λ big. v.large big;
                  genuine = genuine;
                  some_packet = some_more;
                }),
                same ∙ room,
              )
        ]

    send_rounds-goes_on :
        (chunk : Chunk State) (pkt : List ℕ) (groups : List (List (List ℕ)))
        (rs : List (Option (Option (Chunk State)))) (b : Burst State)
        → burst w f fuel pkt_size redund chunk pkt [] false ≡ ret (some b)
        → b.failed ≡ false
        → send_rounds w f fuel pkt_size redund announced pkt groups (some (some chunk) ∷ rs)
          ≡ send_rounds w f fuel pkt_size redund announced b.pkt (groups ++ (b.sent ∷ [])) rs
    unfolding send_rounds
    send_rounds-goes_on chunk pkt groups rs b e ok = ground (arith, e, ok)

    send_rounds-sends :
        (enc : Encoder) (ms : List (List ℕ)) (cs : List (Chunk State)) (pkt : List ℕ)
        (groups : List (List (List ℕ)))
        → enc.pkt_size ≡ pkt_size
        → AreEncoded w enc ms cs
        → All (CanSend w f fuel pkt_size redund) ms
        → length pkt ≡ pkt_size
        → (out : List (List (List ℕ))) × (send_rounds w f fuel pkt_size redund announced pkt groups
              (supplied cs)
            ≡ ret (
                some (record {
                  announced = some announced;
                  groups = groups ++ out;
                  closed = some (header_bytes header_end);
                  ended = some (to_int success);
                })))
          × AreSent w enc ms out
    unfolding send_rounds
    send_rounds-sends enc [] [] pkt groups size v can room = (
      [],
      rw (teardown_lem pkt pkt_size (omega arith) (omega (arith, room)), append-nil)
          (rw (load-header_bytes header_end (drop header_len pkt)) refl),
      tt,
    )
    send_rounds-sends enc [] (c ∷ cs) pkt groups size v can room = absurd v
    send_rounds-sends enc (m ∷ ms) [] pkt groups size v can room = absurd v
    send_rounds-sends enc (m ∷ ms) (c ∷ cs) pkt groups size v can room =
        let (b, eq, ok, group, same) = burst-sends enc m c pkt size v.0 v.1 can.0 room in
        let (out, eq', sent) =
          send_rounds-sends (following enc) ms cs b.pkt (groups ++ (b.sent ∷ [])) size v.2 can.1
            same in
        (
          b.sent ∷ out,
          send_rounds-goes_on c pkt groups (supplied cs) b eq ok
              ∙ eq'
              ∙ ap
                  (λ gs. ret (
                    some (record {
                      announced = some announced;
                      groups = gs;
                      closed = some (header_bytes header_end);
                      ended = some (to_int success);
                    })))
                  (append_assoc groups (b.sent ∷ []) out),
          (group, sent),
        )

  -- With packets that hold more than a header, chunks as the encoder thread prepares them, and
  -- messages whose redundancy is reached within the fuel, where wirehair recovers what it encoded,
  -- `send_loop` returns with success, once it was heard and got the chunks and the poison: it
  -- announces the transfer, sends of each chunk, in order, one packet or more and no other packet,
  -- and ends the transfer.
  pub send_loop_whole :
      Recovers w
      → (fuel : ℕ) (redund : Double) (enc : Encoder) (ms : List (List ℕ)) (cs : List (Chunk State))
      → header_len < enc.pkt_size
      → AreEncoded w enc ms cs
      → All (CanSend w f fuel enc.pkt_size redund) ms
      → (out : List (List (List ℕ))) × (send_loop w f fuel enc.pkt_size redund
            (record { opened = true; heard = true })
            (supplied cs)
          ≡ ret (
              some (record {
                announced = some (header_bytes header_begin);
                groups = out;
                closed = some (header_bytes header_end);
                ended = some (to_int success);
              })))
        × AreSent w enc ms out
  unfolding send_loop
  send_loop_whole law fuel redund enc ms cs lo v can =
      let size = enc.pkt_size in
      let blank : List ℕ = replicate size 0 in
      let blank_size : length blank ≡ size = length-replicate {0} {A = ℕ} size 0 in
      let pkt = header_bytes header_begin ++ drop header_len blank in
      let whole : length pkt ≡ size = omega (
        arith,
        length-append (header_bytes header_begin) (drop header_len blank),
        length-header_bytes header_begin,
        length-drop header_len blank,
        blank_size,
        lo,
      ) in
      let (out, eq, all) =
        send_rounds-sends law fuel size redund (header_bytes header_begin) lo enc ms cs pkt [] refl
          v can whole in
      (
        out,
        ground (
          arith,
          handwave_lem blank size (omega (arith, lo)) (omega (arith, blank_size)),
          load-header_bytes header_begin (drop header_len blank),
          eq,
        ),
        all,
      )
