-- ===== src/Programs/Interrupted.antt =====
-- Transfers of which too little arrives, as `hgap_receive` ends on them.
use hairgap.Wirehair.{Wirehair, Recovers}
use hairgap.Code.{to_int, success, err_timeout}
use hairgap.Config.{Config, check_config_receiver}
use hairgap.Proto.{Pkt, begin, pkt_type}
use hairgap.Proto.Parse.{pkt_type-header_bytes}
use hairgap.Encoding.Decode.{decoder_new}
use hairgap.Encoding.Delivery.{IsPieceOf}
use hairgap.Encoding.Packet.{Piece, Parcel, IsParcel, wire, wire_size, header_of, header_of-InRange}
use hairgap.Receive.Decloop.{Turn, loop}
use hairgap.Receive.Events.{Event, piece, noise, arrival, turns_of, IsEventOf}
use hairgap.Session.{mtu}
use hairgap.Receive.Forwarding.{Fits, Arrived, IsEnd, intake, intakes, silence, slots_of, any_begin}
use hairgap.Receive.Network.{Intake, slot_of}
use hairgap.Receive.Output.{write_loop-whole}
use hairgap.Receive.Reader.{net_reader-fitted, net_reader-silence-fitted}
use hairgap.Receive.Socket.{NetReader, timeout_of}
use hairgap.Receive.Transfer.{Delivery, IsDelivery, all_turns, messages, Renumbered, last_num}
use hairgap.Receive.Truncated.{IsUnfinished, loop-truncated, truncated_unreported}
use hairgap.Receive.Writer.{write_loop}
use hairgap.Receive.Output.{whole}
use hairgap.Socket.{inaddr_none}
use hairgap.Programs.Receiver.{
  slot_turn, slot_turns, slot_turns-append, poison_slot, loop-ended, loop-poison,
}
use hairgap.Programs.Received.{Received, received_by}
use hairgap.Prelude.{
  append-nil, sym, if◌then◌else◌, concat, length, All, All-append, ℕ, ◌≡◌, refl, ap, ◌∙◌, ◌≢◌, Bool,
  true, false, Option, none, some, List, [], ◌∷◌, ◌++◌, append_assoc, arith,
}

-- The packets of a chunk and of deliveries, as they lie in the slots.
abbrev pub landed_events : Parcel → List Event → List Arrived
landed_events c [] = []
landed_events c (piece p ∷ es) = record { raw = wire c p; size = wire_size c } ∷ landed_events c es
landed_events c (noise raw size ∷ es) = record { raw = raw; size = size } ∷ landed_events c es

abbrev pub landed_all : List Delivery → List Arrived
landed_all [] = []
landed_all (d ∷ ds) = landed_events d.parcel d.events ++ landed_all ds

event_turns :
    (c : Parcel) (es : List Event) (more : List Arrived)
    → slot_turns (slots_of (landed_events c es ++ more))
      ≡ turns_of c es ++ slot_turns (slots_of more)
event_turns c [] more = refl
event_turns c (piece p ∷ es) more =
    ap (λ ts. arrival (wire c p) (wire_size c) ∷ ts) (event_turns c es more)
event_turns c (noise raw size ∷ es) more = ap (λ ts. arrival raw size ∷ ts) (event_turns c es more)

delivery_turns :
    (ds : List Delivery) (more : List Arrived)
    → slot_turns (slots_of (landed_all ds ++ more)) ≡ all_turns ds ++ slot_turns (slots_of more)
delivery_turns [] more = refl
delivery_turns (d ∷ ds) more =
    let c = d.parcel in
    ap (λ xs. slot_turns (slots_of xs))
      (append_assoc (landed_events c d.events) (landed_all ds) more)
    ∙ event_turns c d.events (landed_all ds ++ more)
    ∙ ap (λ ts. turns_of c d.events ++ ts) (delivery_turns ds more)
    ∙ sym (append_assoc (turns_of c d.events) (all_turns ds) (slot_turns (slots_of more)))

module _ (w : Wirehair) where
  open w use {State}

  piece_goes_on :
      (enc : Option State) (c : Parcel) (p : Piece)
      → IsParcel c
      → IsPieceOf w enc c p
      → ¬ IsEnd (record { raw = wire c p; size = wire_size c })
  unfolding wire
  piece_goes_on enc c p v i e =
      let is_data =
        (pkt_type-header_bytes (header_of c p.id) (p.body ++ p.stale) (wire_size c)
            (header_of-InRange v i.id_fits) (omega arith)).0.1
          v.unreserved in
      cc (is_data, e)

  events_go_on :
      (enc : Option State) (c : Parcel) (es : List Event)
      → IsParcel c
      → All (IsEventOf w enc c) es
      → All (λ a. ¬ IsEnd a) (landed_events c es)
  events_go_on enc c [] v h = tt
  events_go_on enc c (piece p ∷ es) v h = (piece_goes_on enc c p v h.0, events_go_on enc c es v h.1)
  events_go_on enc c (noise raw size ∷ es) v h = (h.0.1, events_go_on enc c es v h.1)

  deliveries_go_on :
      (ds : List Delivery) → All (IsDelivery w) ds → All (λ a. ¬ IsEnd a) (landed_all ds)
  deliveries_go_on [] h = tt
  deliveries_go_on (d ∷ ds) h =
      All-append (λ a. ¬ IsEnd a) (landed_events d.parcel d.events) (landed_all ds)
        (events_go_on h.0.enc d.parcel d.events h.0.parcel h.0.pieces) (deliveries_go_on ds h.1)

  module _ (junk : Pkt) (malloc : ℕ → List ℕ) (alloc : (n : ℕ) → length (malloc n) ≡ n)
      (law : Recovers w) {Addr D : Type 0} (resolves : Addr → Bool) (c : Config Addr D)
      (ok : check_config_receiver resolves c ≡ success) (fd address : ℕ)
      (usable : address ≢ inaddr_none) (ds : List Delivery) (last : Parcel) (es : List Event)
      (beacon : Arrived) (begins : pkt_type beacon.raw beacon.size ≡ begin)
      (renumbered : Renumbered 0xffffffffffffffff ds)
      (fresh : last_num 0xffffffffffffffff ds ≢ last.num) (genuine : All (IsDelivery w) ds)
      (unfinished : IsUnfinished w last es) where
    -- All that arrives in front of the interruption.
    abbrev pub arrived : List Arrived
    arrived = beacon ∷ (landed_all ds ++ landed_events last es)

    arrived_turns :
        (more : List Turn)
        → slot_turns (slots_of arrived) ++ more
          ≡ arrival beacon.raw beacon.size ∷ (all_turns ds ++ (turns_of last es ++ more))
    arrived_turns more =
        let events : slot_turns (slots_of (landed_events last es)) ≡ turns_of last es =
          ap (λ xs. slot_turns (slots_of xs)) (sym (append-nil (landed_events last es)))
          ∙ event_turns last es []
          ∙ append-nil (turns_of last es) in
        ap (λ ts. arrival beacon.raw beacon.size ∷ (ts ++ more))
          (delivery_turns ds (landed_events last es) ∙ ap (λ ts. all_turns ds ++ ts) events)
        ∙ ap (λ ts. arrival beacon.raw beacon.size ∷ ts)
            (append_assoc (all_turns ds) (turns_of last es) more)

    arrived_goes_on : All (λ a. ¬ IsEnd a) arrived
    arrived_goes_on = (
      (λ e. cc (begins, e)),
      All-append (λ a. ¬ IsEnd a) (landed_all ds) (landed_events last es)
          (deliveries_go_on ds genuine)
          (events_go_on unfinished.enc last es unfinished.parcel unfinished.pieces),
    )

    -- On channels that accept everything, an output that takes every chunk whole, a configuration
    -- that the receiver accepts and a socket that can be used: when no packet is larger than the
    -- receiver's packet size, and the packet that begins a transfer arrives, enough packets of
    -- some chunks, numbered so that neighbours differ, and of one more large chunk too few for a
    -- wirehair decoder to be ready, and then nothing until the timeout, the threads of
    -- `hgap_receive` end, what they wrote is the chunks of which enough arrived, and
    -- `hgap_receive` returns HGAP_ERR_TIMEOUT. Wirehair recovers what it encoded.
    pub hgap_receive_interrupted :
        All (Fits (mtu c)) arrived
        → (later : List Intake)
        → Received w junk malloc resolves c fd address
            (intakes arrived ++ (silence ∷ later))
            (concat (messages ds))
            (to_int err_timeout)
    hgap_receive_interrupted fit later =
        let net : NetReader = record {
          slots = slots_of arrived;
          closed = fd ∷ [];
          timeout = if any_begin arrived then some (timeout_of c.timeout) else none;
          poisoned = true;
          result = some (to_int err_timeout);
        } in
        let poison = slot_turn poison_slot ∷ [] in
        let (dec, eq, ph) =
          loop-truncated w junk malloc alloc law ds last es beacon.raw beacon.size poison begins
            renumbered fresh genuine unfinished in
        received_by w junk malloc resolves c fd address (intakes arrived ++ (silence ∷ later))
          (concat (messages ds)) (to_int err_timeout) net
          (record { dec = dec; output = messages ds; ended = some (to_int success, false) }) ok
          (net_reader-silence-fitted fd address (mtu c) c.timeout arrived later usable fit
            arrived_goes_on)
          refl refl
          (ap (loop w junk malloc decoder_new []) (arrived_turns poison)
            ∙ eq
            ∙ loop-poison w junk malloc dec (messages ds))
          refl (write_loop-whole [] (messages ds))

    -- On channels that accept everything, an output that takes every chunk whole, a configuration
    -- that the receiver accepts and a socket that can be used: when no packet is larger than the
    -- receiver's packet size, and the packet that begins a transfer arrives, enough packets of
    -- some chunks, numbered so that neighbours differ, of one more large chunk too few for a
    -- wirehair decoder to be ready, and then the packet that ends the transfer, the threads of
    -- `hgap_receive` end, the last chunk is missing from what they wrote, and `hgap_receive`
    -- returns success. Wirehair recovers what it encoded.
    pub hgap_receive_truncated :
        All (Fits (mtu c)) arrived
        → (final : Arrived) (later : List Intake) → Fits (mtu c) final
        → IsEnd final
        → Received w junk malloc resolves c fd address
            (intakes arrived ++ (intake final ∷ later))
            (concat (messages ds))
            (to_int success)
    hgap_receive_truncated fit final later fit_last over =
        let slots = slots_of arrived ++ (slot_of final.raw final.size ∷ []) in
        let net : NetReader = record {
          slots = slots;
          closed = fd ∷ [];
          timeout = if any_begin arrived then some (timeout_of c.timeout) else none;
          poisoned = true;
          result = some (to_int success);
        } in
        let stop = arrival final.raw final.size ∷ [] in
        let (t, eq, out, ended) =
          truncated_unreported w junk malloc alloc law ds last es beacon.raw final.raw beacon.size
            final.size begins over renumbered fresh genuine unfinished in
        let run =
          ap (loop w junk malloc decoder_new []) (
            slot_turns-append (slots_of arrived) (slot_of final.raw final.size ∷ [])
            ∙ arrived_turns stop)
          ∙ eq in
        received_by w junk malloc resolves c fd address (intakes arrived ++ (intake final ∷ later))
          (concat (messages ds)) (to_int success) net t ok
          (net_reader-fitted fd address (mtu c) c.timeout arrived final later usable fit fit_last
            arrived_goes_on over)
          refl refl
          (loop-ended w junk malloc decoder_new [] (slot_turns slots) (slot_turn poison_slot ∷ [])
            run ended)
          ended (ap (λ xs. write_loop [] (whole xs)) out ∙ write_loop-whole [] (messages ds))
