-- ===== src/Pipeline/Onward.antt =====
-- What the network thread of the receiver makes of the packets of a transfer.
use hairgap.Wirehair.{Wirehair}
use hairgap.Proto.{end, header_len, first_reserved, max_chunk_size, pkt_type}
use hairgap.Proto.Parse.{pkt_type-header_bytes}
use hairgap.Encoding.Encode.{Encoder}
use hairgap.Encoding.Emission.{parcel_of}
use hairgap.Encoding.Packet.{Parcel, IsParcel, wire, wire_size, header_of, header_of-InRange}
use hairgap.Receive.Forwarding.{Arrived, Fits, IsEnd}
use hairgap.Send.Groups.{IsPacketOf, AreSent}
use hairgap.Send.Numbering.{following}
use hairgap.Pipeline.Arrivals.{Arrival, copy, other, IsArrivalOf, packet-wire}
use hairgap.Pipeline.Flight.{AllArrive}
use hairgap.Prelude.{
  length, All, All-append, All-In, ℕ, ◌+◌, ◌^◌, ◌≤◌, ◌<◌, ◌≡◌, Option, List, [], ◌∷◌, ◌++◌, arith,
}

-- A packet as `recvfrom` leaves it in a slot.
abbrev pub landed : Arrival → Arrived
landed (copy bytes stale) = record { raw = bytes ++ stale; size = length bytes }
landed (other raw size) = record { raw = raw; size = size }

abbrev pub all_landed : List Arrival → List Arrived
all_landed [] = []
all_landed (a ∷ xs) = landed a ∷ all_landed xs

-- The packets of all chunks, one behind the other.
abbrev pub onward : List (List Arrival) → List Arrived
onward [] = []
onward (x ∷ xs) = all_landed x ++ onward xs

-- What is not a copy fits the slots of a receiver.
abbrev pub OtherFits : ℕ → Arrival → Type 0
OtherFits mtu (copy bytes stale) = Unit
OtherFits mtu (other raw size) = size ≤ mtu

module _ (w : Wirehair) where
  open w use {State}

  -- A copy of a packet of a chunk does not end a transfer.
  copy_goes_on :
      (enc : Option State) (c : Parcel) (bytes stale : List ℕ)
      → IsPacketOf w enc c bytes
      → IsParcel c
      → ¬ IsEnd (landed (copy bytes stale))
  unfolding wire
  copy_goes_on enc c bytes stale p v e =
      let (same_wire, same_size) = packet-wire w enc c bytes stale p in
      let is_data =
        (pkt_type-header_bytes (header_of c p.id) (p.body ++ stale) (wire_size c)
            (header_of-InRange v (p.piece []).id_fits) (omega arith)).0.1
          v.unreserved in
      let is_end : pkt_type (wire c (record { id = p.id; body = p.body; stale = stale }))
            (wire_size c)
          ≡ end =
        rw (same_wire, same_size) e in
      cc (is_data, is_end)

  landed_go_on :
      (enc : Option State) (c : Parcel) (group : List (List ℕ)) (xs : List Arrival)
      → IsParcel c
      → All (IsPacketOf w enc c) group
      → All (IsArrivalOf group) xs
      → All (λ a. ¬ IsEnd a) (all_landed xs)
  landed_go_on enc c group [] v h i = tt
  landed_go_on enc c group (copy bytes stale ∷ xs) v h i = (
    copy_goes_on enc c bytes stale (All-In (IsPacketOf w enc c) bytes group h i.0) v,
    landed_go_on enc c group xs v h i.1,
  )
  landed_go_on enc c group (other raw size ∷ xs) v h i =
      (i.0.1, landed_go_on enc c group xs v h i.1)

  landed-Fits :
      (mtu : ℕ) (enc : Option State) (c : Parcel) (group : List (List ℕ)) (xs : List Arrival)
      → wire_size c ≤ mtu
      → All (IsPacketOf w enc c) group
      → All (IsArrivalOf group) xs
      → All (OtherFits mtu) xs
      → All (Fits mtu) (all_landed xs)
  landed-Fits mtu enc c group [] b h i o = tt
  landed-Fits mtu enc c group (copy bytes stale ∷ xs) b h i o =
      let (_, same_size) =
        packet-wire w enc c bytes stale (All-In (IsPacketOf w enc c) bytes group h i.0) in
      (omega (arith, same_size, b), landed-Fits mtu enc c group xs b h i.1 o.1)
  landed-Fits mtu enc c group (other raw size ∷ xs) b h i o =
      (o.0, landed-Fits mtu enc c group xs b h i.1 o.1)

  -- The packets of an encoder with packets that a slot holds fit the slots.
  pub onward-Fits :
      (mtu : ℕ) (enc : Encoder) (ms : List (List ℕ)) (gs : List (List (List ℕ)))
      (xs : List (List Arrival))
      → header_len < enc.pkt_size
      → enc.pkt_size ≤ mtu
      → AreSent w enc ms gs
      → AllArrive w enc ms gs xs
      → All (All (OtherFits mtu)) xs
      → All (Fits mtu) (onward xs)
  onward-Fits mtu enc [] [] [] lo b sent got o = tt
  onward-Fits mtu enc (m ∷ ms) (g ∷ gs) (x ∷ xs) lo b sent got o =
      let group = sent.0 in
      let size : wire_size (parcel_of w enc m) ≤ mtu = ground (arith, lo, b) in
      All-append (Fits mtu) (all_landed x) (onward xs)
        (landed-Fits mtu group.enc (parcel_of w enc m) g x size group.genuine got.0 o.0)
        (onward-Fits mtu (following enc) ms gs xs lo b sent.1 got.2 o.1)
  onward-Fits mtu enc [] [] (x ∷ xs) lo b sent got o = absurd got
  onward-Fits mtu enc [] (g ∷ gs) xs lo b sent got o = absurd sent
  onward-Fits mtu enc (m ∷ ms) [] xs lo b sent got o = absurd sent
  onward-Fits mtu enc (m ∷ ms) (g ∷ gs) [] lo b sent got o = absurd got

  -- Nothing of the chunks, and nothing that comes between, ends the transfer.
  pub onward_goes_on :
      (enc : Encoder) (ms : List (List ℕ)) (gs : List (List (List ℕ))) (xs : List (List Arrival))
      → enc.next_chunk_num + length ms ≤ first_reserved
      → header_len < enc.pkt_size
      → enc.pkt_size < 2 ^ 32
      → All (λ m. length m ≤ max_chunk_size) ms
      → AreSent w enc ms gs
      → AllArrive w enc ms gs xs
      → All (λ a. ¬ IsEnd a) (onward xs)
  onward_goes_on enc [] [] [] few lo hi sizes sent got = tt
  onward_goes_on enc (m ∷ ms) (g ∷ gs) (x ∷ xs) few lo hi sizes sent got =
      let v : IsParcel (parcel_of w enc m) = record {
        unreserved = omega (arith, few);
        size_fits = omega (arith, sizes.0);
        pay_fits = ground arith;
      } in
      let group = sent.0 in
      All-append (λ a. ¬ IsEnd a) (all_landed x) (onward xs)
        (landed_go_on group.enc (parcel_of w enc m) g x v group.genuine got.0)
        (onward_goes_on (following enc) ms gs xs (omega (arith, few)) lo hi sizes.1 sent.1 got.2)
  onward_goes_on enc [] [] (x ∷ xs) few lo hi sizes sent got = absurd got
  onward_goes_on enc [] (g ∷ gs) xs few lo hi sizes sent got = absurd sent
  onward_goes_on enc (m ∷ ms) [] xs few lo hi sizes sent got = absurd sent
  onward_goes_on enc (m ∷ ms) (g ∷ gs) [] few lo hi sizes sent got = absurd got
