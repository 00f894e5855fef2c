-- ===== src/Pipeline/Arrivals.antt =====
-- What the network brings of the packets that were sent of one chunk.
use hairgap.Wirehair.{Wirehair, Block, feed}
use hairgap.Proto.{data_pkt, end, header_len, pkt_type, header_bytes, read_header}
use hairgap.Proto.Layout.{read_header-header_bytes, length-header_bytes}
use hairgap.Encoding.Packet.{Parcel, wire, wire_size, IsParcel, header_of, header_of-InRange}
use hairgap.Receive.Decloop.{Turn}
use hairgap.Receive.Events.{Event, piece, noise, arrival, turns_of, blocks_of, IsEventOf}
use hairgap.Send.Groups.{IsPacketOf}
use hairgap.Prelude.{
  length, drop, drop-append, length-append, All, In, All-In, ℕ, ◌<◌, ◌≡◌, ◌≢◌, refl, sym, ap, ap₂,
  ◌∙◌, Option, some, List, [], ◌∷◌, ◌++◌, append_assoc, arith,
}

-- A packet in a slot: a copy of one that was sent, with what the slot held behind it, or another one.
pub data Arrival : Type 0 where
  copy : List ℕ → List ℕ → Arrival
  other : List ℕ → ℕ → Arrival

abbrev pub turn : Arrival → Turn
turn (copy bytes stale) = arrival (bytes ++ stale) (length bytes)
turn (other raw size) = arrival raw size

abbrev pub turns : List Arrival → List Turn
turns [] = []
turns (a ∷ xs) = turn a ∷ turns xs

-- Copies of packets of the group, and packets that are neither data nor the end of a transfer.
abbrev pub IsArrivalOf : List (List ℕ) → Arrival → Type 0
IsArrivalOf group (copy bytes stale) = In bytes group
IsArrivalOf group (other raw size) = (pkt_type raw size ≢ data_pkt) × (pkt_type raw size ≢ end)

-- The blocks that the copies carry.
abbrev pub blocks_in : List Arrival → List Block
blocks_in [] = []
blocks_in (copy bytes stale ∷ xs) =
    record { id = (read_header bytes).data_id; bytes = drop header_len bytes } ∷ blocks_in xs
blocks_in (other raw size ∷ xs) = blocks_in xs

-- Enough of a chunk arrives: one packet if it has bytes, and if it is large, as many blocks as a wirehair
-- decoder needs to report itself ready.
pub record Enough (w : Wirehair) (c : Parcel) (xs : List Arrival) : Type 0 where
  pub some_copy : 0 < length c.message → blocks_in xs ≢ []
  pub ready :
      c.pay < length c.message
      → (reuse : Option w.State)
      → (s : w.State) × (s' : w.State) × (w.decode reuse (length c.message) c.pay ≡ some s)
        × (feed w s (blocks_in xs) ≡ some s')

module _ (w : Wirehair) where
  open w use {State}

  -- The events that the receiver's theorems speak of.
  pub record Events (enc : Option State) (c : Parcel) (xs : List Arrival) : Type 0 where
    pub events : List Event
    pub same_turns : turns_of c events ≡ turns xs
    pub same_blocks : blocks_of events ≡ blocks_in xs
    pub genuine : All (IsEventOf w enc c) events

  pub packet-wire :
      (enc : Option State) (c : Parcel) (bytes stale : List ℕ) (p : IsPacketOf w enc c bytes)
      → (wire c (record { id = p.id; body = p.body; stale = stale }) ≡ bytes ++ stale)
        × (wire_size c ≡ length bytes)
  unfolding wire
  packet-wire enc c bytes stale p = (
    sym (append_assoc (header_bytes (header_of c p.id)) p.body stale)
        ∙ ap (λ t. t ++ stale) (sym p.layout),
    omega (
      arith,
      ap length p.layout,
      length-append (header_bytes (header_of c p.id)) p.body,
      length-header_bytes (header_of c p.id),
      (p.piece []).body_size,
    ),
  )

  packet-block :
      (enc : Option State) (c : Parcel) (bytes : List ℕ) (p : IsPacketOf w enc c bytes)
      → IsParcel c
      → ((read_header bytes).data_id ≡ p.id) × (drop header_len bytes ≡ p.body)
  packet-block enc c bytes p v = (
    ap (λ b. (read_header b).data_id) p.layout
        ∙ ap (λ h. h.data_id)
            (read_header-header_bytes (header_of c p.id) p.body
              (header_of-InRange v (p.piece []).id_fits)),
    ap (drop header_len) p.layout
        ∙ drop-append header_len (header_bytes (header_of c p.id)) p.body
            (length-header_bytes (header_of c p.id)),
  )

  pub arrived-Events :
      (enc : Option State) (c : Parcel) (group : List (List ℕ)) (xs : List Arrival)
      → IsParcel c
      → All (IsPacketOf w enc c) group
      → All (IsArrivalOf group) xs
      → Events enc c xs
  arrived-Events enc c group [] v h i = record {
    events = [];
    same_turns = refl;
    same_blocks = refl;
    genuine = tt;
  }
  arrived-Events enc c group (other raw size ∷ xs) v h i =
      let e = arrived-Events enc c group xs v h i.1 in
      record {
        events = noise raw size ∷ e.events;
        same_turns = ap (λ ts. arrival raw size ∷ ts) e.same_turns;
        same_blocks = e.same_blocks;
        genuine = (i.0, e.genuine);
      }
  arrived-Events enc c group (copy bytes stale ∷ xs) v h i =
      let p = All-In (IsPacketOf w enc c) bytes group h i.0 in
      let e = arrived-Events enc c group xs v h i.1 in
      let (same_wire, same_size) = packet-wire enc c bytes stale p in
      let (same_id, same_body) = packet-block enc c bytes p v in
      record {
        events = piece (record { id = p.id; body = p.body; stale = stale }) ∷ e.events;
        same_turns = ap₂ ◌∷◌ (ap₂ arrival same_wire same_size) e.same_turns;
        same_blocks =
            ap₂ ◌∷◌ (ap₂ (λ i b. record { id = i; bytes = b }) (sym same_id) (sym same_body))
              e.same_blocks;
        genuine = (p.piece stale, e.genuine);
      }
