-- ===== src/Receive/Events.antt =====
-- What arrives while a chunk is sent, as rounds of the decoder thread.
use hairgap.Wirehair.{Wirehair, Block, feed}
use hairgap.Proto.{data_pkt, end, pkt_type}
use hairgap.Encoding.Packet.{Piece, Parcel, wire, wire_size}
use hairgap.Encoding.Delivery.{block_of, IsPieceOf}
use hairgap.Receive.Decloop.{Turn}
use hairgap.Prelude.{length, ℕ, ◌<◌, ◌≡◌, ◌≢◌, true, Option, some, List, [], ◌∷◌}

-- What arrives while a chunk is sent: a packet of the chunk, or something else.
pub data Event : Type 0 where
  piece : Piece → Event
  noise : List ℕ → ℕ → Event

-- The round in which a packet is handed over, on channels that nobody has poisoned.
abbrev pub arrival : List ℕ → ℕ → Turn
arrival raw size = record {
  peeked = some (record { size = size; content = some raw });
  acked = true;
  sent = true;
}

abbrev pub turn_of : Parcel → Event → Turn
turn_of c (piece p) = arrival (wire c p) (wire_size c)
turn_of c (noise raw size) = arrival raw size

abbrev pub turns_of : Parcel → List Event → List Turn
turns_of c [] = []
turns_of c (e ∷ es) = turn_of c e ∷ turns_of c es

abbrev pub blocks_of : List Event → List Block
blocks_of [] = []
blocks_of (piece p ∷ es) = block_of p ∷ blocks_of es
blocks_of (noise raw size ∷ es) = blocks_of es

module _ (w : Wirehair) where
  open w use {State}

  -- Each packet of the chunk is what its encoder `enc` made of it, and nothing else is data or the
  -- end of the transfer.
  abbrev pub IsEventOf : Option State → Parcel → Event → Type 0
  IsEventOf enc c (piece p) = IsPieceOf w enc c p
  IsEventOf enc c (noise raw size) = (pkt_type raw size ≢ data_pkt) × (pkt_type raw size ≢ end)

-- Enough of the chunk arrives: some packet of it, and if it is large, blocks from which a new
-- wirehair decoder, whatever state it reuses, can reassemble it.
pub record Suffices (w : Wirehair) (c : Parcel) (es : List Event) : Type 0 where
  pub some_piece : blocks_of es ≢ []
  pub enough :
      c.pay < length c.message
      → (reuse : Option w.State)
      → (d : w.State) × (d' : w.State) × (w.decode reuse (length c.message) c.pay ≡ some d)
        × (feed w d (blocks_of es) ≡ some d')
        × (w.reconstruct (some d') ≡ some c.message)
