-- ===== src/Send/Groups.antt =====
-- The packets of a chunk and of all the chunks, as `send_loop` sends them, and when it can.
use hairgap.Wirehair.{Wirehair, Floating}
use hairgap.Proto.{header_bytes}
use hairgap.Encoding.{Chunk}
use hairgap.Encoding.Encode.{Encoder}
use hairgap.Encoding.Emission.{parcel_of}
use hairgap.Encoding.Packet.{Parcel, header_of}
use hairgap.Send.Numbering.{following}
use hairgap.Prelude.{
  ◌⊎◌, length, All, ℕ, ◌+◌, ◌^◌, ◌≤◌, ◌<◌, ◌≡◌, ◌≢◌, false, Option, none, some, List, [], ◌∷◌, ◌++◌,
}
use hairgap.Encoding.Delivery.{IsPieceOf}

-- The sending thread receives the chunks and then the poison.
abbrev pub supplied : {S : Type 0} → List (Chunk S) → List (Option (Option (Chunk S)))
supplied [] = some none ∷ []
supplied (c ∷ cs) = some (some c) ∷ supplied cs

module _ (w : Wirehair) where
  open w use {State, encode, write}

  -- `bytes` is a packet of `c`, whatever stands behind it in the receiver's memory.
  pub record IsPacketOf (enc : Option State) (c : Parcel) (bytes : List ℕ) : Type 0 where
    pub id : ℕ
    pub body : List ℕ
    pub layout : bytes ≡ header_bytes (header_of c id) ++ body
    pub piece :
        (stale : List ℕ) → IsPieceOf w enc c (record { id = id; body = body; stale = stale })

  -- What is sent of a chunk: one packet of it or more, all of one encoder of its message.
  pub record IsGroup (c : Parcel) (packets : List (List ℕ)) : Type 0 where
    pub enc : Option State
    pub encoded :
        c.pay < length c.message
        → (reuse : Option State) × (e : State) × (encode reuse c.message c.pay ≡ some e)
          × (enc ≡ some e)
    pub genuine : All (IsPacketOf enc c) packets
    pub some_packet : packets ≢ []

  -- One group for each message, under the numbers from the encoder's next one on.
  abbrev pub AreSent : Encoder → List (List ℕ) → List (List (List ℕ)) → Type 0
  AreSent enc [] [] = Unit
  AreSent enc [] (g ∷ gs) = ⊥
  AreSent enc (m ∷ ms) [] = ⊥
  AreSent enc (m ∷ ms) (g ∷ gs) = IsGroup (parcel_of w enc m) g × AreSent (following enc) ms gs

  module _ (f : Floating) where
    open f use {Double, of_size, divide, less, zero_double}

    -- A message that can be sent with the redundancy `redund` in at most `fuel` emissions: its encoders
    -- write every block, and the redundancy is reached once `bound` bytes were emitted, or at once if
    -- there are no bytes to send.
    pub record CanSend (fuel pkt_size : ℕ) (redund : Double) (message : List ℕ) : Type 0 where
      pub bound : ℕ
      pub some_bound : 0 < bound
      pub enough : bound ≤ fuel
      pub fits : bound + pkt_size < 2 ^ 64
      pub writes :
          (reuse : Option State) (size : ℕ) (e : State) (id : ℕ)
          → encode reuse message size ≡ some e
          → write (some e) id ≢ none
      pub positive :
          (total : ℕ) → less (divide (of_size total) (of_size (length message))) zero_double ≡ false
      pub reached :
          (total : ℕ)
          → (length message ≡ 0) ⊎ (bound ≤ total)
          → less (divide (of_size total) (of_size (length message))) redund ≡ false
