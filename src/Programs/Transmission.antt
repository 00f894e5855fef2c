-- ===== src/Programs/Transmission.antt =====
-- What `send_loop` of src/lib/hgap_send.c gives to the network through the socket of src/lib/sender.c.
use hairgap.Wirehair.{Wirehair, Floating}
use hairgap.Encoding.{Chunk}
use hairgap.Code.{success}
use hairgap.Encoding.Encode.{handwave}
use hairgap.Send.Loop.{Sending, send_loop}
use hairgap.Socket.{World, Sender, sender_send, sender_control}
use hairgap.Prelude.{
  load, replicate, Outcome, ret, ◌>>=◌, ℕ, true, false, Option, none, some, List, [], ◌∷◌, ◌++◌,
}

-- The packets of all chunks, in order.
abbrev pub all_packets : List (List (List ℕ)) → List (List ℕ)
all_packets [] = []
all_packets (g ∷ gs) = g ++ all_packets gs

-- The packet of the first salve: what `hgap_encoder_handwave` leaves in a buffer of zeros, as far as its
-- `send_size` goes, if it succeeds.
unfoldable pub announcement : ℕ → Outcome (Option (List ℕ))
announcement pkt_size = handwave (replicate pkt_size 0) pkt_size >>= λ r. elim r.code [
  | success ↦ load r.pkt 0 r.size >>= λ bytes. ret (some bytes)
  | _ ↦ ret none
]

module _ (f : Floating) where
  open f use {Double, equal, zero_double}

  -- `hgap_sender_send` of each packet; its result is not looked at.
  unfoldable pub send_packets :
      Sender Double → List (List ℕ) → World → Option (Sender Double × World)
  send_packets hs [] w = some (hs, w)
  send_packets hs (p ∷ ps) w = elim (sender_send f hs p w) [
    | none ↦ none
    | some (hs', r, w') ↦ send_packets hs' ps w'
  ]

  -- The last salve, if there is one; its result is not looked at.
  unfoldable pub send_last :
      Sender Double → Option (List ℕ) → World → Option (Sender Double × World)
  send_last hs none w = some (hs, w)
  send_last hs (some pkt) w = elim (sender_control f hs pkt w) [
    | none ↦ none
    | some (hs', r, w') ↦ some (hs', w')
  ]

  -- What `send_loop` does with its sender, once its first salve is through: the packets of the chunks,
  -- and the last salve.
  unfoldable pub send_on : Sender Double → Sending → World → Option (Sender Double × World)
  unfolding send_packets send_last
  send_on hs out w = elim (send_packets hs (all_packets out.groups) w) [
    | none ↦ none
    | some (hs', w') ↦ send_last hs' out.closed w'
  ]

  -- What was sent, and the sender behind it.
  unfoldable pub with_sender :
      Sending
      → Option (Sender Double × World)
      → Outcome (Option (Sending × (Sender Double × World)))
  with_sender out none = ret none
  with_sender out (some end) = ret (some (out, end))

  module _ (w : Wirehair) where
    open w use {State}

    -- `send_loop` with a sender that was made, once `hgap_encoder_handwave` has left `beacon` for its first
    -- salve, or has failed: whether it is heard is what the salve says.
    unfoldable pub send_behind :
        ℕ
        → ℕ
        → Double
        → Sender Double
        → List (Option (Option (Chunk State)))
        → World
        → Option (List ℕ)
        → Outcome (Option (Sending × (Sender Double × World)))
    unfolding send_on with_sender
    send_behind fuel pkt_size redund hs rs net none =
        send_loop w f fuel pkt_size redund (record { opened = true; heard = false }) rs
        >>= elim [ none ↦ ret none | some out ↦ ret (some (out, (hs, net))) ]
    send_behind fuel pkt_size redund hs rs net (some beacon) =
        elim (sender_control f hs beacon net) [
          | none ↦ ret none
          | some (hs', none, net') ↦
              send_loop w f fuel pkt_size redund (record { opened = true; heard = false }) rs
              >>= elim [ none ↦ ret none | some out ↦ ret (some (out, (hs', net'))) ]
          | some (hs', some r, net') ↦
              send_loop w f fuel pkt_size redund (record { opened = true; heard = true }) rs
              >>= elim [ none ↦ ret none | some out ↦ with_sender out (send_on hs' out net') ]
        ]

    unfoldable pub send_through :
        ℕ
        → ℕ
        → Double
        → Sender Double
        → List (Option (Option (Chunk State)))
        → World
        → Outcome (Option (Sending × (Sender Double × World)))
    unfolding send_behind announcement
    send_through fuel pkt_size redund hs rs net =
        announcement pkt_size >>= send_behind fuel pkt_size redund hs rs net
