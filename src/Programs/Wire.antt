-- ===== src/Programs/Wire.antt =====
-- What comes on the wire from `send_loop`, by what the network answers.
use hairgap.Wirehair.{Wirehair, Floating}
use hairgap.Socket.{Sender}
use hairgap.Prelude.{◌≡◌, true}

module _ (f : Floating) where
  open f use {Double, equal, zero_double}

  -- A sender without a rate.
  abbrev IsFree : Sender Double → Type 0
  IsFree hs = equal hs.hlim.byterate zero_double ≡ true
