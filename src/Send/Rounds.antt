-- ===== src/Send/Rounds.antt =====
-- One round of the do-while loop of `send_loop`, by what was emitted.
use hairgap.Wirehair.{Wirehair, Floating}
use hairgap.Encoding.{Chunk}
use hairgap.Encoding.Encode.{Emitted, chunk_emit}
use hairgap.Send.Sender.{burst}
use hairgap.Prelude.{load, ret, ℕ, suc, ◌≡◌, Bool, true, false, some, List, [], ◌∷◌, ◌++◌, arith}

module _ (w : Wirehair) (f : Floating) where
  open w use {State, encode, write}
  open f use {Double, of_size, divide, less, minus_one, zero_double}

  -- One round of the loop, by what was emitted.
  module _ (fuel pkt_size : ℕ) (redund : Double) (chunk : Chunk State) (pkt : List ℕ)
      (sent : List (List ℕ)) (failed : Bool) (r : Emitted State Double)
      (e : chunk_emit w f chunk pkt pkt_size ≡ ret r) where
    pub burst-fails :
        less r.redund zero_double ≡ true
        → less r.redund redund ≡ true
        → burst w f (suc fuel) pkt_size redund chunk pkt sent failed
          ≡ burst w f fuel pkt_size redund r.chunk r.pkt sent true
    unfolding burst
    burst-fails minus low = ground (arith, e, minus, low)

    module _ (bytes : List ℕ) (held : load r.pkt 0 r.size ≡ ret bytes)
        (fine : less r.redund zero_double ≡ false) where
      pub burst-goes_on :
          less r.redund redund ≡ true
          → burst w f (suc fuel) pkt_size redund chunk pkt sent failed
            ≡ burst w f fuel pkt_size redund r.chunk r.pkt (sent ++ (bytes ∷ [])) failed
      unfolding burst
      burst-goes_on low = ground (arith, e, held, fine, low)

      pub burst-stops :
          less r.redund redund ≡ false
          → burst w f (suc fuel) pkt_size redund chunk pkt sent failed
            ≡ ret (
                some (record {
                  chunk = r.chunk;
                  pkt = r.pkt;
                  sent = sent ++ (bytes ∷ []);
                  failed = failed;
                }))
      unfolding burst
      burst-stops high = ground (arith, e, held, fine, high)
