-- ===== src/Programs/Landed.antt =====
-- `hgap_receive` on what arrived of a transfer.
use hairgap.Wirehair.{Wirehair}
use hairgap.Code.{to_int, success}
use hairgap.Config.{Config, check_config_receiver}
use hairgap.Proto.{Pkt}
use hairgap.Encoding.Decode.{decoder_new}
use hairgap.Receive.Decloop.{Thread, loop}
use hairgap.Receive.Events.{arrival}
use hairgap.Receive.Network.{Intake, slot_of}
use hairgap.Receive.Socket.{NetReader, timeout_of}
use hairgap.Receive.Reader.{net_reader-fitted}
use hairgap.Socket.{inaddr_none}
use hairgap.Session.{mtu}
use hairgap.Receive.Forwarding.{Fits, Arrived, IsEnd, intake, intakes, slots_of, any_begin}
use hairgap.Receive.Writer.{write_loop}
use hairgap.Receive.Output.{whole}
use hairgap.Pipeline.Arrivals.{Arrival, copy, other, turns}
use hairgap.Pipeline.Flight.{all_arrivals}
use hairgap.Pipeline.Onward.{all_landed, onward}
use hairgap.Programs.Receiver.{slot_turn, slot_turns, slot_turns-append, poison_slot, loop-ended}
use hairgap.Programs.Received.{Received, received_by}
use hairgap.Prelude.{
  if◌then◌else◌, ◌≢◌, none, true, length, All, ret, ℕ, ◌≡◌, refl, ap, ◌∙◌, Bool, false, some, List,
  [], ◌∷◌, ◌++◌,
}

-- The slots of the packets are the rounds of the decoder thread.
landed_turns :
    (xs : List Arrival) (more : List Arrived)
    → slot_turns (slots_of (all_landed xs ++ more)) ≡ turns xs ++ slot_turns (slots_of more)
landed_turns [] more = refl
landed_turns (copy bytes stale ∷ xs) more =
    ap (λ ts. arrival (bytes ++ stale) (length bytes) ∷ ts) (landed_turns xs more)
landed_turns (other raw size ∷ xs) more = ap (λ ts. arrival raw size ∷ ts) (landed_turns xs more)

onward_turns : (xs : List (List Arrival)) → slot_turns (slots_of (onward xs)) ≡ all_arrivals xs
onward_turns [] = refl
onward_turns (x ∷ xs) = landed_turns x (onward xs) ∙ ap (λ ts. turns x ++ ts) (onward_turns xs)

-- The receiver behind a decoder thread that ended with success, and a writer that did.
module _ (w : Wirehair) (junk : Pkt) (malloc : ℕ → List ℕ) {Addr D : Type 0}
    (resolves : Addr → Bool) (c : Config Addr D) where
  pub received_of :
      (fd address : ℕ) (beacon final : Arrived) (xs : List (List Arrival)) (later : List Intake)
      (bytes : List ℕ) (t : Thread w.State)
      → check_config_receiver resolves c ≡ success
      → address ≢ inaddr_none
      → All (λ a. ¬ IsEnd a) (beacon ∷ onward xs)
      → IsEnd final
      → All (Fits (mtu c)) (beacon ∷ onward xs)
      → Fits (mtu c) final
      → loop w junk malloc decoder_new [] (
          arrival beacon.raw beacon.size ∷ (all_arrivals xs ++ (arrival final.raw final.size ∷ [])))
        ≡ ret t
      → t.ended ≡ some (to_int success, false)
      → write_loop [] (whole t.output) ≡ record { out = bytes; ended = some (to_int success) }
      → Received w junk malloc resolves c fd address
          (intakes (beacon ∷ onward xs) ++ (intake final ∷ later))
          bytes
          (to_int success)
  received_of fd address beacon final xs later bytes t ok usable quiet over fit fit_last run ended
        written =
      let ps = beacon ∷ onward xs in
      let net : NetReader = record {
        slots = slots_of ps ++ (slot_of final.raw final.size ∷ []);
        closed = fd ∷ [];
        timeout = if any_begin ps then some (timeout_of c.timeout) else none;
        poisoned = true;
        result = some (to_int success);
      } in
      let same : slot_turns net.slots
          ≡ arrival beacon.raw beacon.size
            ∷ (all_arrivals xs ++ (arrival final.raw final.size ∷ [])) =
        slot_turns-append (slots_of ps) (slot_of final.raw final.size ∷ [])
        ∙ ap (λ ts. arrival beacon.raw beacon.size ∷ (ts ++ (arrival final.raw final.size ∷ [])))
            (onward_turns xs) in
      received_by w junk malloc resolves c fd address (intakes ps ++ (intake final ∷ later)) bytes
        (to_int success) net t ok
        (net_reader-fitted fd address (mtu c) c.timeout ps final later usable fit fit_last quiet
          over)
        refl refl
        (loop-ended w junk malloc decoder_new [] (slot_turns net.slots) (slot_turn poison_slot ∷ [])
          (ap (loop w junk malloc decoder_new []) same ∙ run) ended)
        ended written
