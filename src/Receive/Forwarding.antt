-- ===== src/Receive/Forwarding.antt =====
-- What the network thread hands over.
use hairgap.Code.{to_int, success, err_timeout}
use hairgap.Proto.{PktType, unknown, begin, keepalive, data_pkt, end, pkt_type}
use hairgap.Receive.Decloop.{Slot}
use hairgap.Receive.Network.{
  received, timed_out, kept, kept_size, Intake, is_begin, is_end, slot_of, net_loop,
}
use hairgap.Prelude.{
  leb, ◌≤◌, arith, append-nil, All, ret, ℕ, Bool, true, false, ◌||◌, ◌≡◌, refl, ap₂, ◌∙◌, some,
  List, [], ◌∷◌, ◌++◌, append_assoc,
}

-- A packet as it lies in the slot, and the size received.
pub record Arrived : Type 0 where
  pub raw : List ℕ
  pub size : ℕ

abbrev pub intake : Arrived → Intake
intake a = record { reserved = true; datagram = received a.raw a.size; sent = true }

abbrev pub intakes : List Arrived → List Intake
intakes [] = []
intakes (a ∷ ps) = intake a ∷ intakes ps

abbrev pub slots_of : List Arrived → List Slot
slots_of [] = []
slots_of (a ∷ ps) = slot_of a.raw a.size ∷ slots_of ps

abbrev pub any_begin : List Arrived → Bool
any_begin [] = false
any_begin (a ∷ ps) = is_begin (pkt_type a.raw a.size) || any_begin ps

-- A packet as a slot for `mtu` bytes holds it.
abbrev pub fitted : ℕ → Arrived → Arrived
fitted mtu a = record { raw = kept mtu a.raw a.size; size = kept_size mtu a.size }

abbrev pub all_fitted : ℕ → List Arrived → List Arrived
all_fitted mtu [] = []
all_fitted mtu (a ∷ ps) = fitted mtu a ∷ all_fitted mtu ps

-- A packet that fits the slot is not changed by it.
abbrev pub Fits : ℕ → Arrived → Type 0
Fits mtu a = a.size ≤ mtu

pub fitted_lem : (mtu : ℕ) (a : Arrived) → Fits mtu a → fitted mtu a ≡ a
fitted_lem mtu a h = let whole : leb a.size mtu ≡ true = ground (arith, h) in rw whole refl

pub all_fitted_lem : (mtu : ℕ) (ps : List Arrived) → All (Fits mtu) ps → all_fitted mtu ps ≡ ps
all_fitted_lem mtu [] h = refl
all_fitted_lem mtu (a ∷ ps) h =
    ap₂ (λ x xs. x ∷ xs) (fitted_lem mtu a h.0) (all_fitted_lem mtu ps h.1)

abbrev pub IsEnd : Arrived → Type 0
IsEnd a = pkt_type a.raw a.size ≡ end

other_type : (t : PktType) → ¬ (t ≡ end) → is_end t ≡ false
other_type end ne = absurd (ne refl)
other_type unknown ne = refl
other_type begin ne = refl
other_type keepalive ne = refl
other_type data_pkt ne = refl

or_false : (a : Bool) → (a || false) ≡ a
or_false true = refl
or_false false = refl

or_assoc : (a b c : Bool) → ((a || b) || c) ≡ (a || (b || c))
or_assoc true b c = refl
or_assoc false b c = refl

net_loop-forwards :
    (mtu : ℕ) (started : Bool) (slots : List Slot) (ps : List Arrived) (final : Arrived)
    (later : List Intake)
    → All (λ a. ¬ IsEnd a) (all_fitted mtu ps)
    → IsEnd (fitted mtu final)
    → net_loop mtu started slots (intakes ps ++ (intake final ∷ later))
      ≡ ret (record {
        started = started || any_begin (all_fitted mtu ps);
        slots =
            slots
            ++ (slots_of (all_fitted mtu ps)
                ++ (slot_of (fitted mtu final).raw (fitted mtu final).size ∷ []));
        ended = some (to_int success);
      })
unfolding net_loop
net_loop-forwards mtu started slots [] final later h e = rw (e, or_false started) refl
net_loop-forwards mtu started slots (a ∷ ps) final later h e =
    let begun = is_begin (pkt_type (fitted mtu a).raw (fitted mtu a).size) in
    let slot = slot_of (fitted mtu a).raw (fitted mtu a).size in
    rw (other_type (pkt_type (fitted mtu a).raw (fitted mtu a).size) h.0) (
      net_loop-forwards mtu (started || begun) (slots ++ (slot ∷ [])) ps final later h.1 e
      ∙ ap₂ (λ b xs. ret (record { started = b; slots = xs; ended = some (to_int success) }))
          (or_assoc started begun (any_begin (all_fitted mtu ps)))
          (append_assoc slots (slot ∷ []) (
            slots_of (all_fitted mtu ps)
            ++ (slot_of (fitted mtu final).raw (fitted mtu final).size ∷ []))))

-- A wait that ends with the timeout of the socket.
abbrev pub silence : Intake
silence = record { reserved = true; datagram = timed_out; sent = true }

pub net_loop-silence :
    (mtu : ℕ) (started : Bool) (slots : List Slot) (ps : List Arrived) (later : List Intake)
    → All (λ a. ¬ IsEnd a) (all_fitted mtu ps)
    → net_loop mtu started slots (intakes ps ++ (silence ∷ later))
      ≡ ret (record {
        started = started || any_begin (all_fitted mtu ps);
        slots = slots ++ slots_of (all_fitted mtu ps);
        ended = some (to_int err_timeout);
      })
unfolding net_loop
net_loop-silence mtu started slots [] later h = rw (or_false started, append-nil) refl
net_loop-silence mtu started slots (a ∷ ps) later h =
    let begun = is_begin (pkt_type (fitted mtu a).raw (fitted mtu a).size) in
    let slot = slot_of (fitted mtu a).raw (fitted mtu a).size in
    rw (other_type (pkt_type (fitted mtu a).raw (fitted mtu a).size) h.0) (
      net_loop-silence mtu (started || begun) (slots ++ (slot ∷ [])) ps later h.1
      ∙ ap₂ (λ b xs. ret (record { started = b; slots = xs; ended = some (to_int err_timeout) }))
          (or_assoc started begun (any_begin (all_fitted mtu ps)))
          (append_assoc slots (slot ∷ []) (slots_of (all_fitted mtu ps))))

-- While the channel takes every packet, the network thread hands over all packets up to the first one
-- that ends a transfer, that one included, in order and with whatever stands in their slots, and
-- nothing behind it; it sets the timeout exactly if one of them begins a transfer, and it ends with
-- success.
pub net_loop_forwards :
    (mtu : ℕ) (ps : List Arrived) (final : Arrived) (later : List Intake)
    → All (λ a. ¬ IsEnd a) (all_fitted mtu ps)
    → IsEnd (fitted mtu final)
    → net_loop mtu false [] (intakes ps ++ (intake final ∷ later))
      ≡ ret (record {
        started = any_begin (all_fitted mtu ps);
        slots =
            slots_of (all_fitted mtu ps)
            ++ (slot_of (fitted mtu final).raw (fitted mtu final).size ∷ []);
        ended = some (to_int success);
      })
net_loop_forwards mtu ps final later h e = net_loop-forwards mtu false [] ps final later h e
