-- ===== src/Pipeline/Flight.antt =====
-- The packets of all chunks under way, and what the receiver makes of them.
use native.Mathlib.Decide.{ℕ_discrete}
use hairgap.Wirehair.{Wirehair}
use hairgap.Proto.{header_len, first_reserved, max_chunk_size}
use hairgap.Encoding.Encode.{Encoder}
use hairgap.Encoding.Emission.{parcel_of}
use hairgap.Encoding.Packet.{Parcel, IsParcel}
use hairgap.Receive.Decloop.{Turn}
use hairgap.Receive.Events.{Event, turns_of, IsEventOf}
use hairgap.Receive.Transfer.{last_num, Delivery, IsDelivery, all_turns, messages, Renumbered}
use hairgap.Send.Cutting.{IsCut}
use hairgap.Send.Numbering.{following}
use hairgap.Send.Groups.{AreSent}
use hairgap.Pipeline.Arrivals.{Arrival, turns, IsArrivalOf, Enough, arrived-Events}
use hairgap.Prelude.{
  Option, concat, append-nil, append_assoc, length, All, ℕ, ◌+◌, ◌^◌, ◌≤◌, ◌<◌, ◌≡◌, ◌≢◌, refl, sym,
  ap, ap₂, ◌∙◌, List, [], ◌∷◌, ◌++◌, arith,
}

-- The rounds of all chunks, one behind the other.
abbrev pub all_arrivals : List (List Arrival) → List Turn
all_arrivals [] = []
all_arrivals (x ∷ xs) = turns x ++ all_arrivals xs

length-eq-zero : (m : List ℕ) → length m ≡ 0 → m ≡ []
length-eq-zero [] e = refl
length-eq-zero (b ∷ m) e = absurd (omega arith)

-- Only the last chunk of a cut may have no bytes.
last-nil :
    (size : ℕ)
    → 0 < size
    → (m : List ℕ) (ms : List (List ℕ)) → IsCut size (m ∷ ms)
    → length m ≡ 0
    → ms ≡ []
last-nil size pos m [] cut e = refl
last-nil size pos m (n ∷ ms) cut e = absurd (omega (arith, cut.1 (λ q. cc), e, pos))

module _ (w : Wirehair) where
  -- Of each group some arrivals, and enough of them, before anything of the next group.
  abbrev pub AllArrive :
      Encoder → List (List ℕ) → List (List (List ℕ)) → List (List Arrival) → Type 0
  AllArrive enc [] [] [] = Unit
  AllArrive enc (m ∷ ms) (g ∷ gs) (x ∷ xs) =
      All (IsArrivalOf g) x × Enough w (parcel_of w enc m) x × AllArrive (following enc) ms gs xs
  AllArrive enc ms gs xs = ⊥

  arrivals-nil :
      (enc : Encoder) (ms : List (List ℕ)) (gs : List (List (List ℕ))) (xs : List (List Arrival))
      → ms ≡ []
      → AllArrive enc ms gs xs
      → all_arrivals xs ≡ []
  arrivals-nil enc [] [] [] e got = refl
  arrivals-nil enc [] [] (x ∷ xs) e got = absurd got
  arrivals-nil enc [] (g ∷ gs) xs e got = absurd got
  arrivals-nil enc (m ∷ ms) gs xs e got = cc e

  -- What comes behind the deliveries: nothing, or the packets of a last chunk without bytes.
  pub data Tail (num : ℕ) (ts : List Turn) : Type 0 where
    nothing : ts ≡ [] → Tail num ts
    hollow :
        (c : Parcel) (enc : Option w.State) (es : List Event)
        → ts ≡ turns_of c es
        → num ≢ c.num
        → IsParcel c
        → length c.message ≡ 0
        → All (IsEventOf w enc c) es
        → Tail num ts

  pub record Deliveries (num : ℕ) (ms : List (List ℕ)) (xs : List (List Arrival)) : Type 0 where
    pub deliveries : List Delivery
    pub rest : List Turn
    pub same_turns : all_turns deliveries ++ rest ≡ all_arrivals xs
    pub same_bytes : concat (messages deliveries) ≡ concat ms
    pub renumbered : Renumbered num deliveries
    pub genuine : All (IsDelivery w) deliveries
    pub tail : Tail (last_num num deliveries) rest

  module _ (size : ℕ) (some_size : 0 < size) where
    pub arrived-Deliveries :
        (num : ℕ) (enc : Encoder) (ms : List (List ℕ)) (gs : List (List (List ℕ)))
        (xs : List (List Arrival))
        → num ≢ enc.next_chunk_num
        → enc.next_chunk_num + length ms ≤ first_reserved
        → header_len < enc.pkt_size
        → enc.pkt_size < 2 ^ 32
        → IsCut size ms
        → All (λ m. length m ≤ max_chunk_size) ms
        → AreSent w enc ms gs
        → AllArrive enc ms gs xs
        → Deliveries num ms xs
    arrived-Deliveries num enc [] [] [] new few lo hi cut sizes sent got = record {
      deliveries = [];
      rest = [];
      same_turns = refl;
      same_bytes = refl;
      renumbered = tt;
      genuine = tt;
      tail = nothing refl;
    }
    arrived-Deliveries num enc (m ∷ ms) (g ∷ gs) (x ∷ xs) new few lo hi cut sizes sent got =
        let c = parcel_of w enc m in
        let v : IsParcel c = record {
          unreserved = omega (arith, few);
          size_fits = omega (arith, sizes.0);
          pay_fits = ground arith;
        } in
        let group = sent.0 in
        let e = arrived-Events w group.enc c g x v group.genuine got.0 in
        let more =
          arrived-Deliveries enc.next_chunk_num (following enc) ms gs xs (omega (arith, few))
            (omega (arith, few)) lo hi cut.2 sizes.1 sent.1 got.2 in
        elim (ℕ_discrete (length m) 0) [
          | yes empty ↦
              let last : ms ≡ [] = last-nil size some_size m ms cut empty in
              let none_left : all_arrivals xs ≡ [] =
                arrivals-nil (following enc) ms gs xs last got.2 in
              record {
                deliveries = [];
                rest = turns x ++ [];
                same_turns = ap (λ ts. turns x ++ ts) (sym none_left);
                same_bytes = sym (ap₂ ◌++◌ (length-eq-zero m empty) (ap concat last));
                renumbered = tt;
                genuine = tt;
                tail =
                    hollow c group.enc e.events (append-nil (turns x) ∙ sym e.same_turns) new v
                      empty e.genuine;
              }
          | no full ↦ record {
            deliveries = record { parcel = c; events = e.events } ∷ more.deliveries;
            rest = more.rest;
            same_turns =
                append_assoc (turns_of c e.events) (all_turns more.deliveries) more.rest
                ∙ ap₂ ◌++◌ e.same_turns more.same_turns;
            same_bytes = ap (λ t. m ++ t) more.same_bytes;
            renumbered = (new, more.renumbered);
            genuine = (
              record {
                parcel = v;
                bounded = sizes.0;
                nonempty = omega (arith, full);
                enc = group.enc;
                encoded = group.encoded;
                pieces = e.genuine;
                some_piece = rw e.same_blocks (got.1.some_copy (omega (arith, full)));
                ready = rw e.same_blocks got.1.ready;
              },
              more.genuine,
            );
            tail = more.tail;
          }
        ]
    arrived-Deliveries num enc [] [] (x ∷ xs) new few lo hi cut sizes sent got = absurd got
    arrived-Deliveries num enc [] (g ∷ gs) xs new few lo hi cut sizes sent got = absurd sent
    arrived-Deliveries num enc (m ∷ ms) [] xs new few lo hi cut sizes sent got = absurd sent
    arrived-Deliveries num enc (m ∷ ms) (g ∷ gs) [] new few lo hi cut sizes sent got = absurd got
