-- ===== src/Tests/TransferRuns.antt =====
-- A transfer of two chunks, with a packet that comes twice and a keepalive between.
use hairgap.Wirehair.{Wirehair, feed}
use hairgap.Code.{to_int, success, err_bad_out_fd}
use hairgap.Proto.{
  Pkt, zero_header, header_bytes, header_begin, header_end, header_keepalive, pkt_type, begin, end,
  keepalive,
}
use hairgap.Encoding.Decode.{t_started, decoder_new}
use hairgap.Encoding.Packet.{wire, wire_size, Piece}
use hairgap.Encoding.Delivery.{IsPieceOf}
use hairgap.Receive.Decloop.{Thread, loop}
use hairgap.Receive.Events.{turns_of, Event, piece, noise, arrival}
use hairgap.Receive.Transfer.{Delivery, IsDelivery, all_turns, transfer_delivered}
use hairgap.Receive.Writer.{chunk, poisoned, write_loop}
use hairgap.Receive.Output.{write_loop_cases}
use hairgap.Receive.Truncated.{IsUnfinished, refused_unreported}
use hairgap.Tests.Toy.{Toy, coder, toy, toy-Recovers}
use hairgap.Prelude.{
  ◌≢◌, length, take, drop, replicate, length-replicate, ret, to_be, from_be, ℕ, ◌*◌, ◌^◌, ◌≤◌, ◌<◌,
  ◌≡◌, refl, ap, inl, false, none, some, List, [], ◌∷◌, ◌++◌, arith,
}

abbrev pub junk : Pkt
junk = record { hdr = zero_header; payload = [] }

abbrev pub zeros : ℕ → List ℕ
zeros n = replicate n 0

-- Five bytes in blocks of two, whose last one is half stale.
abbrev pub large : Delivery
large = record {
  parcel = record { num = 0; message = 1 ∷ 2 ∷ 3 ∷ 4 ∷ 5 ∷ []; pay = 2 };
  events =
      piece (record { id = 0; body = 1 ∷ 2 ∷ []; stale = [] })
      ∷ piece (record { id = 0; body = 1 ∷ 2 ∷ []; stale = 7 ∷ [] })
      ∷ noise (header_bytes header_keepalive) 24
      ∷ piece (record { id = 1; body = 3 ∷ 4 ∷ []; stale = [] })
      ∷ piece (record { id = 2; body = 5 ∷ 4 ∷ []; stale = [] })
      ∷ [];
}

abbrev pub small : Delivery
small = record {
  parcel = record { num = 1; message = 6 ∷ 7 ∷ []; pay = 2 };
  events = piece (record { id = 0; body = 6 ∷ 7 ∷ []; stale = 9 ∷ [] }) ∷ [];
}

keepalive_type : pkt_type (header_bytes header_keepalive) 24 ≡ keepalive
unfolding header_bytes to_be from_be pkt_type header_keepalive
keepalive_type = refl

pub beacon_type : pkt_type (header_bytes header_begin) 24 ≡ begin
unfolding header_bytes to_be from_be pkt_type header_begin
beacon_type = refl

pub end_type : pkt_type (header_bytes header_end) 24 ≡ end
unfolding header_bytes to_be from_be pkt_type header_end
end_type = refl

abbrev five : List ℕ
five = 1 ∷ 2 ∷ 3 ∷ 4 ∷ 5 ∷ []

-- A piece of the large chunk that starts with what the encoder writes under its id.
large-IsPieceOf :
    (p : Piece) (written : List ℕ)
    → p.id < 2 ^ 32
    → length p.body ≡ 2
    → take 2 (drop (p.id * 2) five) ≡ written
    → length written ≤ 2
    → take (length written) p.body ≡ written
    → IsPieceOf toy (some (coder five 2)) large.parcel p
large-IsPieceOf p written h size e fits front = record {
  id_fits = h;
  body_size = size;
  small = λ h. absurd (omega arith);
  large = λ _. record {
    written = written;
    write_lem = ap some e;
    fits = fits;
    whole = size;
    front = front;
  };
}

large-IsDelivery : IsDelivery toy large
unfolding feed
large-IsDelivery = record {
  parcel = omega arith;
  bounded = omega arith;
  nonempty = omega arith;
  enc = some (coder five 2);
  encoded = λ _. (none, _, refl, refl);
  pieces = (
    large-IsPieceOf _ (1 ∷ 2 ∷ []) (omega arith) refl refl (omega arith) refl,
    (
      large-IsPieceOf _ (1 ∷ 2 ∷ []) (omega arith) refl refl (omega arith) refl,
      (
        (λ e. cc (keepalive_type, e), λ e. cc (keepalive_type, e)),
        (
          large-IsPieceOf _ (3 ∷ 4 ∷ []) (omega arith) refl refl (omega arith) refl,
          (large-IsPieceOf _ (5 ∷ []) (omega arith) refl refl (omega arith) refl, tt),
        ),
      ),
    ),
  );
  some_piece = λ e. cc;
  ready = λ _ reuse. (_, _, refl, refl);
}

pub small-IsDelivery : IsDelivery toy small
small-IsDelivery = record {
  parcel = omega arith;
  bounded = omega arith;
  nonempty = omega arith;
  enc = none;
  encoded = λ h. absurd (omega arith);
  pieces = (
    record {
      id_fits = omega arith;
      body_size = refl;
      small = λ _. refl;
      large = λ h. absurd (omega arith);
    },
    tt,
  );
  some_piece = λ e. cc;
  ready = λ h. absurd (omega arith);
}

transfer_delivered_example :
    (t : Thread Toy) × (loop toy junk zeros decoder_new [] (
        arrival (header_bytes header_begin) 24
        ∷ (all_turns (large ∷ small ∷ []) ++ (arrival (header_bytes header_end) 24 ∷ [])))
      ≡ ret t)
    × (t.output ≡ (1 ∷ 2 ∷ 3 ∷ 4 ∷ 5 ∷ []) ∷ (6 ∷ 7 ∷ []) ∷ [])
    × (t.ended ≡ some (to_int success, false))
transfer_delivered_example =
    transfer_delivered toy junk zeros toy-Recovers (λ n. length-replicate {0} {A = ℕ} n 0)
      (large ∷ small ∷ []) (header_bytes header_begin) (header_bytes header_end) 24 24 beacon_type
      end_type (omega arith) (large-IsDelivery, (small-IsDelivery, tt))

-- The large chunk without its last block.
abbrev pub cut : List Event
cut =
    piece (record { id = 0; body = 1 ∷ 2 ∷ []; stale = [] })
    ∷ piece (record { id = 1; body = 3 ∷ 4 ∷ []; stale = [] })
    ∷ []

pub cut-IsUnfinished : IsUnfinished toy large.parcel cut
unfolding feed
cut-IsUnfinished = record {
  parcel = omega arith;
  bounded = omega arith;
  big = omega arith;
  enc = some (coder five 2);
  pieces = (
    large-IsPieceOf _ (1 ∷ 2 ∷ []) (omega arith) refl refl (omega arith) refl,
    (large-IsPieceOf _ (3 ∷ 4 ∷ []) (omega arith) refl refl (omega arith) refl, tt),
  );
  starved = λ reuse. (_, refl, refl);
}

abbrev refusing : Wirehair
refusing = record toy { decode = λ _ _ _. none }

refused_unreported_example :
    (t : Thread Toy) × (loop refusing junk zeros
        (record decoder_new { phase = t_started })
        []
        (arrival
            (wire large.parcel (record { id = 0; body = 1 ∷ 2 ∷ []; stale = [] }))
            (wire_size large.parcel)
          ∷ turns_of small.parcel small.events)
      ≡ ret t)
    × (t.output ≡ [])
    × (t.ended ≡ some (to_int success, false))
refused_unreported_example =
    refused_unreported refusing junk zeros (λ n. length-replicate {0} {A = ℕ} n 0) large.parcel
      (record { id = 0; body = 1 ∷ 2 ∷ []; stale = [] }) (record decoder_new { phase = t_started })
      [] (turns_of small.parcel small.events) (omega arith) (omega arith) (omega arith)
      (omega arith) (record { complete = refl; other = omega arith }) (inl refl) refl

-- The third write is short.
write_loop_cases_example :
    (rest : List ℕ) × ((write_loop [] (
          chunk five (some 5)
          ∷ chunk (6 ∷ []) (some 1)
          ∷ chunk (7 ∷ 8 ∷ []) (some 1)
          ∷ poisoned
          ∷ [])).out
        ++ rest
      ≡ 1 ∷ 2 ∷ 3 ∷ 4 ∷ 5 ∷ 6 ∷ 7 ∷ 8 ∷ [])
    × ((write_loop [] (
            chunk five (some 5)
            ∷ chunk (6 ∷ []) (some 1)
            ∷ chunk (7 ∷ 8 ∷ []) (some 1)
            ∷ poisoned
            ∷ [])).ended
          ≢ some (to_int err_bad_out_fd)
        → rest ≡ [])
write_loop_cases_example =
    write_loop_cases
      (chunk five (some 5) ∷ chunk (6 ∷ []) (some 1) ∷ chunk (7 ∷ 8 ∷ []) (some 1) ∷ poisoned ∷ [])
