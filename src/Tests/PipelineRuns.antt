-- ===== src/Tests/PipelineRuns.antt =====
-- A transfer from end to end, with packets lost, repeated and out of order.
use hairgap.Code.{to_int, success}
use hairgap.Proto.{Pkt, zero_header, header_bytes, header_begin, header_end}
use hairgap.Encoding.Encode.{encoder_new}
use hairgap.Send.Loop.{send_loop}
use hairgap.Send.Groups.{supplied, AreSent, CanSend}
use hairgap.Send.Sending.{send_loop_whole}
use hairgap.Send.Numbering.{AreEncoded, encode_loop_whole}
use hairgap.Pipeline.Transport.{prepared, CanTransmit}
use hairgap.Tests.Toy.{toy, toy-Recovers}
use hairgap.Tests.EncodingRuns.{Ratio, over, ratios}
use hairgap.Prelude.{replicate, ret, ℕ, ◌≡◌, refl, true, ap, some, List, [], ◌∷◌, arith}

abbrev pub junk : Pkt
junk = record { hdr = zero_header; payload = [] }

abbrev pub zeros : ℕ → List ℕ
zeros n = replicate n 0

abbrev redund : Ratio
redund = over 12 10

abbrev pub packet : ℕ → ℕ → ℕ → List ℕ → List ℕ
packet num size id body =
    0 ∷ 0 ∷ 0 ∷ 0 ∷ 0 ∷ 0 ∷ 0 ∷ num ∷ 0 ∷ 0 ∷ 0 ∷ 0 ∷ 0 ∷ 0 ∷ 0 ∷ size ∷ 0 ∷ 0 ∷ 0 ∷ id ∷ 0 ∷ 0 ∷ 0
    ∷ 2 ∷ body

abbrev pub control : ℕ → List ℕ
control last =
    255 ∷ 255 ∷ 255 ∷ 255 ∷ 255 ∷ 255 ∷ 255 ∷ last ∷ 0 ∷ 0 ∷ 0 ∷ 0 ∷ 0 ∷ 0 ∷ 0 ∷ 0 ∷ 0 ∷ 0 ∷ 0 ∷ 0
    ∷ 0 ∷ 0 ∷ 0 ∷ 0 ∷ []

abbrev chunks : List (List ℕ)
chunks = (1 ∷ 2 ∷ 3 ∷ 4 ∷ 5 ∷ []) ∷ (6 ∷ 7 ∷ []) ∷ []

five-CanSend : CanSend toy ratios 9 26 redund (1 ∷ 2 ∷ 3 ∷ 4 ∷ 5 ∷ [])
five-CanSend = record {
  bound = 6;
  some_bound = omega arith;
  enough = omega arith;
  fits = omega arith;
  writes = λ reuse size e id made none_left. cc;
  positive = λ total. ground arith;
  reached = λ total h. ground arith;
}

two-CanSend : CanSend toy ratios 9 26 redund (6 ∷ 7 ∷ [])
two-CanSend = record {
  bound = 3;
  some_bound = omega arith;
  enough = omega arith;
  fits = omega arith;
  writes = λ reuse size e id made none_left. cc;
  positive = λ total. ground arith;
  reached = λ total h. ground arith;
}

can : CanTransmit toy ratios 9 26 redund chunks
can = record {
  holds_header = omega arith;
  size_fits = omega arith;
  numbered = omega arith;
  sized = omega arith;
  encodes = (
    record { fits = omega arith; works = λ _. (_, refl) },
    (record { fits = omega arith; works = λ _. (_, refl) }, tt),
  );
  sends = (five-CanSend, (two-CanSend, tt));
}

chunks_encoded : AreEncoded toy (encoder_new 26) chunks (prepared toy 26 chunks)
chunks_encoded =
    let (enc', cs, made, encoded) =
      encode_loop_whole toy (encoder_new 26) chunks can.holds_header can.size_fits can.encodes in
    rw (ap (λ r. r.chunks) made) encoded

send_loop_whole_example :
    (out : List (List (List ℕ))) × (send_loop toy ratios 9 26 redund
        (record { opened = true; heard = true })
        (supplied (prepared toy 26 chunks))
      ≡ ret (
          some (record {
            announced = some (header_bytes header_begin);
            groups = out;
            closed = some (header_bytes header_end);
            ended = some (to_int success);
          })))
    × AreSent toy (encoder_new 26) chunks out
send_loop_whole_example =
    send_loop_whole toy ratios toy-Recovers 9 redund (encoder_new 26) chunks
      (prepared toy 26 chunks) (omega arith) chunks_encoded can.sends
