-- ===== src/Tests/DiodeRuns.antt =====
-- A run of `hgap_send` with all its threads, and one of `hgap_receive` with all of its, on what arrived.
use hairgap.Code.{to_int, success, err_file_read}
use hairgap.Config.{Config, check_config_sender, check_config_receiver}
use hairgap.Encoding.Encode.{
  encoder_new, chunk_init, chunk_emit, finish, small_payload, handwave, teardown,
}
use hairgap.Proto.{write_header, header_bytes, header_begin, header_end}
use hairgap.Wirehair.{feed}
use hairgap.Send.Reader.{Source, read_loop, read_chunk}
use hairgap.Send.Cutting.{IsStdio}
use hairgap.Send.Preparing.{encode_loop}
use hairgap.Send.Sender.{burst}
use hairgap.Send.Loop.{send_loop}
use hairgap.Send.Numbering.{offered}
use hairgap.Pipeline.Arrivals.{Arrival, copy}
use hairgap.Pipeline.Flight.{AllArrive}
use hairgap.Pipeline.Onward.{landed, onward}
use hairgap.Receive.Forwarding.{intake, intakes}
use hairgap.Session.{Returned, hgap_send}
use hairgap.Programs.Sender.{SendRun, send_run, send_returned, running, Serves}
use hairgap.Programs.Sent.{hgap_send_whole}
use hairgap.Programs.Received.{Received}
use hairgap.Programs.Diode.{hgap_transported}
use hairgap.Programs.Broken.{hgap_send_stops, hgap_transported_front}
use hairgap.Tests.Toy.{Toy, toy, toy-Recovers}
use hairgap.Tests.EncodingRuns.{Ratio, ratios}
use hairgap.Tests.ConfigRuns.{config, resolves}
use hairgap.Socket.{Sender}
use hairgap.Tests.SendRuns.{Input, reading, drained, left, stream, stream-IsStdio}
use hairgap.Tests.PipelineRuns.{junk, zeros, packet, control}
use hairgap.Prelude.{
  List, Option, [], arith, concat, from_be, inl, inr, length, length-replicate, load, none, refl,
  replicate, ret, some, store, to_be, ℕ, ◌++◌, ◌∷◌, ◌≡◌, ◌≤◌, ◌⊎◌,
}

-- Two packets of two bytes in a chunk.
abbrev tiny : Config ℕ Ratio
tiny = record config { n_pkt = 2; pkt_size = 26 }

tiny_accepted : check_config_sender resolves ratios tiny ≡ success
unfolding check_config_sender
tiny_accepted = refl

config_accepted : check_config_receiver resolves config ≡ success
unfolding check_config_receiver
config_accepted = refl

tiny-Serves : Serves toy ratios resolves tiny 6
tiny-Serves m h =
    let few : length m ≤ 4 = h in
    (
      record { fits = omega arith; works = λ _. (_, refl) },
      record {
        bound = 5;
        some_bound = omega arith;
        enough = omega arith;
        fits = omega arith;
        writes = λ reuse size e id made none_left. cc;
        positive = λ total. ground arith;
        reached = λ total e. ground arith;
      },
    )

abbrev message : List ℕ
message = 1 ∷ 2 ∷ 3 ∷ 4 ∷ 5 ∷ []

hgap_send_whole_example :
    (r : SendRun Input Toy) × (send_run toy ratios resolves stream tiny 6 6 (reading message)
      ≡ ret (some r))
    × (concat r.input.chunks ≡ message)
    × ((t : Returned) × (send_returned r ≡ some t)
        × (hgap_send resolves ratios tiny (running t) ≡ ret (to_int success)))
hgap_send_whole_example =
    hgap_send_whole toy ratios resolves tiny tiny_accepted 6 tiny-Serves toy-Recovers stream left
      stream-IsStdio (λ s. refl) (reading message) 6 (omega arith) (omega arith)

abbrev chunks : List (List ℕ)
chunks = (1 ∷ 2 ∷ 3 ∷ 4 ∷ []) ∷ (5 ∷ []) ∷ []

abbrev small_packet : ℕ → List ℕ
small_packet id =
    0 ∷ 0 ∷ 0 ∷ 0 ∷ 0 ∷ 0 ∷ 0 ∷ 1 ∷ 0 ∷ 0 ∷ 0 ∷ 0 ∷ 0 ∷ 0 ∷ 0 ∷ 1 ∷ 0 ∷ 0 ∷ 0 ∷ id ∷ 0 ∷ 0 ∷ 0 ∷ 1
    ∷ 5 ∷ []

abbrev run : SendRun Input Toy
run = record {
  input = record { source = drained; chunks = chunks; ended = some (to_int success) };
  prep = encode_loop toy (encoder_new 26) [] (offered chunks);
  output = record {
    announced = some (control 254);
    groups =
        (packet 0 4 0 (1 ∷ 2 ∷ []) ∷ packet 0 4 1 (3 ∷ 4 ∷ []) ∷ packet 0 4 2 (3 ∷ 4 ∷ []) ∷ [])
        ∷ (small_packet 0 ∷ small_packet 1 ∷ [])
        ∷ [];
    closed = some (control 255);
    ended = some (to_int success);
  };
}

ran : send_run toy ratios resolves stream tiny 6 6 (reading message) ≡ ret (some run)
unfolding send_run read_loop read_chunk send_loop chunk_init encode_loop burst chunk_emit finish
    small_payload handwave teardown write_header load store to_be header_bytes header_begin
    header_end
ran = refl

-- The last packet of the first chunk is lost, and one of the second.
abbrev arrivals : List (List Arrival)
arrivals =
    (copy (packet 0 4 0 (1 ∷ 2 ∷ [])) (9 ∷ []) ∷ copy (packet 0 4 1 (3 ∷ 4 ∷ [])) [] ∷ [])
    ∷ (copy (small_packet 0) (8 ∷ []) ∷ [])
    ∷ []

all_arrive : AllArrive toy (encoder_new 26) chunks run.output.groups arrivals
unfolding feed from_be
all_arrive = (
  (inl refl, (inr (inl refl), tt)),
  record { some_copy = λ _ e. cc; ready = λ _ reuse. (_, _, refl, refl) },
  ((inl refl, tt), record { some_copy = λ _ e. cc; ready = λ h. absurd (omega arith) }, tt),
)

hgap_transported_example :
    Received toy junk zeros resolves config 3 16777343
      (intakes (landed (copy (control 254) []) ∷ onward arrivals)
        ++ (intake (landed (copy (control 255) (3 ∷ []))) ∷ []))
      message
      (to_int success)
hgap_transported_example =
    hgap_transported toy ratios toy-Recovers junk zeros (λ n. length-replicate {0} {A = ℕ} n 0)
      resolves tiny tiny_accepted 6 tiny-Serves stream left stream-IsStdio (λ s. refl)
      (reading message) 6 (omega arith) (omega arith) run ran arrivals (control 254) (control 255)
      [] (3 ∷ []) refl refl all_arrive resolves config config_accepted (omega arith)
      ((tt, (tt, tt)), ((tt, tt), tt)) 3 16777343 (omega arith) []

-- The stream, breaking where it ended.
abbrev torn : Source
torn = record stream { failed = stream.at_end; at_end = stream.failed }

torn-IsStdio : IsStdio torn left
torn-IsStdio = record {
  front = stream-IsStdio.front;
  bounded = stream-IsStdio.bounded;
  short = λ s n h. elim (stream-IsStdio.short s n h) [ inl ended ↦ inr ended | inr bad ↦ inl bad ];
  spent = λ s e. absurd (cc e);
}

hgap_send_stops_example :
    (r : SendRun Input Toy) × (tail : List ℕ) × (t : Returned) × (send_run toy ratios resolves torn
        tiny 6 6
        (reading message)
      ≡ ret (some r))
    × (concat r.input.chunks ++ tail ≡ message)
    × (r.output.closed ≡ some (header_bytes header_end))
    × (send_returned r ≡ some t)
    × (((hgap_send resolves ratios tiny (running t) ≡ ret (to_int success)) × (tail ≡ []))
        ⊎ (hgap_send resolves ratios tiny (running t) ≡ ret (to_int err_file_read)))
hgap_send_stops_example =
    hgap_send_stops toy ratios resolves tiny tiny_accepted 6 tiny-Serves toy-Recovers torn left
      torn-IsStdio (reading message) 6 (omega arith) (omega arith)

abbrev torn_run : SendRun Input Toy
torn_run = record {
  input = record {
    source = drained;
    chunks = (1 ∷ 2 ∷ 3 ∷ 4 ∷ []) ∷ [];
    ended = some (to_int err_file_read);
  };
  prep = encode_loop toy (encoder_new 26) [] (offered ((1 ∷ 2 ∷ 3 ∷ 4 ∷ []) ∷ []));
  output = record {
    announced = some (control 254);
    groups =
        (packet 0 4 0 (1 ∷ 2 ∷ []) ∷ packet 0 4 1 (3 ∷ 4 ∷ []) ∷ packet 0 4 2 (3 ∷ 4 ∷ []) ∷ [])
        ∷ [];
    closed = some (control 255);
    ended = some (to_int success);
  };
}

torn_ran : send_run toy ratios resolves torn tiny 6 6 (reading message) ≡ ret (some torn_run)
unfolding send_run read_loop read_chunk send_loop chunk_init encode_loop burst chunk_emit finish
    small_payload handwave teardown write_header load store to_be header_bytes header_begin
    header_end
torn_ran = refl

abbrev torn_arrivals : List (List Arrival)
torn_arrivals =
    (copy (packet 0 4 0 (1 ∷ 2 ∷ [])) (9 ∷ []) ∷ copy (packet 0 4 1 (3 ∷ 4 ∷ [])) [] ∷ []) ∷ []

torn_arrive :
    AllArrive toy (encoder_new 26) ((1 ∷ 2 ∷ 3 ∷ 4 ∷ []) ∷ []) torn_run.output.groups torn_arrivals
unfolding feed from_be
torn_arrive = (
  (inl refl, (inr (inl refl), tt)),
  record { some_copy = λ _ e. cc; ready = λ _ reuse. (_, _, refl, refl) },
  tt,
)

hgap_transported_front_example :
    Received toy junk zeros resolves config 3 16777343
      (intakes (landed (copy (control 254) []) ∷ onward torn_arrivals)
        ++ (intake (landed (copy (control 255) (3 ∷ []))) ∷ []))
      (1 ∷ 2 ∷ 3 ∷ 4 ∷ [])
      (to_int success)
hgap_transported_front_example =
    hgap_transported_front toy ratios toy-Recovers junk zeros
      (λ n. length-replicate {0} {A = ℕ} n 0) resolves tiny tiny_accepted 6 tiny-Serves torn left
      torn-IsStdio (reading message) 6 (omega arith) (omega arith) torn_run torn_ran torn_arrivals
      (control 254) (control 255) [] (3 ∷ []) refl refl torn_arrive resolves config config_accepted
      (omega arith) ((tt, (tt, tt)), tt) 3 16777343 (omega arith) []

-- One of the data packets fails, and the last salve breaks off.
abbrev later : List (Option ℕ)
later = some 26 ∷ none ∷ replicate 5 (some 26) ++ (none ∷ replicate 30 (some 24))
