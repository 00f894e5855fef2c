-- ===== src/Tests/EncodingRuns.antt =====
-- Runs of src/lib/encoding.c.
use hairgap.Wirehair.{Floating}
use hairgap.Code.{success}
use hairgap.Encoding.Signals.{Signals, control_packets}
use hairgap.Proto.{begin, end, Pkt, zero_header, data_pkt, read_header, pkt_parse, pkt_type}
use hairgap.Encoding.{Chunk, chunk_new}
use hairgap.Encoding.Encode.{handwave, teardown, Encoder, Emitted, chunk_init, chunk_emit}
use hairgap.Encoding.Decode.{t_started, Decoder, decoder_new, decoder_read}
use hairgap.Encoding.Emission.{IsEncoded, parcel_of, chunk_init-IsEncoded}
use hairgap.Encoding.Written.{Wrote, Failed}
use hairgap.Encoding.Emit.{chunk_emit_cases}
use hairgap.Encoding.Safe.{Reads, new-IsSafe, phase-IsSafe}
use hairgap.Encoding.Safety.{decoder_read-Reads, short_packet_faults}
use hairgap.Tests.Toy.{Toy, coder, toy, toy-Recovers}
use hairgap.Prelude.{
  length, ltb, if◌then◌else◌, ◌==◌, ◌+◌, ◌-◌, replicate, ret, fault, from_be, ℕ, ◌*◌, ◌≡◌, refl,
  ◌⊎◌, inl, Bool, true, false, some, none, List, [], ◌∷◌, arith,
}

-- Numbers for the redundancy: `-1`, or a ratio.
pub data Ratio : Type 0 where
  minus : Ratio
  over : ℕ → ℕ → Ratio

abbrev ratio_divide : Ratio → Ratio → Ratio
ratio_divide (over a b) (over c d) = over (a * d) (b * c)
ratio_divide x y = minus

abbrev ratio_less : Ratio → Ratio → Bool
ratio_less x minus = false
ratio_less minus (over c d) = true
ratio_less (over a b) (over c d) = ltb (a * d) (c * b)

abbrev ratio_add : Ratio → Ratio → Ratio
ratio_add (over a b) (over c d) = over (a * d + c * b) (b * d)
ratio_add x y = minus

abbrev ratio_subtract : Ratio → Ratio → Ratio
ratio_subtract (over a b) (over c d) =
    if ltb (a * d) (c * b) then minus else over (a * d - c * b) (b * d)
ratio_subtract x y = minus

abbrev ratio_multiply : Ratio → Ratio → Ratio
ratio_multiply (over a b) (over c d) = over (a * c) (b * d)
ratio_multiply x y = minus

abbrev ratio_equal : Ratio → Ratio → Bool
ratio_equal minus minus = true
ratio_equal (over a b) (over c d) = a * d == c * b
ratio_equal x y = false

abbrev pub ratios : Floating
ratios = record {
  Double = Ratio;
  of_size = λ n. over n 1;
  divide = ratio_divide;
  add = ratio_add;
  subtract = ratio_subtract;
  multiply = ratio_multiply;
  less = ratio_less;
  equal = ratio_equal;
  million = over 1000000 1;
  minus_one = minus;
  zero_double = over 0 1;
  one_double = over 1 1;
}

abbrev pub five : List ℕ
five = 1 ∷ 2 ∷ 3 ∷ 4 ∷ 5 ∷ []

-- Packets of two bytes behind the header.
abbrev pub enc : Encoder
enc = record { pkt_size = 26; next_chunk_num = 7 }

abbrev pub ready : Chunk Toy
ready = record {
  num = 7;
  len = 5;
  pkt_size = 26;
  next_pkt_id = 0;
  wh_state = some (coder five 2);
  content = some five;
  total_gen = 0;
}

init_run :
    chunk_init toy enc chunk_new five
    ≡ (record { pkt_size = 26; next_chunk_num = 8 }, ready, success)
unfolding chunk_init
init_run = refl

-- A chunk that was used before.
abbrev used : Chunk Toy
used = record ready { num = 3; next_pkt_id = 4; total_gen = 9 }

used_again : (chunk_init toy enc used five).2 ≡ success
unfolding chunk_init
used_again = refl

chunk_init-IsEncoded_example :
    ((chunk_init toy enc used five).0 ≡ record { pkt_size = 26; next_chunk_num = 8 })
    × IsEncoded toy (parcel_of toy enc five) (chunk_init toy enc used five).1
    × ((chunk_init toy enc used five).1.next_pkt_id ≡ 0)
    × ((chunk_init toy enc used five).1.total_gen ≡ 9)
chunk_init-IsEncoded_example =
    chunk_init-IsEncoded toy enc used five (omega arith) (omega arith) (omega arith) used_again

pub ready-IsEncoded : IsEncoded toy (parcel_of toy enc five) ready
ready-IsEncoded = record {
  num = refl;
  len = refl;
  size = refl;
  held = refl;
  pay_fits = omega arith;
  small = λ h. absurd (omega arith);
  large = λ _. (none, coder five 2, refl, refl);
}

abbrev pub buffer : List ℕ
buffer = replicate 30 9

chunk_emit_cases_example :
    (r : Emitted Toy Ratio) × (chunk_emit toy ratios ready buffer 30 ≡ ret r)
    × IsEncoded toy (parcel_of toy enc five) r.chunk
    × (r.chunk.next_pkt_id ≡ 1)
    × (r.chunk.wh_state ≡ ready.wh_state)
    × (length r.pkt ≡ 30)
    × (Wrote toy ratios (parcel_of toy enc five) ready r
        ⊎ Failed toy ratios (parcel_of toy enc five) ready buffer r)
chunk_emit_cases_example =
    chunk_emit_cases toy ratios ready-IsEncoded buffer (omega arith) toy-Recovers 30

abbrev junk : Pkt
junk = record { hdr = zero_header; payload = [] }

-- A packet of a chunk of five bytes, with two of them.
abbrev raw : List ℕ
raw =
    0 ∷ 0 ∷ 0 ∷ 0 ∷ 0 ∷ 0 ∷ 1 ∷ 2 ∷ 0 ∷ 0 ∷ 0 ∷ 0 ∷ 0 ∷ 0 ∷ 0 ∷ 5 ∷ 0 ∷ 0 ∷ 0 ∷ 0 ∷ 0 ∷ 0 ∷ 0 ∷ 2
    ∷ 9 ∷ 8 ∷ []

abbrev started : Decoder Toy
started = record decoder_new { phase = t_started }

raw_parses : (pkt_parse junk raw 26).1 ≡ success
unfolding pkt_parse from_be
raw_parses = refl

decoder_read-Reads_example : Reads toy 26 (decoder_read toy junk started raw 26)
decoder_read-Reads_example =
    decoder_read-Reads toy junk raw 26
      (phase-IsSafe toy t_started (new-IsSafe toy 26 (omega arith))) (omega arith) refl
      (omega arith) raw_parses

-- A packet that announces three bytes and brings two.
abbrev short : List ℕ
short =
    0 ∷ 0 ∷ 0 ∷ 0 ∷ 0 ∷ 0 ∷ 1 ∷ 2 ∷ 0 ∷ 0 ∷ 0 ∷ 0 ∷ 0 ∷ 0 ∷ 0 ∷ 3 ∷ 0 ∷ 0 ∷ 0 ∷ 0 ∷ 0 ∷ 0 ∷ 0 ∷ 3
    ∷ 9 ∷ 8 ∷ []

short_type : pkt_type short 26 ≡ data_pkt
unfolding pkt_type from_be
short_type = refl

short_num : (read_header short).chunk_num ≡ 258
unfolding from_be
short_num = refl

short_size : (read_header short).chunk_size ≡ 3
unfolding from_be
short_size = refl

short_data : (read_header short).data_size ≡ 3
unfolding from_be
short_data = refl

short_packet_faults_example : decoder_read toy junk started short 26 ≡ fault
short_packet_faults_example =
    short_packet_faults toy junk started short 26 (omega arith) (omega arith) (omega arith)
      (inl refl) refl short_type (omega (arith, short_num)) (omega (arith, short_size))
      (omega (arith, short_size, short_data)) (omega (arith, short_size))

control_packets_example :
    Signals begin buffer 30 (handwave buffer 30) × Signals end buffer 30 (teardown buffer 30)
control_packets_example = control_packets buffer 30 (omega arith)
