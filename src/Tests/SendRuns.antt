-- ===== src/Tests/SendRuns.antt =====
-- Runs of src/lib/hgap_send.c.
use hairgap.Wirehair.{Wirehair, Block, IsBlockOf, feed, Recovers}
use hairgap.Code.{to_int, success}
use hairgap.Send.Reader.{Source, read_loop}
use hairgap.Send.Cutting.{IsCut, IsStdio, granted, read_loop_whole}
use hairgap.Encoding.{Chunk}
use hairgap.Encoding.Encode.{Encoder}
use hairgap.Encoding.Emission.{parcel_of}
use hairgap.Send.Preparing.{encode_loop}
use hairgap.Send.Numbering.{offered, AreEncoded, encode_loop_whole}
use hairgap.Send.Sender.{Burst, burst}
use hairgap.Send.Groups.{IsPacketOf}
use hairgap.Send.Bursts.{burst_stuck, burst_ends}
use hairgap.Tests.Toy.{Toy, coder, toy, toy-Recovers}
use hairgap.Tests.EncodingRuns.{Ratio, ratios, over, five, enc, ready, ready-IsEncoded, buffer}
use hairgap.Prelude.{
  concat, All, none, Option, ◌≢◌, ltb, Bool-cases, if◌then◌else◌, length, take, drop,
  take-append-drop, length-take, append-nil, ret, ℕ, ◌≤◌, ◌⊎◌, ◌<◌, ◌≡◌, refl, inl, inr, Bool, true,
  false, some, List, [], ◌∷◌, ◌++◌, arith,
}

-- A stream in memory: its end shows once a read asked for more than there was.
pub data Input : Type 0 where
  reading : List ℕ → Input
  drained : Input

abbrev pub left : Input → List ℕ
left (reading xs) = xs
left drained = []

abbrev input_read : Input → ℕ → Input × List ℕ
input_read (reading xs) n =
    if ltb (length xs) n then (drained, xs) else (reading (drop n xs), take n xs)
input_read drained n = (drained, [])

abbrev is_over : Input → Bool
is_over (reading xs) = false
is_over drained = true

abbrev pub stream : Source
stream = record { State = Input; fread = input_read; failed = λ _. false; at_end = is_over }

pub stream-IsStdio : IsStdio stream left
stream-IsStdio = record { front = front; bounded = bounded; short = short; spent = spent }
  where
    front : (s : Input) (n : ℕ) → (input_read s n).1 ++ left (input_read s n).0 ≡ left s
    front (reading xs) n = elim (Bool-cases (ltb (length xs) n)) [
      | inl h ↦ rw h (append-nil xs)
      | inr h ↦ rw h (take-append-drop n xs)
    ]
    front drained n = refl

    bounded : (s : Input) (n : ℕ) → length (input_read s n).1 ≤ n
    bounded (reading xs) n = ground (arith, length-take n xs)
    bounded drained n = omega arith

    short :
        (s : Input) (n : ℕ)
        → length (input_read s n).1 < n
        → (is_over (input_read s n).0 ≡ true) ⊎ (◌≡◌ {A = Bool} false true)
    short (reading xs) n h = inl (ground (arith, length-take n xs))
    short drained n h = inl refl

    spent : (s : Input) → is_over s ≡ true → left s ≡ []
    spent (reading xs) e = cc
    spent drained e = refl

read_loop_whole_example :
    (s' : Input) × (chunks : List (List ℕ)) × (read_loop stream 2
        (reading (1 ∷ 2 ∷ 3 ∷ []))
        []
        (granted 4)
      ≡ some (ret (record { source = s'; chunks = chunks; ended = some (to_int success) })))
    × (concat chunks ≡ 1 ∷ 2 ∷ 3 ∷ [])
    × IsCut 2 chunks
read_loop_whole_example =
    read_loop_whole stream left stream-IsStdio (λ s. refl) 2 (omega arith) (omega arith) 4
      (reading (1 ∷ 2 ∷ 3 ∷ [])) (omega arith)

abbrev asked : Ratio
asked = over 12 10

encode_loop_whole_example :
    (enc' : Encoder) × (chunks : List (Chunk Toy)) × (encode_loop toy enc []
        (offered (five ∷ (6 ∷ []) ∷ []))
      ≡ record { enc = enc'; chunks = chunks; ended = some (to_int success) })
    × AreEncoded toy enc (five ∷ (6 ∷ []) ∷ []) chunks
encode_loop_whole_example =
    encode_loop_whole toy enc (five ∷ (6 ∷ []) ∷ []) (omega arith) (omega arith) (
      record { fits = omega arith; works = λ _. (_, refl) },
      (record { fits = omega arith; works = λ _. (_, refl) }, tt),
    )

-- A redundancy of 1.2 for five bytes is reached with six.
burst_ends_example :
    (b : Burst Toy) × (more : List (List ℕ)) × (burst toy ratios 6 26 asked ready buffer [] false
      ≡ ret (some b))
    × (b.failed ≡ false)
    × (b.sent ≡ more)
    × (more ≢ [])
    × All (IsPacketOf toy (some (coder five 2)) (parcel_of toy enc five)) more
    × (length b.pkt ≡ 30)
burst_ends_example =
    burst_ends toy ratios {c = parcel_of toy enc five} toy-Recovers asked 26 6 (some (coder five 2))
      6 buffer [] (λ id h e. cc) (λ t. ground arith) (λ t h. ground arith) (omega arith)
      (omega arith) (omega arith) (omega arith) refl ready-IsEncoded (omega arith)

-- A wirehair that encodes and writes nothing.
abbrev mute : Wirehair
mute = record toy { write = λ _ _. none }

silent :
    (enc : Option Toy) (size : ℕ) (d d' : Toy) (message : List ℕ) (blocks : List Block)
    → All (IsBlockOf mute enc size) blocks
    → feed mute d blocks ≡ some d'
    → toy.reconstruct (some d') ≡ some message
unfolding feed
silent enc size d d' message [] h fed = cc
silent enc size d d' message (b ∷ bs) h fed = cc h.0.write_lem

mute-Recovers : Recovers mute
mute-Recovers = record {
  write_fits = λ reuse message size id made h. absurd (cc h);
  recovers = λ reuse reuse' message size {e} {d} {d'} blocks made made' h fed.
      silent (some e) size d d' message blocks h fed;
}

burst_stuck_example : burst mute ratios 9 26 asked ready buffer [] false ≡ ret none
burst_stuck_example =
    burst_stuck mute ratios {c = parcel_of mute enc five} mute-Recovers asked 26 9 buffer [] false
      (λ s id. refl) refl refl (omega arith)
      (record {
        num = refl;
        len = refl;
        size = refl;
        held = refl;
        pay_fits = omega arith;
        small = λ h. absurd (omega arith);
        large = λ _. (none, coder five 2, refl, refl);
      })
      (omega arith)
