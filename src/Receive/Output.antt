-- ===== src/Receive/Output.antt =====
-- What the writer thread writes of the chunks that it is handed.
use hairgap.Wirehair.{Wirehair, Recovers}
use hairgap.Code.{to_int, success, err_bad_out_fd}
use hairgap.Proto.{Pkt, begin, end, pkt_type}
use hairgap.Encoding.Decode.{decoder_new}
use hairgap.Receive.Decloop.{Thread, loop}
use hairgap.Receive.Events.{arrival}
use hairgap.Receive.Transfer.{
  Delivery, IsDelivery, all_turns, messages, Renumbered, transfer_delivered,
}
use hairgap.Receive.Writer.{Round, closed, poisoned, chunk, write_loop}
use hairgap.Prelude.{
  concat, ltb, Bool-cases, tests, length, take, drop, take_all, take-append-drop, All, ret, ℕ, ◌≡◌,
  ◌≢◌, refl, sym, ap, ◌∙◌, inl, inr, false, none, some, List, [], ◌∷◌, ◌++◌, append-nil,
  append_assoc, arith,
}

-- The bytes handed over until the channel is closed or the poison comes.
abbrev pub received : List Round → List ℕ
received [] = []
received (closed ∷ rs) = []
received (poisoned ∷ rs) = []
received (chunk bytes n ∷ rs) = bytes ++ received rs

-- The rounds for chunks that are written whole, and the poison.
abbrev pub whole : List (List ℕ) → List Round
whole [] = poisoned ∷ []
whole (c ∷ cs) = chunk c (some (length c)) ∷ whole cs

write_loop-prefix :
    (out : List ℕ) (rs : List Round)
    → (rest : List ℕ) × ((write_loop out rs).out ++ rest ≡ out ++ received rs)
      × ((write_loop out rs).ended ≢ some (to_int err_bad_out_fd) → rest ≡ [])
unfolding write_loop
write_loop-prefix out [] = ([], refl, λ _. refl)
write_loop-prefix out (closed ∷ rs) = ([], refl, λ _. refl)
write_loop-prefix out (poisoned ∷ rs) = ([], refl, λ _. refl)
write_loop-prefix out (chunk bytes none ∷ rs) = (bytes ++ received rs, refl, λ ne. absurd (ne refl))
write_loop-prefix out (chunk bytes (some n) ∷ rs) = elim (Bool-cases (ltb n (length bytes))) [
  | inl short ↦ (
    drop n bytes ++ received rs,
    rw short (
        append_assoc out (take n bytes) (drop n bytes ++ received rs)
        ∙ ap (λ t. out ++ t)
            (sym (append_assoc (take n bytes) (drop n bytes) (received rs))
              ∙ ap (λ t. t ++ received rs) (take-append-drop n bytes))),
    rw short (λ ne. absurd (ne refl)),
  )
  | inr full ↦
      let (rest, eq, all) = write_loop-prefix (out ++ take n bytes) rs in
      (
        rest,
        rw full (
            eq
            ∙ append_assoc out (take n bytes) (received rs)
            ∙ ap (λ t. out ++ (t ++ received rs)) (take_all n bytes (omega (tests, full)))),
        rw full all,
      )
]

-- Whatever `write` returns, the output is a front of the chunks received, in order, without a gap;
-- and it is all of them unless the thread ends with HGAP_ERR_BAD_OUT_FD.
pub write_loop_cases :
    (rs : List Round)
    → (rest : List ℕ) × ((write_loop [] rs).out ++ rest ≡ received rs)
      × ((write_loop [] rs).ended ≢ some (to_int err_bad_out_fd) → rest ≡ [])
write_loop_cases rs = write_loop-prefix [] rs

pub write_loop-whole :
    (out : List ℕ) (cs : List (List ℕ))
    → write_loop out (whole cs) ≡ record { out = out ++ concat cs; ended = some (to_int success) }
unfolding write_loop
write_loop-whole out [] =
    ap (λ t. record { out = t; ended = some (to_int success) }) (sym (append-nil out))
write_loop-whole out (c ∷ cs) =
    let all = take_all (length c) c (omega arith) in
    let fits : ltb (length c) (length c) ≡ false = ground arith in
    rw (fits, all)
      (write_loop-whole (out ++ c) cs
        ∙ ap (λ t. record { out = t; ended = some (to_int success) })
            (append_assoc out c (concat cs)))

-- Behind a decoder thread that got enough of a transfer, a writer whose writes succeed puts out the
-- bytes of the chunks, joined in order, and both end with success.
pub transfer_written :
    (w : Wirehair) (junk : Pkt) (malloc : ℕ → List ℕ)
    → Recovers w
    → ((n : ℕ) → length (malloc n) ≡ n)
    → (ds : List Delivery) (beacon final : List ℕ) (beacon_size final_size : ℕ)
    → pkt_type beacon beacon_size ≡ begin
    → pkt_type final final_size ≡ end
    → Renumbered 0xffffffffffffffff ds
    → All (IsDelivery w) ds
    → (t : Thread w.State) × (loop w junk malloc decoder_new []
          (arrival beacon beacon_size ∷ (all_turns ds ++ (arrival final final_size ∷ [])))
        ≡ ret t)
      × (t.ended ≡ some (to_int success, false))
      × (write_loop [] (whole t.output)
          ≡ record { out = concat (messages ds); ended = some (to_int success) })
transfer_written w junk malloc law alloc ds beacon final bs fs hb hf new h =
    let (t, eq, out, ended) =
      transfer_delivered w junk malloc law alloc ds beacon final bs fs hb hf new h in
    (t, eq, ended, rw out (write_loop-whole [] (messages ds)))
