-- ===== src/Send/Cutting.antt =====
-- How the reader thread cuts the input.
use native.Mathlib.Decide.{ℕ_discrete}
use hairgap.Code.{to_int, success}
use hairgap.Send.Reader.{Source, Grant, read_chunk_loop, read_chunk, read_loop}
use hairgap.Prelude.{
  All, concat, ◌==◌, Bool-cases, tests, length, length-append, replicate, ret, ℕ, zero, suc, ◌^◌,
  ◌≤◌, ◌<◌, ◌≡◌, refl, sym, ap, ◌∙◌, ◌≢◌, ◌⊎◌, inl, inr, sub64, ◌-◌, true, false, some, List, [],
  ◌∷◌, ◌++◌, append-nil, append_assoc, arith,
}

-- Chunks of at most `size` bytes, all but the last one full.
abbrev pub IsCut : ℕ → List (List ℕ) → Type 0
IsCut size [] = Unit
IsCut size (c ∷ cs) = (length c ≤ size) × (cs ≢ [] → length c ≡ size) × IsCut size cs

-- The documented behaviour of stdio, for a stream that still holds the bytes `rest`: `fread` takes
-- bytes off the front, at most as many as were asked for; when it returns fewer, the end of the file
-- or an error shows; and at the end of the file nothing is left.
pub record IsStdio (src : Source) (rest : src.State → List ℕ) : Type 0 where
  pub front : (s : src.State) (n : ℕ) → (src.fread s n).1 ++ rest (src.fread s n).0 ≡ rest s
  pub bounded : (s : src.State) (n : ℕ) → length (src.fread s n).1 ≤ n
  pub short :
      (s : src.State) (n : ℕ)
      → length (src.fread s n).1 < n
      → (src.at_end (src.fread s n).0 ≡ true) ⊎ (src.failed (src.fread s n).0 ≡ true)
  pub spent : (s : src.State) → src.at_end s ≡ true → rest s ≡ []

-- What one call of `read_chunk` leaves, from the stream `s`.
pub record IsChunk (src : Source) (rest : src.State → List ℕ) (s s' : src.State) (size : ℕ)
    (got : List ℕ) : Type 0 where
  pub front : got ++ rest s' ≡ rest s
  pub bounded : length got ≤ size
  pub short : length got < size → (src.at_end s' ≡ true) ⊎ (src.failed s' ≡ true)

-- What holds of every chunk that fits holds of all chunks of a cut.
pub IsCut-All :
    (P : List ℕ → Type 0) (size : ℕ) (cs : List (List ℕ))
    → IsCut size cs
    → ((c : List ℕ) → length c ≤ size → P c)
    → All P cs
IsCut-All P size [] cut h = tt
IsCut-All P size (c ∷ cs) cut h = (h c cut.0, IsCut-All P size cs cut.2 h)

-- There are at most as many chunks as bytes, and one more for a last chunk without bytes.
pub IsCut-length :
    (size : ℕ) (cs : List (List ℕ))
    → 0 < size
    → IsCut size cs
    → length cs ≤ suc (length (concat cs))
IsCut-length size [] pos cut = omega arith
IsCut-length size (c ∷ []) pos cut = omega arith
IsCut-length size (c ∷ (d ∷ cs)) pos cut =
    let more = IsCut-length size (d ∷ cs) pos cut.2 in
    omega (arith, more, cut.1 (λ e. cc), pos, length-append c (concat (d ∷ cs)))

nil-by_length : (xs : List ℕ) → (length xs == 0) ≡ true → xs ≡ []
nil-by_length [] h = refl
nil-by_length (x ∷ xs) h = absurd (omega (tests, h))

-- A channel that takes `n` chunks.
abbrev pub granted : ℕ → List Grant
granted n = replicate n (record { reserved = true; sent = true })

module _ (src : Source) (rest : src.State → List ℕ) (io : IsStdio src rest) where
  open src use {State, fread, failed, at_end}

  read_chunk_loop_lem :
      (fuel : ℕ) (s : State) (n : ℕ) (buf : List ℕ)
      → n < fuel
      → n < 2 ^ 64
      → (s' : State) × (got : List ℕ) × (read_chunk_loop src fuel s n buf ≡ some (s', buf ++ got))
        × IsChunk src rest s s' n got
  unfolding read_chunk_loop
  read_chunk_loop_lem zero s n buf h w = absurd (omega arith)
  read_chunk_loop_lem (suc fuel) s n buf h w = elim (Bool-cases (n == 0)) [
    | inl z ↦ (
      s,
      [],
      rw (z, append-nil) refl,
      record { front = refl; bounded = omega arith; short = λ l. absurd (omega (tests, z)) },
    )
    | inr nz ↦ elim (Bool-cases (length (fread s n).1 == 0)) [
      | inl dry ↦
          let s1 = (fread s n).0 in
          let none_left = nil-by_length (fread s n).1 dry in
          (
            s1,
            [],
            rw (nz, dry, append-nil) refl,
            record {
              front = sym (ap (λ (g : List ℕ). g ++ rest s1) none_left) ∙ io.front s n;
              bounded = omega arith;
              short = λ l. io.short s n (omega (tests, dry, l));
            },
          )
      | inr wet ↦
          let s1 = (fread s n).0 in
          let first = (fread s n).1 in
          let le = io.bounded s n in
          let left : sub64 n (length first) ≡ n - length first = omega (arith, le, w) in
          let (s', got, eq, c) =
            read_chunk_loop_lem fuel s1 (sub64 n (length first)) (buf ++ first)
              (ground (arith, left, le)) (omega (arith, left, w)) in
          (
            s',
            first ++ got,
            rw (nz, wet) (eq ∙ ap (λ (g : List ℕ). some (s', g)) (append_assoc buf first got)),
            record {
              front =
                  append_assoc first got (rest s') ∙ ap (λ t. first ++ t) c.front ∙ io.front s n;
              bounded = omega (arith, length-append first got, c.bounded, left, le);
              short = λ l. c.short (omega (arith, length-append first got, left, l, le));
            },
          )
    ]
  ]

  -- With the whole size as fuel, `read_chunk` returns.
  pub read_chunk_lem :
      (s : State) (size : ℕ)
      → size < 2 ^ 64
      → (s' : State) × (got : List ℕ) × (read_chunk src s size ≡ some (s', got))
        × IsChunk src rest s s' size got
  unfolding read_chunk
  read_chunk_lem s size w = read_chunk_loop_lem (suc size) s size [] (omega arith) w

  pub cut_full :
      {s : State} {size : ℕ} (s' : State) (got : List ℕ)
      → IsChunk src rest s s' size got
      → failed s' ≡ false
      → at_end s' ≡ false
      → length got ≡ size
  cut_full {s} {size} s' got c ok more = elim (ℕ_discrete (length got) size) [
    | yes e ↦ e
    | no ne ↦ elim (c.short (omega (arith, c.bounded, ne))) [
      | inl e ↦ cc (more, e)
      | inr e ↦ cc (ok, e)
    ]
  ]

  module _ (sound : (s : State) → failed s ≡ false) (size : ℕ) (some_size : 0 < size)
      (size_fits : size < 2 ^ 64) where
    read_loop-goes_on :
        (n : ℕ) (s : State) (chunks : List (List ℕ))
        → length (rest s) < n
        → (s' : State) × (out : List (List ℕ)) × (read_loop src size s chunks (granted n)
            ≡ some (
                ret
                  (record { source = s'; chunks = chunks ++ out; ended = some (to_int success) })))
          × (concat out ≡ rest s)
          × IsCut size out
    unfolding read_loop
    read_loop-goes_on zero s chunks h = absurd (omega arith)
    read_loop-goes_on (suc n) s chunks h =
        let (s', got, eq, c) = read_chunk_lem s size size_fits in
        elim (Bool-cases (at_end s')) [
          | inl over ↦ (
            s',
            got ∷ [],
            rw (eq, sound s', over) refl,
            append-nil got
                ∙ sym (append-nil got)
                ∙ ap (λ t. got ++ t) (sym (io.spent s' over))
                ∙ c.front,
            (c.bounded, (λ e. absurd (e refl)), tt),
          )
          | inr more ↦
              let full : length got ≡ size = cut_full s' got c (sound s') more in
              let (s'', out, eq', all, cut) =
                read_loop-goes_on n s' (chunks ++ (got ∷ []))
                  (omega (arith, full, ap length c.front, length-append got (rest s'))) in
              (
                s'',
                got ∷ out,
                rw (eq, sound s', more)
                    (eq'
                      ∙ ap
                          (λ xs. some (
                            ret (record {
                              source = s'';
                              chunks = xs;
                              ended = some (to_int success);
                            })))
                          (append_assoc chunks (got ∷ []) out)),
                ap (λ t. got ++ t) all ∙ c.front,
                (c.bounded, (λ _. full), cut),
              )
        ]

    -- A reader thread whose channel takes every chunk, with a buffer that is not empty and whose
    -- size fits 64 bits, on an input without errors that behaves as stdio documents, ends with
    -- success once it has had a round for each byte and one more; the chunks that it handed over
    -- are the input cut into chunks of the buffer's size, of which only the last may be shorter.
    pub read_loop_whole :
        (n : ℕ) (s : State)
        → length (rest s) < n
        → (s' : State) × (chunks : List (List ℕ)) × (read_loop src size s [] (granted n)
            ≡ some (ret (record { source = s'; chunks = chunks; ended = some (to_int success) })))
          × (concat chunks ≡ rest s)
          × IsCut size chunks
    read_loop_whole n s h = read_loop-goes_on n s [] h
