-- ===== src/Send/Failing.antt =====
-- The reader thread on an input that may fail.
use hairgap.Code.{to_int, success, err_file_read}
use hairgap.Send.Reader.{Source, read_loop}
use hairgap.Send.Cutting.{IsCut, IsStdio, granted, read_chunk_lem, cut_full}
use hairgap.Prelude.{
  concat, Bool-cases, length, length-append, ret, ℕ, zero, suc, ◌^◌, ◌<◌, ◌≡◌, refl, sym, ap, ◌∙◌,
  ◌⊎◌, inl, inr, some, List, [], ◌∷◌, ◌++◌, append-nil, append_assoc, arith,
}

module _ (src : Source) (rest : src.State → List ℕ) (io : IsStdio src rest) where
  open src use {State, fread, failed, at_end}

  module _ (size : ℕ) (some_size : 0 < size) (size_fits : size < 2 ^ 64) where
    -- The thread ends with success behind all of the input, or with HGAP_ERR_FILE_READ behind a front of
    -- it.
    pub read_loop-stops :
        (n : ℕ) (s : State) (chunks : List (List ℕ))
        → length (rest s) < n
        → (s' : State) × (out : List (List ℕ)) × (tail : List ℕ) × (retval : ℕ) × (read_loop src
              size s chunks
              (granted n)
            ≡ some (ret (record { source = s'; chunks = chunks ++ out; ended = some retval })))
          × (concat out ++ tail ≡ rest s)
          × IsCut size out
          × (((retval ≡ to_int success) × (tail ≡ [])) ⊎ (retval ≡ to_int err_file_read))
    unfolding read_loop
    read_loop-stops zero s chunks h = absurd (omega arith)
    read_loop-stops (suc n) s chunks h =
        let (s', got, eq, c) = read_chunk_lem src rest io s size size_fits in
        elim (Bool-cases (failed s')) [
          | inl broken ↦ (
            s',
            [],
            rest s,
            to_int err_file_read,
            rw (eq, broken, append-nil) refl,
            refl,
            tt,
            inr refl,
          )
          | inr sound ↦ elim (Bool-cases (at_end s')) [
            | inl over ↦ (
              s',
              got ∷ [],
              [],
              to_int success,
              rw (eq, sound, over) refl,
              append-nil (got ++ [])
                  ∙ append-nil got
                  ∙ sym (append-nil got)
                  ∙ ap (λ t. got ++ t) (sym (io.spent s' over))
                  ∙ c.front,
              (c.bounded, (λ e. absurd (e refl)), tt),
              inl (refl, refl),
            )
            | inr more ↦
                let full : length got ≡ size = cut_full src rest io s' got c sound more in
                let (s'', out, tail, retval, eq', all, cut, why) =
                  read_loop-stops n s' (chunks ++ (got ∷ []))
                    (omega (arith, full, ap length c.front, length-append got (rest s'))) in
                (
                  s'',
                  got ∷ out,
                  tail,
                  retval,
                  rw (eq, sound, more)
                      (eq'
                        ∙ ap
                            (λ xs.
                              some
                                (ret (record { source = s''; chunks = xs; ended = some retval })))
                            (append_assoc chunks (got ∷ []) out)),
                  append_assoc got (concat out) tail ∙ ap (λ t. got ++ t) all ∙ c.front,
                  (c.bounded, (λ _. full), cut),
                  why,
                )
          ]
        ]
