-- ===== src/Tests/Toy.antt =====
-- A code that stands in for wirehair: it cuts the message into blocks, and its decoder takes them in
-- order. It shows that the behaviour assumed of wirehair can be met.
use hairgap.Wirehair.{Wirehair, Block, IsBlockOf, feed, feed-ready, feed-more, Recovers}
use hairgap.Encoding.{memory}
use hairgap.Prelude.{
  leb, ◌==◌, if◌then◌else◌, ==→eq, tests, Bool-cases, length, take, drop, All, length-take,
  length-drop, take_all, take-nil, ℕ, zero, suc, ◌+◌, ◌-◌, ◌*◌, min, ◌≡◌, refl, sym, ap, ap₂, ◌∙◌,
  subst, inl, inr, Bool, false, Option, none, some, List, [], ◌∷◌, ◌++◌, arith,
}

pub data Toy : Type 0 where
  coder : List ℕ → ℕ → Toy
  decoder : ℕ → ℕ → List ℕ → Toy

abbrev toy_write : Option Toy → ℕ → Option (List ℕ)
toy_write none id = none
toy_write (some (coder message size)) id = some (take size (drop (id * size) message))
toy_write (some (decoder n size got)) id = none

-- The bytes held after a block.
abbrev grown : ℕ → ℕ → List ℕ → ℕ → List ℕ → List ℕ
grown n size got id block =
    if id * size == length got then got ++ take (min size (n - length got)) block else got

abbrev toy_read : Toy → ℕ → List ℕ → Toy × Bool
toy_read (coder message size) id block = (coder message size, false)
toy_read (decoder n size got) id block =
    let got' = grown n size got id block in (decoder n size got', leb n (length got'))

abbrev toy_reconstruct : Option Toy → Option (List ℕ)
toy_reconstruct none = none
toy_reconstruct (some (coder message size)) = none
toy_reconstruct (some (decoder n size got)) = some got

abbrev pub toy : Wirehair
toy = record {
  State = Toy;
  encode = λ _ message size. some (coder message size);
  write = toy_write;
  decode = λ _ n size. some (decoder n size []);
  read = toy_read;
  reconstruct = toy_reconstruct;
}

take-append-take :
    (m n k : ℕ) (xs : List ℕ) → m + n ≡ k → take m xs ++ take n (drop m xs) ≡ take k xs
take-append-take zero n k xs e = ap (λ (j : ℕ). take j xs) (omega arith)
take-append-take (suc m) n k [] e = rw (take-nil n, take-nil k)
take-append-take (suc m) n zero (x ∷ xs) e = absurd (omega arith)
take-append-take (suc m) n (suc k) (x ∷ xs) e =
    ap (λ t. x ∷ t) (take-append-take m n k xs (omega arith))

take-length-take : (k : ℕ) (xs : List ℕ) → take (length (take k xs)) xs ≡ take k xs
take-length-take zero xs = refl
take-length-take (suc k) [] = refl
take-length-take (suc k) (x ∷ xs) = ap (λ t. x ∷ t) (take-length-take k xs)

module _ (message : List ℕ) (size : ℕ) where
  abbrev n : ℕ
  n = length message

  -- What the decoder holds is the front of the message.
  grown-front :
      (got : List ℕ) (b : Block)
      → IsBlockOf toy (some (coder message size)) size b
      → got ≡ take (length got) message
      → grown n size got b.id b.bytes ≡ take (length (grown n size got b.id b.bytes)) message
  grown-front got b i h = elim (Bool-cases (b.id * size == length got)) [
    | inl e ↦
        let at : b.id * size ≡ length got = ==→eq (b.id * size) (length got) e in
        let out : take size (drop (length got) message) ≡ i.written =
          rw at at (ap (λ (o : Option (List ℕ)). memory o) i.write_lem) in
        let count : min size (n - length got) ≡ length i.written = omega (
          arith,
          ap length out,
          length-take size (drop (length got) message),
          length-drop (length got) message,
        ) in
        let next : got ++ take (min size (n - length got)) b.bytes
            ≡ take (length got + size) message =
          ap₂ ◌++◌ h (ap (λ k. take k b.bytes) count ∙ i.front ∙ sym out)
          ∙ take-append-take (length got) size (length got + size) message refl in
        rw (e, next) (sym (take-length-take (length got + size) message))
    | inr e ↦ rw e h
  ]

  feed-reconstruct :
      (got : List ℕ) (blocks : List Block) (d : Toy)
      → got ≡ take (length got) message
      → All (IsBlockOf toy (some (coder message size)) size) blocks
      → feed toy (decoder n size got) blocks ≡ some d
      → toy_reconstruct (some d) ≡ some message
  unfolding feed
  feed-reconstruct got [] d h i e = cc
  feed-reconstruct got (b ∷ bs) d h i e =
      let got' = grown n size got b.id b.bytes in
      let h' = grown-front got b i.0 h in
      elim (Bool-cases (leb n (length got'))) [
        | inl t ↦
            let whole : got' ≡ message = h' ∙ take_all (length got') message (omega (tests, t)) in
            ap toy_reconstruct (
              sym e
              ∙ feed-ready toy (decoder n size got) (decoder n size got') b bs
                  (ap (λ r. (decoder n size got', r)) t))
            ∙ ap some whole
        | inr t ↦ feed-reconstruct got' bs d h' i.1 (
            sym (
              feed-more toy (decoder n size got) (decoder n size got') b bs
                (ap (λ r. (decoder n size got', r)) t))
            ∙ e)
      ]

abbrev behind : Option Toy → Toy
behind none = coder [] 0
behind (some t) = t

-- The behaviour assumed of wirehair holds of this code.
pub toy-Recovers : Recovers toy
toy-Recovers = record {
  write_fits = λ reuse message size id made e. omega (
    arith,
    ap (λ o. length (memory o)) (ap (λ o. toy_write o id) made ∙ e),
    length-take size (drop (id * size) message),
  );
  recovers = λ reuse reuse' message size blocks made got h e.
      feed-reconstruct message size [] blocks _ refl
        (subst (λ o. All (IsBlockOf toy o size) blocks) (sym made) h)
        (ap (λ o. feed toy (behind o) blocks) got ∙ e);
}
