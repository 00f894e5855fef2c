-- ===== src/Channel/Valid.antt =====
-- The representation invariant of `struct channel`, and the elements that it holds.
use native.Mathlib.Nat.{mod-add-mod, mod-eq_of_lt, mod-eq-sub-mod}
use native.Mathlib.Decide.{dec_lt}
use hairgap.Channel.{Channel}
use hairgap.Prelude.{
  ltb, leb, ◌==◌, if◌then◌else◌, length, get_elem?, set, get_elem?-set_self, get_elem?-set_ne,
  get_elem?-some, ℕ, zero, suc, ◌+◌, ◌-◌, ◌%◌, ◌^◌, ◌<◌, ◌≡◌, refl, sym, ap, ap₂, ◌∙◌, ◌≢◌, Option,
  none, some, List, [], ◌∷◌, ◌++◌, arith, u64,
}

pub record IsValid {A : Type 0} (c : Channel A) : Type 0 where
  pub some_slot : 0 < c.capacity
  pub small : c.capacity < 2 ^ 64
  pub storage : length c.elts ≡ c.capacity
  pub wr_in : c.wr_idx < c.capacity
  pub rd_in : c.rd_idx < c.capacity

module _ {A : Type 0} where
  abbrev pub cons? : Option A → List A → List A
  cons? none xs = xs
  cons? (some x) xs = x ∷ xs

  -- The `n` elements from slot `h` on, going round at `cap`.
  abbrev pub window : List A → ℕ → ℕ → ℕ → List A
  window elts cap h zero = []
  window elts cap h (suc n) = cons? (get_elem? elts h) (window elts cap ((h + 1) % cap) n)

  -- The number of elements from the slot to be read up to the slot to be written.
  abbrev pub used : Channel A → ℕ
  used c = (c.wr_idx + c.capacity - c.rd_idx) % c.capacity

  abbrev pub contents : Channel A → List A
  contents c = window c.elts c.capacity c.rd_idx (used c)

  pub length-window :
      (elts : List A) (cap h n : ℕ) → length elts ≡ cap → h < cap → length (window elts cap h n) ≡ n
  length-window elts cap h zero e lt = refl
  length-window elts cap h (suc n) e lt =
      let (x, f) = get_elem?-some elts h (omega arith) in
      rw f (ap suc (length-window elts cap ((h + 1) % cap) n e (omega arith)))

  -- `window` matches on `suc`, the code compares indices.
  pub window_of_ne_zero :
      (elts : List A) (cap h n : ℕ)
      → n ≢ 0
      → window elts cap h n ≡ cons? (get_elem? elts h) (window elts cap ((h + 1) % cap) (n - 1))
  window_of_ne_zero elts cap h zero p = absurd (p refl)
  window_of_ne_zero elts cap h (suc n) p =
      ap (λ k. cons? (get_elem? elts h) (window elts cap ((h + 1) % cap) k)) (omega arith)

-- The remainders that the code takes, without `%`.
pub add-mod :
    (cap r n : ℕ)
    → r < cap
    → n < cap
    → (r + n) % cap ≡ (if ltb (r + n) cap then r + n else r + n - cap)
add-mod cap r n hr hn = elim (dec_lt (r + n) cap) [
  | yes p ↦ ground (arith, mod-eq_of_lt p)
  | no p ↦ ground (
    arith,
    mod-eq-sub-mod {n = r + n} {m = cap} (omega arith),
    mod-eq_of_lt {n = r + n - cap} {m = cap} (omega arith),
  )
]

-- Going on from a slot by fewer steps than the ring has slots ends at another one.
moved_on : (cap from steps : ℕ) → from < cap → suc steps < cap → (from + suc steps) % cap ≢ from
moved_on cap from steps inside few = ground (arith, add-mod cap from (suc steps) inside few)

pub sub-mod :
    (cap w r : ℕ)
    → w < cap
    → r < cap
    → (w + cap - r) % cap ≡ (if leb r w then w - r else w + cap - r)
sub-mod cap w r hw hr = elim (dec_lt w r) [
  | yes p ↦ ground (arith, mod-eq_of_lt {n = w + cap - r} {m = cap} (omega arith))
  | no p ↦ ground (
    arith,
    mod-eq-sub-mod {n = w + cap - r} {m = cap} (omega arith),
    mod-eq_of_lt {n = w + cap - r - cap} {m = cap} (omega arith),
  )
]

pub next-mod :
    (cap i : ℕ) → cap < 2 ^ 64 → i < cap → u64 (i + 1) % cap ≡ (if i + 1 == cap then 0 else i + 1)
next-mod cap i hc hi = elim (dec_lt (i + 1) cap) [
  | yes p ↦ ground (arith, mod-eq_of_lt {n = u64 (i + 1)} {m = cap} (omega arith))
  | no p ↦ ground (
    arith,
    mod-eq-sub-mod {n = u64 (i + 1)} {m = cap} (omega arith),
    mod-eq_of_lt {n = 0} {m = cap} (omega arith),
  )
]

-- The place behind a window, counted from the window's second slot.
behind_tail : (cap from n : ℕ) → (from + suc n) % cap ≡ ((from + 1) % cap + n) % cap
behind_tail cap from n = ap (λ m. m % cap) (omega arith) ∙ sym (mod-add-mod (from + 1) cap n)

module _ {A : Type 0} where
  -- Writing just past a window extends it by that element.
  pub window-set :
      (elts : List A) (cap : ℕ) (x : A) (n from place : ℕ)
      → length elts ≡ cap
      → from < cap
      → n < cap
      → place ≡ (from + n) % cap
      → window (set elts place x) cap from (suc n) ≡ window elts cap from n ++ (x ∷ [])
  window-set elts cap x zero from place size inside room at =
      let here : place ≡ from = ground (arith, add-mod cap from 0 inside room) in
      rw (here, get_elem?-set_self elts from x (omega arith)) refl
  window-set elts cap x (suc n) from place size inside room at =
      let (first, held) = get_elem?-some elts from (omega arith) in
      let kept : get_elem? (set elts place x) from ≡ get_elem? elts from =
        get_elem?-set_ne elts x (rw at (moved_on cap from n inside room)) in
      let tail =
        window-set elts cap x n ((from + 1) % cap) place size (omega arith) (omega arith)
          (at ∙ behind_tail cap from n) in
      rw (kept, held) (ap (λ rest. first ∷ rest) tail)

  -- Writing just past a window leaves it as it is.
  pub window-set_outside :
      (elts : List A) (cap : ℕ) (x : A) (n from place : ℕ)
      → length elts ≡ cap
      → from < cap
      → n < cap
      → place ≡ (from + n) % cap
      → window (set elts place x) cap from n ≡ window elts cap from n
  window-set_outside elts cap x zero from place size inside room at = refl
  window-set_outside elts cap x (suc n) from place size inside room at =
      let kept : get_elem? (set elts place x) from ≡ get_elem? elts from =
        get_elem?-set_ne elts x (rw at (moved_on cap from n inside room)) in
      let tail =
        window-set_outside elts cap x n ((from + 1) % cap) place size (omega arith) (omega arith)
          (at ∙ behind_tail cap from n) in
      ap₂ cons? kept tail

  -- A window one slot longer ends with that slot.
  pub window_snoc :
      (elts : List A) (cap : ℕ) (x : A) (n from place : ℕ)
      → length elts ≡ cap
      → from < cap
      → n < cap
      → place ≡ (from + n) % cap
      → get_elem? elts place ≡ some x
      → window elts cap from (suc n) ≡ window elts cap from n ++ (x ∷ [])
  window_snoc elts cap x zero from place size inside room at e =
      let here : place ≡ from = ground (arith, add-mod cap from 0 inside room) in
      rw (sym (ap (get_elem? elts) here) ∙ e) refl
  window_snoc elts cap x (suc n) from place size inside room at e =
      let (first, held) = get_elem?-some elts from (omega arith) in
      let tail =
        window_snoc elts cap x n ((from + 1) % cap) place size (omega arith) (omega arith)
          (at ∙ behind_tail cap from n) e in
      rw held (ap (λ rest. first ∷ rest) tail)
