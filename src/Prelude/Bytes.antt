-- ===== src/Prelude/Bytes.antt =====
-- Numbers as bytes in network order: what `htobe32`, `htobe64` and their inverses put in memory.
use Prim.Native.Nat.{ℕ, zero, suc, ◌+◌, ◌*◌, ◌/◌, ◌%◌, ◌^◌, ◌<◌}
use mathlib.Core.Path.{◌≡◌, refl, ap, ap₂, ◌∙◌}
use mathlib.Core.List.{List, [], ◌∷◌, reverse, reverse_aux, reverse-reverse}
use native.Mathlib.Nat.{pow-suc}
use native.Mathlib.Omega.{arith}
use hairgap.Prelude.Lists.{length, All}

abbrev pub IsByte : ℕ → Type 0
IsByte b = b < 256

-- The low `n` bytes of `v`, lowest first.
pub to_le : ℕ → ℕ → List ℕ
to_le zero v = []
to_le (suc n) v = (v % 256) ∷ to_le n (v / 256)

pub from_le : List ℕ → ℕ
from_le [] = 0
from_le (b ∷ bs) = b + 256 * from_le bs

unfoldable pub to_be : ℕ → ℕ → List ℕ
unfolding to_le
to_be n v = reverse (to_le n v)

unfoldable pub from_be : List ℕ → ℕ
unfolding from_le
from_be bs = from_le (reverse bs)

length-reverse_aux : (xs ys : List ℕ) → length (reverse_aux xs ys) ≡ length xs + length ys
length-reverse_aux [] ys = omega arith
length-reverse_aux (x ∷ xs) ys = omega (arith, length-reverse_aux xs (x ∷ ys))

length-reverse : (xs : List ℕ) → length (reverse xs) ≡ length xs
length-reverse xs = omega (arith, length-reverse_aux xs [])

All-reverse_aux : (xs ys : List ℕ) → All IsByte xs → All IsByte ys → All IsByte (reverse_aux xs ys)
All-reverse_aux [] ys hx hy = hy
All-reverse_aux (x ∷ xs) ys hx hy = All-reverse_aux xs (x ∷ ys) hx.1 (hx.0, hy)

length-to_le : (n v : ℕ) → length (to_le n v) ≡ n
unfolding to_le
length-to_le zero v = refl
length-to_le (suc n) v = ap suc (length-to_le n (v / 256))

pub length-to_be : (n v : ℕ) → length (to_be n v) ≡ n
unfolding to_be
length-to_be n v = length-reverse (to_le n v) ∙ length-to_le n v

from_le-to_le : (n v : ℕ) → v < 256 ^ n → from_le (to_le n v) ≡ v
unfolding from_le to_le
from_le-to_le zero v h = omega arith
from_le-to_le (suc n) v h = omega (arith, from_le-to_le n (v / 256) (omega (arith, pow-suc 256 n)))

pub from_be-to_be : (n v : ℕ) → v < 256 ^ n → from_be (to_be n v) ≡ v
unfolding from_be to_be
from_be-to_be n v h = ap from_le (reverse-reverse (to_le n v)) ∙ from_le-to_le n v h

to_le-IsByte : (n v : ℕ) → All IsByte (to_le n v)
unfolding to_le
to_le-IsByte zero v = tt
to_le-IsByte (suc n) v = (omega arith, to_le-IsByte n (v / 256))

-- What is written in network order is bytes.
pub to_be-IsByte : (n v : ℕ) → All IsByte (to_be n v)
unfolding to_be
to_be-IsByte n v = All-reverse_aux (to_le n v) [] (to_le-IsByte n v) tt

from_le-lt : (n : ℕ) (bs : List ℕ) → length bs ≡ n → All IsByte bs → from_le bs < 256 ^ n
unfolding from_le
from_le-lt zero [] e h = omega arith
from_le-lt zero (b ∷ bs) e h = absurd (omega arith)
from_le-lt (suc n) [] e h = absurd (omega arith)
from_le-lt (suc n) (b ∷ bs) e h =
    omega (arith, pow-suc 256 n, from_le-lt n bs (omega arith) h.1, h.0)

pub from_be-lt : (n : ℕ) (bs : List ℕ) → length bs ≡ n → All IsByte bs → from_be bs < 256 ^ n
unfolding from_be
from_be-lt n bs e h = from_le-lt n (reverse bs) (length-reverse bs ∙ e) (All-reverse_aux bs [] h tt)

to_le-from_le : (n : ℕ) (bs : List ℕ) → length bs ≡ n → All IsByte bs → to_le n (from_le bs) ≡ bs
unfolding to_le from_le
to_le-from_le zero [] e h = refl
to_le-from_le zero (b ∷ bs) e h = absurd (omega arith)
to_le-from_le (suc n) [] e h = absurd (omega arith)
to_le-from_le (suc n) (b ∷ bs) e h =
    ap₂ ◌∷◌ (omega (arith, h.0))
      (ap (to_le n) (omega (arith, h.0)) ∙ to_le-from_le n bs (omega arith) h.1)

pub to_be-from_be :
    (n : ℕ) (bs : List ℕ) → length bs ≡ n → All IsByte bs → to_be n (from_be bs) ≡ bs
unfolding to_be from_be
to_be-from_be n bs e h =
    ap reverse (to_le-from_le n (reverse bs) (length-reverse bs ∙ e) (All-reverse_aux bs [] h tt))
    ∙ reverse-reverse bs
