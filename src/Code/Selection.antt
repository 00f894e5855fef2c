-- ===== src/Code/Selection.antt =====
-- HGAP_SELECT_ERROR of src/lib/common.h, which joins the results of the threads.
use hairgap.Code.{to_int, success, select_error}
use hairgap.Prelude.{ℕ, ◌≤◌, ◌≡◌, ◌≢◌, ◌↔◌, arith}

-- The selection does not depend on the order or the grouping of the results; it is success only if
-- both are; and an error is never hidden behind a success or a larger error.
pub select_error_laws :
    (a b c : ℕ)
    → (select_error a b ≡ select_error b a)
      × (select_error a (select_error b c) ≡ select_error (select_error a b) c)
      × ((select_error a b ≡ to_int success) ↔ ((a ≡ to_int success) × (b ≡ to_int success)))
      × (a ≢ to_int success → select_error a b ≤ a)
unfolding select_error
select_error_laws a b c = (ground arith, ground arith, ground arith, λ h. ground arith)
