-- ===== src/Limiter.antt =====
-- The limiter of src/lib/limiter.c. What `gettimeofday` says at each call is a list of readings; a
-- wait that the readings do not end is `none`.
pub mod Pacing
use hairgap.Wirehair.{Floating}
use hairgap.Prelude.{
  ltb, if◌then◌else◌, ℕ, ◌+◌, Bool, not, ◌&&◌, Option, none, some, List, [], ◌∷◌, u64,
}

-- `struct timeval`
pub record Timeval : Type 0 where
  pub tv_sec : ℕ
  pub tv_usec : ℕ

-- HLIM_CHK_PERIOD
abbrev pub chk_period : ℕ
chk_period = 1000

-- `struct hgap_limiter`
pub record Limiter (Double : Type 0) : Type 0 where
  pub byterate : Double
  pub n_pkt_sent : ℕ
  pub n_bytes_sent : ℕ
  pub since : Timeval
  pub total_data_sent : ℕ

module _ (f : Floating) where
  open f use {Double, of_size, divide, add, subtract, less, equal, million, zero_double}

  -- `time_diff`
  abbrev pub time_diff : Timeval → Timeval → Double
  time_diff before after =
      let before_us = add (of_size before.tv_sec) (divide (of_size before.tv_usec) million) in
      let after_us = add (of_size after.tv_sec) (divide (of_size after.tv_usec) million) in
      subtract after_us before_us

  -- `hgap_limiter_reset_rate`, with the reading that it takes.
  abbrev pub reset_rate : Limiter Double → Timeval → Limiter Double
  reset_rate l now = record l { since = now; n_pkt_sent = 0; n_bytes_sent = 0 }

  -- The rate of `bytes` bytes between two readings.
  abbrev pub rate_of : ℕ → Timeval → Timeval → Double
  rate_of bytes since now =
      let diff = time_diff since now in
      if equal diff zero_double then zero_double else divide (of_size bytes) diff

  -- `hgap_limiter_get_current_rate`, with the reading that it takes.
  abbrev pub get_current_rate : Limiter Double → Timeval → Double
  get_current_rate l now = rate_of l.n_bytes_sent l.since now

  -- `hgap_limiter_new`, with the reading that it takes.
  unfoldable pub limiter_new : Double → Timeval → Limiter Double
  limiter_new byterate now =
      reset_rate
        (record {
          byterate = byterate;
          n_pkt_sent = 0;
          n_bytes_sent = 0;
          since = now;
          total_data_sent = 0;
        })
        now

  -- The waiting loop of `hgap_limiter_limit` and the reset behind it, with the readings that are left.
  unfoldable pub wait_and_reset :
      Limiter Double → List Timeval → Option (Limiter Double × List Timeval)
  wait_and_reset l [] = none
  wait_and_reset l (now ∷ []) = none
  wait_and_reset l (now ∷ next ∷ times) =
      let rest = wait_and_reset l (next ∷ times) in
      if less l.byterate (get_current_rate l now) then rest else some (reset_rate l next, times)

  -- What `hgap_limiter_limit` counts.
  abbrev pub count : Limiter Double → ℕ → Limiter Double
  count l len = record l {
    total_data_sent = u64 (l.total_data_sent + len);
    n_pkt_sent = u64 (l.n_pkt_sent + 1);
    n_bytes_sent = u64 (l.n_bytes_sent + len);
  }

  -- `hgap_limiter_limit`
  unfoldable pub limit : Limiter Double → ℕ → List Timeval → Option (Limiter Double × List Timeval)
  unfolding wait_and_reset
  limit l len times =
      let counted = count l len in
      if not (equal counted.byterate zero_double) && ltb chk_period counted.n_pkt_sent
      then wait_and_reset counted times
      else some (counted, times)

  -- The limiter after packets of the given lengths.
  unfoldable pub limit_all :
      Limiter Double → List ℕ → List Timeval → Option (Limiter Double × List Timeval)
  unfolding limit
  limit_all l [] times = some (l, times)
  limit_all l (len ∷ lens) times = elim (limit l len times) [
    | none ↦ none
    | some (l', times') ↦ limit_all l' lens times'
  ]
