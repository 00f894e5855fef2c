-- ===== src/Tests/LimiterRuns.antt =====
-- Runs of src/lib/limiter.c.
use hairgap.Limiter.{Timeval, Limiter, limiter_new, wait_and_reset, limit, limit_all}
use hairgap.Limiter.Pacing.{Paced, Counts, limit_all-Paced}
use hairgap.Tests.EncodingRuns.{Ratio, over, ratios}
use hairgap.Prelude.{replicate, concat, ◌≡◌, refl, ℕ, some, List, [], ◌∷◌, ◌++◌, arith}

abbrev at : ℕ → ℕ → Timeval
at sec usec = record { tv_sec = sec; tv_usec = usec }

-- 1003 packets of 100 bytes at 50000 bytes a second: after the one that is one too many the clock shows
-- one second, at which the rate is exceeded, and then three, at which it is not.
abbrev lens : List ℕ
lens = replicate 1003 100

abbrev clock : List Timeval
clock = at 11 0 ∷ at 13 0 ∷ at 13 500000 ∷ []

abbrev limited : Limiter Ratio
limited = record {
  byterate = over 50000 1;
  n_pkt_sent = 2;
  n_bytes_sent = 200;
  since = at 13 500000;
  total_data_sent = 100300;
}

limited_run :
    limit_all ratios (limiter_new ratios (over 50000 1) (at 10 0)) lens clock ≡ some (limited, [])
unfolding limit_all limit wait_and_reset limiter_new
limited_run = refl

limit_all-Paced_example :
    (batches : List (List ℕ)) × (tail : List ℕ) × (t' : Timeval) × (lens ≡ concat batches ++ tail)
    × Paced ratios (over 50000 1) (at 10 0) clock batches t' []
    × Counts ratios (over 50000 1) t' tail limited
limit_all-Paced_example = limit_all-Paced ratios lens clock refl (omega arith) limited_run
