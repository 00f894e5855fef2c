-- ===== src/Tests/SocketRuns.antt =====
-- Runs of src/lib/sender.c.
use hairgap.Limiter.{Timeval, limiter_new}
use hairgap.Proto.{keepalive}
use hairgap.Socket.{World, Sender, inaddr_none, sender_new, sender_control}
use hairgap.Socket.Salve.{WentOut, BrokeOff, control_cases}
use hairgap.Tests.EncodingRuns.{Ratio, over, ratios}
use hairgap.Prelude.{replicate, ◌≡◌, refl, ◌⊎◌, ℕ, true, Option, none, some, List, [], ◌∷◌, arith}

abbrev early : Timeval
early = record { tv_sec = 10; tv_usec = 0 }

abbrev pub hs : Sender Ratio
hs = record {
  sin_addr = 167772162;
  sin_port = 11011;
  socket = 3;
  keepalive = 500;
  hlim = limiter_new ratios (over 0 1) early;
  cont = true;
}

-- The network takes 33 packets of 24 bytes.
abbrev steady : World
steady = record { results = replicate 33 (some 24); readings = []; packets = [] }

-- It takes two, and then fails.
abbrev broken : World
broken = record {
  results = some 24 ∷ some 24 ∷ none ∷ replicate 40 (some 24);
  readings = [];
  packets = [];
}

control_cases_example :
    (hs' : Sender Ratio) × (r : Option ℕ) × (w' : World) × (oks : List ℕ) × (sender_control ratios
        hs
        (7 ∷ 8 ∷ [])
        broken
      ≡ some (hs', r, w'))
    × (((r ≡ some 0) × WentOut 32 (7 ∷ 8 ∷ []) broken w' oks)
        ⊎ ((r ≡ none) × BrokeOff 32 (7 ∷ 8 ∷ []) broken w' oks))
unfolding limiter_new
control_cases_example = control_cases ratios hs (7 ∷ 8 ∷ []) broken refl (omega arith)

-- A destination that `inet_addr` cannot read is taken for an address.
unresolved_taken :
    sender_new ratios 11011 0 500
      (record { opened = some 3; inet_addr = inaddr_none; now = early; threaded = true })
    ≡ some (record hs { sin_addr = 0xffffffff })
unfolding sender_new limiter_new
unresolved_taken = refl
