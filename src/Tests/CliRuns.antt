-- ===== src/Tests/CliRuns.antt =====
-- Runs of src/hairgaps.c.
use hairgap.Cli.{
  Texts, SendFlag, set_port, set_redund, set_mtu, Line, ask_help, send_options, hairgaps,
  exit_success,
}
use hairgap.Cli.Choice.{chosen, hairgaps_status}
use hairgap.Config.{Config, check_config_sender}
use hairgap.Session.{System}
use hairgap.Session.Results.{IsJoined}
use hairgap.Tests.ConfigRuns.{resolves, config}
use hairgap.Tests.EncodingRuns.{Ratio, over, ratios}
use hairgap.Prelude.{pos, ◌+◌, ret, ◌≡◌, refl, ℕ, true, some, List, [], ◌∷◌, arith}

-- A text is its number, and `atof` takes it for tenths.
abbrev digits : Texts Ratio
digits = record { Text = ℕ; atoi = pos; atol = pos; atoll = pos; atof = λ n. over n 10 }

-- -p 80 -r 1.3 -M 1200 -p 70000 address: the last port counts, and it is 70000 - 65536.
abbrev flags : List (SendFlag ℕ)
flags = set_port 80 ∷ set_redund 13 ∷ set_mtu 1200 ∷ set_port 70000 ∷ []

abbrev line : Line ℕ
line = record { argc = 10; optind = 9; operand = some 7 }

-- The reader fails with HGAP_ERR_FILE_READ, the sending thread with a number that tells its port and
-- keepalive.
abbrev failing : System (Config ℕ Ratio)
failing = record {
  initialized = true;
  first_starts = true;
  second_starts = true;
  run = λ c shapes. record { own = c.port + c.keepalive; joined = 9; joined_last = 0 };
}

last_flags_count :
    chosen ratios digits config flags
    ≡ record config { port = 4464; redund = over 13 10; pkt_size = 1200 }
last_flags_count = refl

help_asked :
    hairgaps ratios digits resolves failing line config (set_port 80 ∷ ask_help ∷ [])
    ≡ ret exit_success
unfolding hairgaps send_options
help_asked = refl

hairgaps_status_example :
    (r : ℕ) × (hairgaps ratios digits resolves failing line config flags ≡ ret r)
    × IsJoined (record { own = 4964; joined = 9; joined_last = 0 }) r
unfolding check_config_sender
hairgaps_status_example =
    hairgaps_status ratios digits resolves failing line config flags
      (refl, (refl, (refl, (refl, tt)))) (omega arith) (omega arith) refl refl refl refl
