-- ===== src/Tests/ConfigRuns.antt =====
-- Runs of src/lib/config.c.
use hairgap.Code.{success, err_invalid_addr}
use hairgap.Config.{File, Config, check_config_sender}
use hairgap.Config.Accepts.{CanSend, check_config_sender_accepts}
use hairgap.Tests.EncodingRuns.{Ratio, over, ratios}
use hairgap.Prelude.{ℕ, ◌≡◌, refl, ◌↔◌, Bool, false, none, some, ◌==◌}

-- Addresses are numbers, and only 7 is one that resolves.
abbrev pub resolves : ℕ → Bool
resolves a = a == 7

abbrev stream : File
stream = record { failed = false }

abbrev pub config : Config ℕ Ratio
config = record {
  input = some stream;
  output = some stream;
  n_pkt = 1000;
  pkt_size = 1400;
  redund = over 12 10;
  addr = some 7;
  port = 11011;
  byterate = over 0 1;
  keepalive = 500;
  timeout = 1000000;
  mem_limit = 104857600;
}

-- The defaults have no address, and are refused for that.
defaults_need_addr :
    check_config_sender resolves ratios (record config { addr = none }) ≡ err_invalid_addr
unfolding check_config_sender
defaults_need_addr = refl

check_config_sender_accepts_example :
    (check_config_sender resolves ratios config ≡ success) ↔ CanSend resolves ratios config
check_config_sender_accepts_example = check_config_sender_accepts resolves ratios config
