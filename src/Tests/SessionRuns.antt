-- ===== src/Tests/SessionRuns.antt =====
-- Runs of `hgap_send` and `hgap_receive`.
use hairgap.Channel.{blocked, new, reserve}
use hairgap.Code.{success}
use hairgap.Config.{check_config_sender}
use hairgap.Proto.{header_len, max_chunk_size}
use hairgap.Session.{buf_size, pkt_size, pkt_chan_size}
use hairgap.Session.Sizes.{buf_size_bounds, packets_blocked}
use hairgap.Tests.ConfigRuns.{resolves, config}
use hairgap.Tests.EncodingRuns.{ratios}
use hairgap.Prelude.{◌≡◌, refl, ℕ, ◌*◌, ◌-◌, ◌<◌, [], ◌∷◌, arith}

accepted : check_config_sender resolves ratios config ≡ success
unfolding check_config_sender
accepted = refl

buf_size_bounds_example :
    (buf_size config ≡ 1000 * (1400 - header_len))
    × (0 < buf_size config)
    × (buf_size config < max_chunk_size)
buf_size_bounds_example = buf_size_bounds resolves ratios config accepted

packets_blocked_example :
    reserve {A = ℕ} (
      new
        (pkt_size (record config { mem_limit = 2000 }))
        (pkt_chan_size (record config { mem_limit = 2000 }))
        (0 ∷ []))
    ≡ blocked
packets_blocked_example =
    packets_blocked (record config { mem_limit = 2000 }) (0 ∷ []) (omega arith) (omega arith)
