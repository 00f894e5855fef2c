-- ===== src/Session/Sizes.antt =====
-- The sizes that `hgap_send` and `hgap_receive` compute from a configuration.
use native.Mathlib.Nat.{mul-le-mul, div-eq_of_lt, mod-eq_of_lt}
use hairgap.Wirehair.{Floating}
use hairgap.Code.{success}
use hairgap.Channel.{blocked, new, reserve}
use hairgap.Config.{Config, check_config_sender}
use hairgap.Config.Accepts.{check_config_sender_accepts}
use hairgap.Proto.{header_len, max_chunk_size}
use hairgap.Session.{sized_buf_len, buf_size, pkt_size, pkt_chan_size}
use hairgap.Prelude.{sub64, ◌+◌, ◌-◌, ◌*◌, ◌/◌, ◌^◌, ◌≤◌, ◌<◌, ◌≡◌, refl, Bool, List, arith}

module _ {Addr : Type 0} (resolves : Addr → Bool) (f : Floating) where
  -- For every configuration that the sender accepts, the bytes of a chunk are the payload of its
  -- packets: none of the arithmetic wraps, there is at least one byte, and fewer than in the
  -- largest chunk.
  pub buf_size_bounds :
      (c : Config Addr f.Double)
      → check_config_sender resolves f c ≡ success
      → (buf_size c ≡ c.n_pkt * (c.pkt_size - header_len))
        × (0 < buf_size c)
        × (buf_size c < max_chunk_size)
  buf_size_bounds c e =
      let can = (check_config_sender_accepts resolves f c).0 e in
      let payload : sub64 c.pkt_size header_len ≡ c.pkt_size - header_len =
        omega (arith, can.header_fits, can.mtu) in
      let few : c.n_pkt * (c.pkt_size - header_len) ≤ 64000 * 1476 =
        mul-le-mul {n₁ = c.n_pkt} {m₁ = c.pkt_size - header_len} {n₂ = 64000} {m₂ = 1476}
          can.few_pkts (omega (arith, can.mtu)) in
      let some_byte : 1 * 1 ≤ c.n_pkt * (c.pkt_size - header_len) =
        mul-le-mul {n₁ = 1} {m₁ = 1} {n₂ = c.n_pkt} {m₂ = c.pkt_size - header_len} can.some_pkt
          (omega (arith, can.header_fits)) in
      let size : buf_size c ≡ c.n_pkt * (c.pkt_size - header_len) = rw payload (
        mod-eq_of_lt {n = c.n_pkt * (c.pkt_size - header_len)} {m = 2 ^ 64} (omega (arith, few))) in
      (size, rw size some_byte, rw size (omega (arith, few)))

-- A receiver's memory limit below twice the size of a packet and its `sized_buf`, where the packet size
-- is below 2^63, gives its packet channel no room, and the thread that reads the network waits for a
-- slot at its first packet.
pub packets_blocked :
    {A Addr D : Type 0} (c : Config Addr D) (mem : List A)
    → c.pkt_size < 2 ^ 63
    → c.mem_limit / 2 < sized_buf_len + c.pkt_size
    → reserve (new (pkt_size c) (pkt_chan_size c) mem) ≡ blocked
unfolding reserve new
packets_blocked c mem small h =
    let none_fit : pkt_chan_size c ≡ 0 =
      rw (mod-eq_of_lt {n = sized_buf_len + c.pkt_size} {m = 2 ^ 64} (omega arith))
        (div-eq_of_lt h) in
    rw none_fit refl
