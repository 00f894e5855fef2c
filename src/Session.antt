-- ===== src/Session.antt =====
-- `hgap_send` of src/lib/hgap_send.c and `hgap_receive` of src/lib/hgap_receive.c: the checks, the sizes
-- of what the threads share, and how the threads' results become one.
pub mod Sizes
pub mod Results
use hairgap.Wirehair.{Floating}
use hairgap.Code.{Code, to_int, success, err_wirehair_error, select_error}
use hairgap.Config.{Config, check_config_sender, check_config_receiver}
use hairgap.Proto.{header_len, max_chunk_size}
use hairgap.Prelude.{
  ltb, ◌==◌, if◌then◌else◌, Outcome, ret, exited, sub64, u64, ℕ, ◌+◌, ◌*◌, ◌/◌, Bool, true, false,
  not,
}

-- `sizeof (struct sized_buf)` and the size of a pointer
abbrev pub sized_buf_len : ℕ
sized_buf_len = 16

abbrev pub pointer_len : ℕ
pointer_len = 8

-- The element size and the capacity that `channel_new` is called with.
pub record Shape : Type 0 where
  pub elt_size : ℕ
  pub capacity : ℕ

-- The two channels between the three threads, in the order of the data.
pub record Shapes : Type 0 where
  pub first : Shape
  pub second : Shape

-- What the threads return: the calling thread's own loop, and the two threads in the order in which
-- they are joined.
pub record Returned : Type 0 where
  pub own : ℕ
  pub joined : ℕ
  pub joined_last : ℕ

-- The system: whether `wirehair_init` succeeds, whether each `pthread_create` does, and what the
-- threads return, which are given the configuration and channels of the given shapes.
pub record System (C : Type 0) : Type 0 where
  pub initialized : Bool
  pub first_starts : Bool
  pub second_starts : Bool
  pub run : C → Shapes → Returned

-- One `pthread_join`, and what it makes of `retval`.
abbrev pub join : ℕ → ℕ → ℕ
join tmp_ret retval = if tmp_ret == to_int success then retval else select_error tmp_ret retval

-- The part behind the checks, which the two programs share.
unfoldable pub conduct : {C : Type 0} → System C → C → Shapes → Outcome ℕ
unfolding select_error
conduct s c shapes =
    if not s.initialized
    then ret (to_int err_wirehair_error)
    else (if not s.first_starts
        then exited
        else (if not s.second_starts
            then exited
            else (let r = s.run c shapes in ret (join r.joined_last (join r.joined r.own)))))

module _ {Addr Double : Type 0} (c : Config Addr Double) where
  -- `buf_size` of `hgap_send`: the bytes of a chunk.
  abbrev pub buf_size : ℕ
  buf_size = u64 (c.n_pkt * sub64 c.pkt_size header_len)

  -- The channels of `hgap_send`.
  abbrev pub send_shapes : Shapes
  send_shapes = record {
    first = record { elt_size = u64 (sized_buf_len + buf_size); capacity = 16 };
    second = record { elt_size = pointer_len; capacity = 16 };
  }

  -- The channels of `hgap_receive`, for packets and for chunks.
  abbrev pub pkt_size : ℕ
  pkt_size = u64 (sized_buf_len + c.pkt_size)

  -- `mtu` of `hgapr_net_reader`: what a slot of the packet channel holds of a packet.
  abbrev pub mtu : ℕ
  mtu = sub64 pkt_size sized_buf_len

  abbrev pub pkt_chan_size : ℕ
  pkt_chan_size = (c.mem_limit / 2) / pkt_size

  abbrev pub chunk_chan_size : ℕ
  chunk_chan_size =
      let share = (c.mem_limit / 2) / max_chunk_size in if ltb share 256 then 256 else share

  abbrev pub receive_shapes : Shapes
  receive_shapes = record {
    first = record { elt_size = pkt_size; capacity = pkt_chan_size };
    second = record { elt_size = sized_buf_len; capacity = chunk_chan_size };
  }

module _ {Addr : Type 0} (resolves : Addr → Bool) where
  -- `hgap_send`
  unfoldable pub hgap_send :
      (f : Floating) (c : Config Addr f.Double) → System (Config Addr f.Double) → Outcome ℕ
  unfolding conduct
  hgap_send f c s = elim (check_config_sender resolves f c) [
    | success ↦ conduct s c (send_shapes c)
    | err ↦ ret (to_int err)
  ]

  -- `hgap_receive`
  unfoldable pub hgap_receive : {D : Type 0} → Config Addr D → System (Config Addr D) → Outcome ℕ
  unfolding conduct
  hgap_receive c s = elim (check_config_receiver resolves c) [
    | success ↦ conduct s c (receive_shapes c)
    | err ↦ ret (to_int err)
  ]
