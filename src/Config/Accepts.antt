-- ===== src/Config/Accepts.antt =====
-- Which configurations the checks accept.
use hairgap.Wirehair.{Floating}
use hairgap.Code.{success}
use hairgap.Proto.{header_len, max_pkt_size, max_n_pkt}
use hairgap.Config.{
  File, Config, check_file, check_addr, check_rest, check_config_receiver, check_config_sender,
}
use hairgap.Prelude.{◌≤◌, ◌<◌, ◌≡◌, ◌↔◌, Bool, true, false, Option, none, some, arith, refl}

-- A stream that can be used.
abbrev pub IsOpen : Option File → Type 0
IsOpen none = ⊥
IsOpen (some f) = f.failed ≡ false

-- What a sender needs of its configuration.
pub record CanSend {Addr : Type 0} (resolves : Addr → Bool) (f : Floating)
    (c : Config Addr f.Double) : Type 0 where
  pub header_fits : header_len < c.pkt_size
  pub mtu : c.pkt_size ≤ max_pkt_size
  pub addr : (a : Addr) × (c.addr ≡ some a) × (resolves a ≡ true)
  pub input : IsOpen c.input
  pub some_pkt : 1 ≤ c.n_pkt
  pub few_pkts : c.n_pkt ≤ max_n_pkt
  pub redund : f.less c.redund f.one_double ≡ false

check_file-success : (o : Option File) → check_file o ≡ success → IsOpen o
check_file-success none e = ground arith
check_file-success (some f) e = ground arith

check_file_lem : (o : Option File) → IsOpen o → check_file o ≡ success
check_file_lem none h = elim h [ ]
check_file_lem (some f) h = ground arith

module _ {Addr : Type 0} (resolves : Addr → Bool) where
  check_addr-success :
      (o : Option Addr)
      → check_addr resolves o ≡ success
      → (a : Addr) × (o ≡ some a) × (resolves a ≡ true)
  check_addr-success none e = ground arith
  check_addr-success (some a) e = (a, refl, ground arith)

  check_addr_lem :
      (o : Option Addr) (a : Addr)
      → o ≡ some a
      → resolves a ≡ true
      → check_addr resolves o ≡ success
  check_addr_lem o a e h = ground arith

  rest-success :
      (f : Floating) (c : Config Addr f.Double)
      → check_rest resolves f c ≡ success
      → (check_file c.input ≡ success)
        × (1 ≤ c.n_pkt)
        × (c.n_pkt ≤ max_n_pkt)
        × (f.less c.redund f.one_double ≡ false)
  rest-success f c e = (ground arith, ground arith, ground arith, ground arith)

  sender-success :
      (f : Floating) (c : Config Addr f.Double)
      → check_config_sender resolves f c ≡ success
      → (header_len < c.pkt_size)
        × (c.pkt_size ≤ max_pkt_size)
        × (check_addr resolves c.addr ≡ success)
        × (check_rest resolves f c ≡ success)
  unfolding check_config_sender
  sender-success f c e = (ground arith, ground arith, ground arith, ground arith)

  -- The sender's check accepts exactly the configurations that can send: the packets hold more than
  -- a header and fit the largest packet, the address resolves, the input can be read, there are 1 to
  -- 64000 packets in a chunk, and the redundancy is not below 1.
  pub check_config_sender_accepts :
      (f : Floating) (c : Config Addr f.Double)
      → (check_config_sender resolves f c ≡ success) ↔ CanSend resolves f c
  unfolding check_config_sender
  check_config_sender_accepts f c = (
    λ e.
        let (fits, mtu, addr, rest) = sender-success f c e in
        let (input, some_pkt, few, redund) = rest-success f c rest in
        record {
          header_fits = fits;
          mtu = mtu;
          addr = check_addr-success c.addr addr;
          input = check_file-success c.input input;
          some_pkt = some_pkt;
          few_pkts = few;
          redund = redund;
        },
    λ v.
        let (a, found, resolved) = v.addr in
        ground (
          arith,
          v.header_fits,
          v.mtu,
          check_addr_lem c.addr a found resolved,
          check_file_lem c.input v.input,
          v.some_pkt,
          v.few_pkts,
          v.redund,
        ),
  )

  -- The receiver's check accepts exactly the configurations with an output that can be written and
  -- an address that resolves.
  pub check_config_receiver_accepts :
      {D : Type 0} (c : Config Addr D)
      → (check_config_receiver resolves c ≡ success)
        ↔ (IsOpen c.output × ((a : Addr) × (c.addr ≡ some a) × (resolves a ≡ true)))
  unfolding check_config_receiver
  check_config_receiver_accepts c = (
    λ e. (check_file-success c.output (ground arith), check_addr-success c.addr (ground arith)),
    λ v.
        let (a, found, resolved) = v.1 in
        ground (arith, check_file_lem c.output v.0, check_addr_lem c.addr a found resolved),
  )
