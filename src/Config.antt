-- ===== src/Config.antt =====
-- The configuration of src/lib/config.c: its defaults and its checks.
pub mod Accepts
use hairgap.Wirehair.{Floating}
use hairgap.Code.{
  Code, success, err_no_config, err_mtu_too_small, err_mtu_too_big, err_invalid_addr, err_bad_fd,
  err_bad_in_fd, err_bad_out_fd, err_bad_n_pkt, err_bad_redund,
}
use hairgap.Proto.{header_len, max_pkt_size, max_n_pkt}
use hairgap.Prelude.{ltb, leb, if◌then◌else◌, ℕ, Bool, ◌||◌, Option, none, some}

-- A `FILE` that a pointer leads to, as far as it is looked at: whether `ferror` reports an error.
pub record File : Type 0 where
  pub failed : Bool

-- `struct hgap_config`. A pointer is an option, NULL is `none`; `Addr` are the strings.
pub record Config (Addr Double : Type 0) : Type 0 where
  pub input : Option File
  pub output : Option File
  pub n_pkt : ℕ
  pub pkt_size : ℕ
  pub redund : Double
  pub addr : Option Addr
  pub port : ℕ
  pub byterate : Double
  pub keepalive : ℕ
  pub timeout : ℕ
  pub mem_limit : ℕ

-- `check_file`
abbrev pub check_file : Option File → Code
check_file none = err_bad_fd
check_file (some f) = if f.failed then err_bad_fd else success

-- `resolves` tells whether `getaddrinfo` finds the address.
module _ {Addr : Type 0} (resolves : Addr → Bool) where
  -- `check_addr`
  abbrev pub check_addr : Option Addr → Code
  check_addr none = err_invalid_addr
  check_addr (some a) = if resolves a then success else err_invalid_addr

  -- `hgap_check_config_receiver`
  unfoldable pub check_config_receiver : {D : Type 0} → Config Addr D → Code
  check_config_receiver c = elim (check_file c.output) [
    | success ↦ check_addr c.addr
    | _ ↦ err_bad_out_fd
  ]

  module _ (f : Floating) where
    open f use {Double, less, one_double}

    -- The checks of `hgap_check_config_sender` behind the address.
    abbrev pub check_rest : Config Addr Double → Code
    check_rest c = elim (check_file c.input) [
      | success ↦
          if ltb c.n_pkt 1 || ltb max_n_pkt c.n_pkt
          then err_bad_n_pkt
          else (if less c.redund one_double then err_bad_redund else success)
      | _ ↦ err_bad_in_fd
    ]

    -- `hgap_check_config_sender`
    unfoldable pub check_config_sender : Config Addr Double → Code
    check_config_sender c =
        if leb c.pkt_size header_len
        then err_mtu_too_small
        else (if ltb max_pkt_size c.pkt_size
            then err_mtu_too_big
            else elim (check_addr c.addr) [ success ↦ check_rest c | code ↦ code ])

-- `hgap_defaults`, on a pointer that may be NULL. The standard streams and the two constants of type
-- `double` (1.2 and 0) are arguments.
unfoldable pub defaults :
    {Addr D : Type 0} → File → File → D → D → Option (Config Addr D) → Option (Config Addr D) × Code
defaults stdin stdout redund byterate none = (none, err_no_config)
defaults stdin stdout redund byterate (some c) = (
  some (record {
    input = some stdin;
    output = some stdout;
    n_pkt = 1000;
    pkt_size = 1400;
    redund = redund;
    addr = none;
    port = 11011;
    byterate = byterate;
    keepalive = 500;
    timeout = 1000000;
    mem_limit = 104857600;
  }),
  success,
)
