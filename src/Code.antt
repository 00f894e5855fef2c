-- ===== src/Code.antt =====
-- The result codes of src/lib/hairgap.h, their selection (src/lib/common.h) and their texts
-- (src/lib/error.c).
pub mod Selection
use Prim.Native.String.{String}
use hairgap.Prelude.{ltb, ◌==◌, if◌then◌else◌, ℕ}

-- The enumeration of hairgap.h.
pub data Code : Type 0 where
  success eot err_no_config err_mtu_too_small err_mtu_too_big err_invalid_addr : Code
  err_bad_fd err_bad_in_fd err_bad_out_fd err_file_read err_bad_n_pkt err_bad_redund : Code
  err_wirehair_error err_buffer_too_small err_incomplete_chunk err_bad_chunk err_bad_pkt : Code
  err_timeout err_network err_ipc err_internal : Code

-- Its values, as the compiler numbers them.
abbrev pub to_int : Code → ℕ
to_int success = 0
to_int eot = 1
to_int err_no_config = 2
to_int err_mtu_too_small = 3
to_int err_mtu_too_big = 4
to_int err_invalid_addr = 5
to_int err_bad_fd = 6
to_int err_bad_in_fd = 7
to_int err_bad_out_fd = 8
to_int err_file_read = 9
to_int err_bad_n_pkt = 10
to_int err_bad_redund = 11
to_int err_wirehair_error = 12
to_int err_buffer_too_small = 13
to_int err_incomplete_chunk = 14
to_int err_bad_chunk = 15
to_int err_bad_pkt = 16
to_int err_timeout = 17
to_int err_network = 18
to_int err_ipc = 19
to_int err_internal = 20

-- HGAP_SELECT_ERROR, on the values.
unfoldable pub select_error : ℕ → ℕ → ℕ
select_error e1 e2 =
    if e1 == to_int success
    then e2
    else (if e2 == to_int success then e1 else (if ltb e1 e2 then e1 else e2))

-- `hgap_err_str`. Its default text serves HGAP_ERR_INTERNAL. The texts are those of error.c, with STR(x) expanded to
-- the macro's own text.
unfoldable pub err_str : Code → String
err_str success = "Success"
err_str eot = "End of transfer"
err_str err_no_config = "No configuration passed (logic error)"
err_str err_mtu_too_small = "MTU too small (should be more than sizeof(struct hgap_header))"
err_str err_mtu_too_big = "MTU too big (> 1500)"
err_str err_invalid_addr = "Invalid address or host"
err_str err_bad_fd = "Bad file descriptor"
err_str err_bad_in_fd = "Bad input file descriptor"
err_str err_bad_out_fd = "Bad output file descriptor"
err_str err_file_read = "Error while reading input file"
err_str err_bad_n_pkt = "Bad number of packets per chunk (should be < 64000)"
err_str err_bad_redund = "Bad redundancy, should be >= 1.0"
err_str err_wirehair_error = "Error correction engine (wirehair) error"
err_str err_buffer_too_small = "Buffer too small"
err_str err_incomplete_chunk = "Chunk could not be reassembled (probably too many lost packets)"
err_str err_bad_chunk = "Invalid chunk (probably too big)"
err_str err_bad_pkt = "Invalid packet (probably too small)"
err_str err_network = "Unspecified network error"
err_str err_timeout = "Receive socket probably timed out"
err_str err_ipc = "Internal (IPC) error"
err_str err_internal = "Unknown error"
