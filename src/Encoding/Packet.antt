-- ===== src/Encoding/Packet.antt =====
-- The data packets of one chunk, as they stand in the receiver's memory: the header, the payload,
-- and behind the bytes received whatever the slot held before.
use hairgap.Proto.{Header, header_len, first_reserved, header_bytes}
use hairgap.Proto.Layout.{InRange}
use hairgap.Prelude.{length, ℕ, ◌+◌, ◌^◌, ◌<◌, List, ◌++◌, arith}

pub record Piece : Type 0 where
  pub id : ℕ
  pub body : List ℕ
  pub stale : List ℕ

-- A chunk under way: its number, the bytes it carries, and the payload size of its packets.
pub record Parcel : Type 0 where
  pub num : ℕ
  pub message : List ℕ
  pub pay : ℕ

abbrev pub header_of : Parcel → ℕ → Header
header_of c id = record {
  chunk_num = c.num;
  chunk_size = length c.message;
  data_id = id;
  data_size = c.pay;
}

-- The memory that a packet arrives in, and the size received.
unfoldable pub wire : Parcel → Piece → List ℕ
wire c p = header_bytes (header_of c p.id) ++ (p.body ++ p.stale)

abbrev pub wire_size : Parcel → ℕ
wire_size c = c.pay + header_len

-- The bounds of a chunk that may be sent.
pub record IsParcel (c : Parcel) : Type 0 where
  pub unreserved : c.num < first_reserved
  pub size_fits : length c.message < 2 ^ 64
  pub pay_fits : c.pay < 2 ^ 32

pub header_of-InRange : {c : Parcel} {id : ℕ} → IsParcel c → id < 2 ^ 32 → InRange (header_of c id)
header_of-InRange v h = record {
  num = omega (arith, v.unreserved);
  size = v.size_fits;
  id = h;
  payload = v.pay_fits;
}
