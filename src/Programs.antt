-- ===== src/Programs.antt =====
-- `hgap_send` of src/lib/hgap_send.c and `hgap_receive` of src/lib/hgap_receive.c with their threads:
-- what the three threads of each do, and what the calls return behind them.
pub mod Sender
pub mod Sent
pub mod Receiver
pub mod Received
pub mod Landed
pub mod Diode
pub mod Broken
pub mod Interrupted
pub mod Transmission
pub mod Wire
