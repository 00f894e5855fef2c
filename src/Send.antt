-- ===== src/Send.antt =====
-- The sender of src/lib/hgap_send.c: the threads that cut the input into chunks, encode them and send
-- their packets.
pub mod Reader
pub mod Cutting
pub mod Failing
pub mod Preparing
pub mod Numbering
pub mod Sender
pub mod Groups
pub mod Rounds
pub mod Bursts
pub mod Loop
pub mod Sending
