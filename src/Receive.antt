-- ===== src/Receive.antt =====
-- The threads of src/lib/hgap_receive.c.
pub mod Decloop
pub mod Events
pub mod Stream
pub mod Transfer
pub mod Truncated
pub mod Hollow
pub mod Writer
pub mod Output
pub mod Network
pub mod Forwarding
pub mod Socket
pub mod Reader
