-- ===== src/Pipeline.antt =====
-- A transfer from end to end: the threads of src/lib/hgap_send.c, a network that loses, repeats and
-- reorders packets, and the threads of src/lib/hgap_receive.c.
pub mod Arrivals
pub mod Flight
pub mod Onward
pub mod Transport
