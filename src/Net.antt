-- ===== src/Net.antt =====
-- net/net.c: the network stack over one NIC. The children: byte order and checksums, dotted
-- addresses, the ARP cache, and the frames that are sent and answered.
pub mod Words
pub mod Checksum
pub mod Dotted
pub mod Arp
pub mod Frames
pub mod Send
pub mod Echo
pub mod Overflow
mod Tests
