-- ===== src/Timecode.antt =====
-- src/core/SLSTimecode.hpp and .cpp: the scanner that reads SMPTE timecode out of the publisher's
-- video, from the bit reader up to the transport packets.
pub mod State
pub mod Bits
pub mod Rbsp
pub mod Sps
pub mod Sei
pub mod Psi
pub mod Scan
