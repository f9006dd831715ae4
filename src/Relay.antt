-- ===== src/Relay.antt =====
-- The relays: the managers that pull a stream from other servers and push it to them
-- (src/core/SLSRelayManager.cpp, SLSPullerManager.cpp and SLSPusherManager.cpp), and the URLs that
-- they connect to. What `CSLSRelay::open` returns depends on the network and is an argument.
pub mod Url
pub mod Encoding
pub mod Loop
pub mod Reach
pub mod Manager
pub mod Puller
pub mod Joining
pub mod Whole
pub mod Pusher
pub mod Queue
pub mod MapRelay
pub mod Lasting
