-- ===== src/Lib.antt =====
-- A model of the SRT live server's core, and what it guarantees.
--
-- The server takes MPEG-TS over SRT from publishers and hands it to viewers. A publisher's reads end in
-- `CSLSMapData::put`, which checks the continuity of the transport stream, looks for in-band timecode
-- and writes the bytes to the stream's ring; every viewer reads that ring through `CSLSMapData::get`
-- with a cursor of its own.
--
-- The parts, by file:
-- - Ring: `CSLSRecycleArray` (src/core/SLSRecycleArray.hpp, .cpp), the ring of bytes. The record `Ring`
--   is the object, `ReadId` the cursor (`SLSRecycleArrayID`); `put`, `get`, `set_size` and the gauges
--   are the methods. Ring/Inv says what it is for a ring to hold a stream and for a reader to stand in
--   it; Ring/Put and Ring/Drain are about the two transfers, Ring/Stream about whole schedules of calls,
--   Ring/Torn about a viewer that joins in the middle of a put, Ring/Gauges about the backlog and
--   `setSize`.
-- - Ts and Ts/Continuity: the packet header and `sls_ts_check_continuity` (src/core/common.cpp).
--   Ts/Continuity/Tracking compares it with a checker of unbounded memory, Ts/Continuity/Chunks is
--   about the cut into chunks.
-- - Timecode: src/core/SLSTimecode.hpp and .cpp, from the bit reader (Bits) over the removal of
--   emulation-prevention bytes (Rbsp), the H.264 SPS (Sps), the SEI payloads (Sei) and the PAT and PMT
--   (Psi) to the access-unit accumulator and the packet loop (Scan).
-- - MapData: `CSLSMapData` (src/core/SLSMapData.hpp, .cpp), the rings, continuity states and scanners of
--   all streams and the budget on rings; MapData/Stats holds the polls. MapData/Budget and
--   MapData/Relay show that the methods keep the budget's counters right, MapData/Reachable has the
--   step relation of all calls, MapData/Caps the guardrails of `add`, MapData/Streams the independence
--   of the streams and the way of a chunk into its ring.
-- - Sid: src/core/sls_sid.cpp and the string helpers of src/core/common.cpp behind it: the id that a client
--   sends, its canonical key and the listen callbacks. Sid/Canonical is about the key, Sid/Refusal about
--   the callbacks. The publishers' callback asks AuthRejectCache (src/core/auth_reject_cache.cpp), of
--   which AuthRejectCache/Blocking says whom it blocks and for how long.
-- - BitrateLimit: `CSLSBitrateLimit` (src/core/SLSBitrateLimit.hpp, .cpp). BitrateLimit/Window is about the
--   running total, BitrateLimit/Verdict about the decision to disconnect.
-- - Idle: `sls_should_reap_role` (src/core/sls_idle.hpp).
-- - LogRateLimiter: `CSLSLogRateLimiter` (src/core/SLSLogRateLimiter.hpp, .cpp); LogRateLimiter/Rate
--   counts the lines that it lets through.
-- - ByteQueue: `CSLSArray` (src/core/SLSArray.hpp, .cpp). ByteQueue/Fifo says what it is for it to hold
--   bytes, ByteQueue/Script compares it with a plain queue, ByteQueue/Growth is about a buffer that grows.
-- - SyncClock: `CSLSSyncClock` (src/core/SLSSyncClock.hpp, .cpp), and its pace.
-- - Pes: `sls_parse_ts_info` of src/core/common.cpp. Pes/Reads has reads that may fail, Pes/Bounds shows
--   that none does, Pes/Pts is about the time stamps.
-- - Registry: who is connected. Registry/Publishers is `CSLSMapPublisher` (src/core/SLSMapPublisher.cpp),
--   Registry/Players `CSLSPlayerRegistry` (src/core/SLSPlayerRegistry.cpp), Registry/Roles `CSLSRoleList`
--   (src/core/SLSRoleList.cpp) and Registry/Sessions `CSLSSessionTracker` (src/core/SLSSessionTracker.cpp);
--   their children are about sequences of calls.
-- - PushUrl: `validate_push_url` (src/core/SLSPushUrlValidator.hpp, .cpp), with the template of the URL
--   (PushUrl/Template), the categories of addresses (PushUrl/Address) and what an accepted URL is
--   (PushUrl/Vetting). The record `Net` has the code outside of the repository.
-- - Relay: the managers of src/core/SLSRelayManager.cpp, SLSPullerManager.cpp and SLSPusherManager.cpp.
--   Relay/Url has the URLs, Relay/Loop the loop over the upstreams, Relay/Manager what they share, and
--   the record `Hub` the registries and the stream map that they act on; Relay/Puller and Relay/Pusher
--   are the two managers, Relay/MapRelay is `CSLSMapRelay` (src/core/SLSMapRelay.cpp), which makes them.
--   Relay/Encoding, Relay/Reach, Relay/Joining, Relay/Whole, Relay/Queue and Relay/Lasting are about them.
-- - Role: `CSLSRole` (src/core/SLSRole.hpp, .cpp), the object of a connection. The record `Role` is the
--   object, of which `calls` logs what it asks of the SRT and HTTP libraries, and `World` is what these
--   answer. Role/Webhook is the authorization (`on_connect`, `check_http_passed`), Role/Reading
--   `handler_read_data`, Role/Writing `handler_write_data`, Role/Session the calls that the worker of
--   src/core/SLSGroup.cpp makes of a publisher and of a viewer. Role/Packets, Role/Fetching and Role/Delivery
--   are about what reaches a viewer, Role/Waiting and Role/Gate about a publisher without a grant, Role/Teardown and Role/Socket
--   about the end of a socket; Role/Frame says what the authorization leaves alone.
-- - PlayerKey: the player keys of `CSLSListener` (src/core/SLSListenerAuth.cpp). The record `Listener` has
--   its members for them, `Library` the regular expression and the JSON library. PlayerKey/Cache is the
--   cache, PlayerKey/Limit the limit by address, PlayerKey/Validation `validate_player_key` and the answers,
--   PlayerKey/Steps the calls in any order. PlayerKey/Entries, PlayerKey/Limits and PlayerKey/Room are about
--   the number of entries, PlayerKey/Rate and PlayerKey/Requests the requests of an address,
--   PlayerKey/Granting, PlayerKey/Keeping and PlayerKey/Admission about where a valid entry comes from.
-- - Conf: the values of a configuration line (src/core/conf.cpp): words, numbers and, in Conf/Ports, port
--   lists. Conf/Valid is about the ports that a server binds.
-- - Prelude: shared names, tests, lists, signed integers, bytes and maps. Tests: concrete inputs.
--
-- Conventions. A method takes its object and returns the new one beside its result. Time, ring
-- identities and buffers are arguments. Counters of 32 or 64 bits are bit patterns that wrap, read as
-- signed numbers where the source compares them. Each call is one step: the source takes a lock around
-- it. A put of the ring is two, `write_in` under the lock and `count_put`, which raises the counter behind
-- the lock: Ring/Stream has other viewers' calls between them, Ring/Torn a viewer that joins between them.
-- Elsewhere (`MapData.put`) a put is one step. Log output is left out.
--
-- Fuel. `scan_sei` gets one more than the length of the payload, which its message loop cannot use up,
-- since each message takes two bytes or more; `scan_prefix` gets the length of the prefix, of which
-- each round drops at least one byte; `first_video` gets the length of the section, of which each
-- entry takes five bytes; `digits` gets ten, the digits of an `int`, and `decimal` the 19 of an `int64_t`;
-- `pat_entries` gets the end of its loop, of which each round takes four; `lists_scheme` gets one more
-- than the length of its list; `try_from` gets the number of upstreams; `write_packets` gets one
-- more than the bytes that are staged, of which each round takes 1,316.
--
-- Not modelled: sockets, epoll, threads and files (calls of the operating system and of libsrt), the
-- HTTP client, log output, the assertion of the debug build on the thread that closes a socket, and
-- so far the rest of the listener, the sockets of the relays, the end of a publisher with
-- its push relays, recorded files and the block structure of the configuration.
pub mod Prelude
pub mod Ring
pub mod Ts
pub mod Timecode
pub mod MapData
pub mod AuthRejectCache
pub mod BitrateLimit
pub mod Idle
pub mod LogRateLimiter
pub mod Sid
pub mod Tests
pub mod ByteQueue
pub mod Conf
pub mod Role
pub mod PlayerKey
pub mod Pes
pub mod Registry
pub mod SyncClock
pub mod PushUrl
pub mod Relay
