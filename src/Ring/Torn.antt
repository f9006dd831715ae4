-- ===== src/Ring/Torn.antt =====
-- A viewer of SLSRecycleArray.cpp that joins in the middle of a put: behind the lock, before the counter.
use irl_srt_server.Ring.{Ring}
