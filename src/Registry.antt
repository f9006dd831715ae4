-- ===== src/Registry.antt =====
-- Who is connected: the publishers of the streams (src/core/SLSMapPublisher.cpp), their players
-- (src/core/SLSPlayerRegistry.cpp), the roles on their way to a worker (src/core/SLSRoleList.cpp)
-- and the names of sessions (src/core/SLSSessionTracker.cpp).
pub mod Publishers
pub mod Players
pub mod Roles
pub mod Sessions
