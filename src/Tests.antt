-- ===== src/Tests.antt =====
-- The theorems at concrete inputs.
mod RingTests
mod TsTests
mod TimecodeTests
mod MapDataTests
mod LimitTests
mod SidTests
mod LogTests
mod QueueTests
mod PesTests
mod RegistryTests
mod PushUrlTests
mod RelayTests
mod ConfTests
mod MapRelayTests
mod RoleTests
mod PlayerKeyTests
