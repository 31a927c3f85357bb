-- ===== src/Tests.antt =====
-- Runs of the code on concrete inputs, and the theorems at concrete inputs.
mod NetTests
mod SessionTests
mod SocksTests
mod Fixtures
mod ServerTests
mod ClientTests
mod OutboundTests
mod DnsTests
mod ConfigTests
mod ConversationTests
mod ProgramTests
mod LoadingTests
mod ModuleTests
mod SecureTests
mod StartupTests
mod PoolTests
