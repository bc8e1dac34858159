-- ===== src/Gateway.antt =====
-- app/src/main.c: the gateway program. `Args` and `Options` are about the command line, `Resources`
-- about what the program holds, `Startup` and `Teardown` about the order in which it opens, starts,
-- stops, joins and closes, `Trial` about its test run, `Main` about the whole. Messages and the heartbeat, which only logs,
-- are left out.
pub mod Args
pub mod Options
pub mod Resources
pub mod Startup
pub mod Teardown
pub mod Trial
pub mod Main
pub mod Collect
pub mod Readings
pub mod Collected
pub mod Mocks
pub mod Pipeline
mod Fixture
mod PipelineTests
mod Tests
