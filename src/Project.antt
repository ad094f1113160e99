-- ===== src/Project.antt =====
-- What belongs to the current project of the browser and what a late answer of the server may
-- still change: `Scope` is frontend/src/hooks/useProjectScope.ts, `Session` the remote rendering of
-- frontend/src/hooks/useRemoteSession.ts, `Polling` the jobs of frontend/src/hooks/useJobPolling.ts.
pub mod Scope
pub mod Session
pub mod Banners
pub mod Resources
pub mod Pipelines
pub mod Polling
mod ResourceTests
mod Tests
