-- ===== src/Tests.antt =====
-- Concrete runs: each theorem at an input that meets its hypotheses.
mod World
mod SupervisorRuns
mod TaskRuns
mod DbRuns
mod ReapRuns
mod ProxyRuns
mod StreamRuns
mod StoreRuns
mod JobRuns
mod CacheRuns
mod ListingRuns
mod StatsRuns
mod PveRuns
mod SystemRuns
mod StartupRuns
