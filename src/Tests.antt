-- ===== src/Tests.antt =====
-- Runs of the properties on small nodes, spaces, pipes and clients (src/p2pmd, src/tsd,
-- src/shared_memory, src/ts, src/parser).
mod Samples
mod SpaceSamples
mod TableSamples
mod Ring
mod Timers
mod Space
mod Pipe
mod Dispatch
mod Client
mod Config
mod Spaces
mod Tsd
mod File
