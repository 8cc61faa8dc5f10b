-- ===== src/Generation.antt =====
-- src/graph/generation: code that builds graphs from graphs, on directed graphs.
pub mod Predecessor
pub mod Union
