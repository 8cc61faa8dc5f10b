-- ===== src/Tests.antt =====
-- Runs of the models on small inputs, and the theorems at inputs that meet their hypotheses.
mod Graphs
mod AdjListTests
mod IndependentSetTests
mod MatchingTests
mod RewiringTests
mod SharedMapTests
mod GraphInterfaceTests
mod UndirectedTests
mod AugmentTests
mod ParallelTests
mod PropertyMapTests
mod GenerationTests
mod GraphCopyTests
mod ReciprocityTests
mod SubgraphTests
