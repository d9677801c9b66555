-- ===== src/Wiring.antt =====
-- app/keepers: the store keys, the parameter subspaces, and the order in which `NewAppKeeper` builds
-- the keepers from one another.
pub mod State
pub mod Keys
pub mod Env
pub mod Build
pub mod Precompiles
pub mod Runs
pub mod Laws
pub mod Routes
pub mod Tests
