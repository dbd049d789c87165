-- ===== src/Config.antt =====
-- The configuration frame of src/ieeeC37_118/ieeeC37_118.c: `prepareConfiguration` and the three functions
-- that it fills the arrays of a PMU with, and `parseConfigurationFrame`.
pub mod Prepare
pub mod Spec
pub mod Leaves
pub mod Arrays
pub mod Block
pub mod Rounds
pub mod Read
pub mod Sized
pub mod TypedArrays
pub mod Typed
pub mod Overrun
pub mod Received
pub mod Frame
