-- ===== src/DataFrame.antt =====
-- The data frame of src/ieeeC37_118/ieeeC37_118.c: `parseSTATWord` and `parseDataFrame`.
pub mod Stat
pub mod Values
pub mod Pmu
pub mod Frame
pub mod Spec
pub mod Arrays
pub mod Received
pub mod Whole
pub mod Accept
pub mod Sized
pub mod TypedValues
pub mod Typed
pub mod Layout
pub mod Kept
pub mod Dated
pub mod StatLaws
pub mod Limits
pub mod Ready
pub mod Session
pub mod Room
pub mod Total
pub mod Safe
