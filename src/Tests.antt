-- ===== src/Tests.antt =====
-- Examples of the theorems on the platform and the frames of Tests/Fixture.
mod Fixture
mod Wire
mod Frames
mod Values
mod Calls
mod More
mod Life
mod Safety
mod Run
mod Typed
mod Leak
