-- ===== src/Client.antt =====
-- The functions of src/ieeeC37_118/ieeeC37_118.h on a client.
pub mod Session
pub mod SessionLaws
pub mod DestroyLaws
pub mod Calls
pub mod Sound
pub mod Reach
pub mod Calendars
pub mod FreedCalendars
pub mod Leak
pub mod Safe
pub mod TypedCalls
pub mod Typed
pub mod Stream
pub mod StreamLaws
pub mod LoopLaws
pub mod Steady
pub mod Answers
pub mod RefusalLaws
pub mod Query
pub mod ConfRoom
pub mod ConfLaws
pub mod QueryLaws
pub mod Output
pub mod Written
pub mod OutputLaws
