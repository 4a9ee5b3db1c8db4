-- ===== src/App/Ios.antt =====
-- The iOS app, under iOS/StudyHours/StudyHours.
pub mod Record
pub mod Observer
pub mod Phone
pub mod Protocol
pub mod Invariant
pub mod Answers
pub mod Runs
pub mod History
pub mod Listed
pub mod Shown
pub mod Login
pub mod Races
