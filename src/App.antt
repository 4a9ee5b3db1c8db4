-- ===== src/App.antt =====
-- The two apps, iOS/StudyHours/StudyHours and Android/Frontend, over the Firebase node that they share.
pub mod Text
pub mod Node
pub mod Database
pub mod Ledger
pub mod Leaves
pub mod Nodes
pub mod Dict
pub mod Listing
pub mod Steps
mod Sample
mod SampleDatabase
mod SampleLedger
pub mod Ios
pub mod Android
pub mod SignUp
pub mod NewAccount
pub mod Bounds
pub mod Thresholds
pub mod Journey
mod Examples
mod ClientExamples
mod JourneyExamples
