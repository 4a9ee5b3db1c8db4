-- ===== src/App/Android.antt =====
-- The Android app, under Android/Frontend/app/src/main/java/com/example/studyhours.
pub mod Stopwatch
pub mod Rotation
pub mod Submit
pub mod Recorded
pub mod Submission
pub mod Races
pub mod Rounds
pub mod History
pub mod Listed
pub mod Shown
pub mod Accounts
pub mod Sisters
pub mod Opened
pub mod SignInScreen
pub mod Waiting
pub mod Navigation
