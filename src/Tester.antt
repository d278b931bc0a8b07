-- ===== src/Tester.antt =====
-- servermore-tester: the terminal program that deploys test functions and keeps requests running.
pub mod Text
pub mod Deployment
pub mod Ui
pub mod Keys
pub mod Update
pub mod Entries
pub mod Sound
pub mod Runs
pub mod History
pub mod Shutdown
pub mod Stuck
pub mod Lost
pub mod Worker
pub mod Balance
pub mod Spin
pub mod Log
pub mod Port
pub mod PortPrint
pub mod Stack
pub mod Container
mod Tests
