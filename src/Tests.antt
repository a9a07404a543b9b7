-- ===== src/Tests.antt =====
-- Concrete runs of the models, and the theorems at concrete inputs.
pub mod Cache
pub mod Core
pub mod Database
pub mod Http
pub mod Network
pub mod Reader
pub mod Servers
pub mod Service
pub mod Tcp
pub mod Utils
pub mod Listener
pub mod Traffic
pub mod Answers
pub mod Monitor
pub mod Logger
