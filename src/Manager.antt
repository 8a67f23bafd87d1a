-- ===== src/Manager.antt =====
-- mate-session/gsm-manager.c: the session manager.
pub mod Types
pub mod Queries
pub mod Phases
pub mod Dialogs
pub mod EndSession
pub mod Clients
pub mod Inhibit
pub mod Requests
pub mod Apps
pub mod Events
