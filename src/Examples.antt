-- ===== src/Examples.antt =====
-- Small sessions on which the theorems are tried: one application of the panel phase, one D-Bus
-- client, and runs of the handlers of mate-session/ on them.
mod Sessions
mod Clients
mod Presences
mod Apps
mod Saves
mod Dialogs
mod Edits
mod Buses
mod Directories
mod Objections
mod Callers
