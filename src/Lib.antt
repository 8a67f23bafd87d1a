-- ===== src/Lib.antt =====
-- mate-session-manager: the program that starts a desktop session, keeps track of its clients, and
-- ends it with their consent.
--
-- The parts and where they are:
--   Store          mate-session/gsm-store.c: a table of objects by identifier with signals. The table
--                  is an association list in the order of its visits; each operation returns the
--                  signals that it emits.
--   Presence       mate-session/gsm-presence.c: the status of the user, the idle watch (Idle) and the
--                  memory of the status text (StatusText).
--   Inhibitor      mate-session/gsm-inhibitor.c: a record, with the tests that the manager makes.
--   Xsmp           mate-session/gsm-xsmp-client.c: the SaveYourself protocol with one client, its
--                  queue of one (Queue), the client's properties (Properties) and the text of its
--                  commands, against the words that are read back (Command).
--   Autostart      mate-session/gsm-autostart-app.c: an application that a desktop file describes, its
--                  condition (Parse, Conditions) and its process (Launch).
--   LogoutDialog   mate-session/gsm-logout-dialog.c: the buttons and the countdown.
--   IdleMonitor    mate-session/gs-idle-monitor.c: the watches of the idle time, the values of 64 bits
--                  (Values) and the alarms of the X server (Sound).
--   SessionSave    mate-session/gsm-session-save.c, with the two directories of gsm-util.c.
--   Util           mate-session/gsm-util.c: directories, and the search for a desktop file.
--   Preferences    capplet/gsp-app.c: an autostart file as the preferences dialog edits and saves it;
--                  capplet/gsp-app-manager.c: the directories that the files are in (AppManager).
--   Services       mate-session/gsm-consolekit.c and gsm-systemd.c: the connection that both keep
--                  (Contract, History), what is asked of each (Consolekit, Systemd), how an attempt
--                  comes out (Completion), the sessions of the user (Sessions) and what the logout
--                  dialog learns (Seats).
--   InhibitDialog  mate-session/gsm-inhibit-dialog.c: the rows of the dialog and its responses.
--   Startup        mate-session/main.c: the applications that a session begins with.
--   Client         mate-session/gsm-client.c: a record and its setters; gsm-dbus-client.c: what a client
--                  on D-Bus is sent (Dbus, Errors), and whose answers are taken (Answers).
--   Manager        mate-session/gsm-manager.c, by its parts:
--     Types        the private state, the phases, and `Effect`, what is done to the outside.
--     Queries      `gsm_manager_is_*_inhibited` and `update_idle`.
--     Phases       `start_phase`, `end_phase` and what each phase does; `gsm_manager_quit`.
--     Dialogs      the inhibit dialog's answers, `cancel_end_session`, and removals of inhibitors,
--                  which may make the dialog (mate-session/gsm-inhibit-dialog.c) answer by itself.
--     EndSession   the query of the clients, `_handle_client_end_session_response`, cookies.
--     Clients      registration, disconnection, restart and conditions of applications.
--     Inhibit      the methods `Inhibit` and `Uninhibit`.
--     Requests     logout, shutdown and the like, from programs and from the logout dialog.
--     Apps         the applications to start, as they are added from autostart files.
--     Events       what may happen while the main loop waits, as one step function, and a session as
--                  a list of such events; changes of settings, and XSMP clients that connect or
--                  change their properties, are not among them.
--   Base           shared names, tests on numbers, lists and nullable strings.
--   Examples       small states on which the theorems are tried.
--
-- How they interact: the manager owns a store of clients, one of inhibitors and one of applications,
-- and hears their signals; a handler runs to its end before the next event, so a handler is a
-- function from state to state. A change of the inhibitors updates the presence and may make the open
-- inhibit dialog answer, within the same handler. What the outside answers while a handler runs
-- (settings, D-Bus services, whether a message could be sent) is the record `World`; what is
-- done to the outside is the list `effects`. Object paths are taken for the serial numbers in
-- them, D-Bus errors are values, and a serial number keeps the wrap-around of its 32 bits.
--
-- The manager sees a client as a record of `Client`; what an XSMP client does with the manager's
-- calls is the module Xsmp, whose responses are the answers that `EndSession` hears. The numbers
-- of X11/SM/SM.h are a parameter there (`SmLib`), with their documented values as a hypothesis.
--
-- Fuel: `end_phase` and `start_phase` call each other; each round goes one phase on and there are
-- ten, so `end_phase` has fuel 10. The loop that draws cookies has as many rounds as the
-- record `World` says.
--
-- What stands outside and is a parameter: what the parser of desktop files says, files, settings and
-- processes (`DesktopFile`, `Surroundings`, `System` of Autostart.Launch); the seat of the user
-- (`System` of LogoutDialog); the alarms that the X server gives; and what can be made, written and
-- unlinked while the session is saved (`System` of SessionSave). The manager keeps its own record
-- of an application, of which `Autostart.view` gives the parts.
--
-- The answers of the system bus and of libsystemd are the records `Bus` and `Logind` of Services; that
-- libdbus sets an error with each NULL reply is in the type of a reply. The manager itself takes
-- the answers of the services from its own `World`.
--
-- Not modelled: the parser of desktop files, the ICE transport, the widgets, the D-Bus transport, the
-- display manager's protocol, the widgets of the preferences dialog and the tools, which are files,
-- sockets and widgets. A process that a phase starts is a parameter (`app_starts`).
pub mod Base
pub mod Store
pub mod Presence
pub mod Inhibitor
pub mod Client
pub mod Xsmp
pub mod Manager
pub mod Autostart
pub mod LogoutDialog
pub mod IdleMonitor
pub mod SessionSave
pub mod Util
pub mod Preferences
pub mod Services
pub mod InhibitDialog
pub mod Startup
pub mod Examples
