-- ===== src/Client.antt =====
-- What the session manager keeps of a client (mate-session/gsm-client.c and .h, and of its two
-- kinds, mate-session/gsm-xsmp-client.c and gsm-dbus-client.c) and of an application that it
-- starts (mate-session/gsm-app.c). An object path is a fixed text with a serial number; the model
-- takes the number for the path.
pub mod Dbus
use mate_session_manager.Base.{
  ℕ, ◌+◌, ◌%◌, Bool, Option, none, some, String, if◌then◌else◌, ltb, is_string_empty, dup_or_empty,
  strcmp_eq, false,
}

pub data Status : Type 0 where
  unregistered registered finished failed : Status

pub data RestartStyle : Type 0 where
  never if_running anyway immediately : RestartStyle

-- `GSM_IS_DBUS_CLIENT`, `GSM_IS_XSMP_CLIENT`.
pub data Kind : Type 0 where
  dbus xsmp : Kind

pub record Client : Type 0 where
  pub id : ℕ
  pub kind : Kind
  pub startup_id : Option String
  pub app_id : Option String
  pub app_name : Option String
  pub bus_name : Option String
  pub status : Status
  pub restart_style_hint : RestartStyle

-- The counter after `get_next_client_serial`, which returns the counter before.
unfoldable pub next_client_serial : ℕ → ℕ
next_client_serial n = if ltb ((n + 1) % 4294967296) 2147483648 then (n + 1) % 4294967296 else 1

unfoldable pub set_status : Status → Client → Client
set_status status c = record c { status = status }

unfoldable pub set_app_id : Option String → Client → Client
set_app_id app_id c = record c { app_id = dup_or_empty app_id }

-- `gsm_dbus_client_new`, with the serial number of its path.
unfoldable pub new_dbus : ℕ → String → Option String → Client
new_dbus serial startup_id bus_name = record {
  id = serial;
  kind = dbus;
  startup_id = some startup_id;
  app_id = some "";
  app_name = none;
  bus_name = bus_name;
  status = unregistered;
  restart_style_hint = never;
}

abbrev pub is_dbus : Client → Bool
is_dbus c = elim c.kind [ dbus ↦ Bool.true | xsmp ↦ false ]

-- The bus name of a client for an inhibitor: XSMP clients have none.
unfoldable pub dbus_name : Client → Option String
dbus_name c = if is_dbus c then c.bus_name else none

-- The application's name for an inhibitor: XSMP clients have no `app_id` unless they were started.
unfoldable pub inhibitor_app_id : Client → Option String
inhibitor_app_id c = if is_string_empty c.app_id then c.app_name else c.app_id

-- `_find_by_startup_id` and `_client_has_startup_id` of mate-session/gsm-manager.c.
unfoldable pub has_startup_id : String → ℕ → Client → Bool
has_startup_id startup key c = elim c.startup_id [
  | none ↦ false
  | some s ↦ if is_string_empty (some s) then false else strcmp_eq startup s
]
