-- ===== src/Inhibitor.antt =====
-- mate-session/gsm-inhibitor.c and .h: a request not to log out, switch users, suspend or go idle.
-- An object path is "/org/gnome/SessionManager/Inhibitor%u" with a serial number; the model
-- takes the number for the path.
use Prim.Native.Nat.{bit_and}
use mate_session_manager.Base.{
  ℕ, ◌+◌, ◌%◌, Bool, not, Option, none, some, String, if◌then◌else◌, ltb, ◌==◌, is_string_empty,
  strcmp_eq, false,
}

-- `GsmInhibitorFlag`.
abbrev pub flag_logout : ℕ
flag_logout = 1

abbrev pub flag_switch_user : ℕ
flag_switch_user = 2

abbrev pub flag_suspend : ℕ
flag_suspend = 4

abbrev pub flag_idle : ℕ
flag_idle = 8

-- `struct _GsmInhibitor`, less the D-Bus connection.
pub record Inhibitor : Type 0 where
  pub id : ℕ
  pub bus_name : Option String
  pub app_id : Option String
  pub client_id : Option ℕ
  pub reason : Option String
  pub flags : ℕ
  pub toplevel_xid : ℕ
  pub cookie : ℕ

-- The counter after `get_next_inhibitor_serial`, which returns the counter before.
unfoldable pub next_inhibitor_serial : ℕ → ℕ
next_inhibitor_serial n = if ltb ((n + 1) % 4294967296) 2147483648 then (n + 1) % 4294967296 else 1

-- `gsm_inhibitor_new` with the serial number of its path.
unfoldable pub new : ℕ → Option String → ℕ → ℕ → Option String → Option String → ℕ → Inhibitor
new serial app_id toplevel_xid flags reason bus_name cookie = record {
  id = serial;
  bus_name = bus_name;
  app_id = app_id;
  client_id = none;
  reason = reason;
  flags = flags;
  toplevel_xid = toplevel_xid;
  cookie = cookie;
}

-- `gsm_inhibitor_new_for_client`; its "toplevel-xid" is the default, 0.
unfoldable pub new_for_client :
    ℕ → ℕ → Option String → ℕ → Option String → Option String → ℕ → Inhibitor
new_for_client serial client_id app_id flags reason bus_name cookie = record {
  id = serial;
  bus_name = bus_name;
  app_id = app_id;
  client_id = some client_id;
  reason = reason;
  flags = flags;
  toplevel_xid = 0;
  cookie = cookie;
}

-- The tests that mate-session/gsm-manager.c hands to the store of inhibitors. The key of an
-- entry plays no part.
unfoldable pub has_flag : ℕ → ℕ → Inhibitor → Bool
has_flag flag key i = not (bit_and i.flags flag == 0)

unfoldable pub is_jit : ℕ → Inhibitor → Bool
is_jit key i = elim i.client_id [ none ↦ false | some _ ↦ Bool.true ]

unfoldable pub has_client_id : ℕ → ℕ → Inhibitor → Bool
has_client_id client key i = elim i.client_id [ none ↦ false | some c ↦ client == c ]

unfoldable pub has_bus_name : Option String → ℕ → Inhibitor → Bool
has_bus_name none key i = false
has_bus_name (some service) key i = elim i.bus_name [
  | none ↦ false
  | some name ↦
      if is_string_empty (some service)
      then false
      else if is_string_empty (some name)
      then false
      else strcmp_eq service name
]

unfoldable pub find_by_cookie : ℕ → ℕ → Inhibitor → Bool
find_by_cookie cookie key i = cookie == i.cookie
