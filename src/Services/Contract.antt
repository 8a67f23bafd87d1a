-- ===== src/Services/Contract.antt =====
-- What `ensure` promises, whichever the service (mate-session/gsm-consolekit.c, gsm-systemd.c).
use mate_session_manager.Base.{
  ℕ, ◌≡◌, Bool, true, false, bool_eq, not, ◌&&◌, ◌||◌, Option, none, some, List, ◌∷◌, arith,
  if◌then◌else◌,
}
use mate_session_manager.Services.{Connection, Bus, Event, notify, ensure, free_dbus}
use mate_session_manager.Services.Consolekit
use mate_session_manager.Services.Systemd

abbrev pub or_else : Option ℕ → Option ℕ → Option ℕ
or_else none o = o
or_else (some e) o = some e

-- The error in making what is missing.
abbrev missing : Bool → Option ℕ → Option ℕ
missing true o = none
missing false o = o

-- The first of what is missing that cannot be made.
abbrev pub first_error : Bus → Connection → Option ℕ
first_error b c =
    or_else (missing c.dbus_connection b.bus_get)
      (or_else (missing c.bus_proxy b.new_bus_proxy) (missing c.proxy b.new_proxy))

abbrev pub is_none : Option ℕ → Bool
is_none none = true
is_none (some e) = false

-- No pointer is set without those that it is made from.
abbrev pub chained : Bool → Bool → Bool → Bool
chained connection bus_proxy proxy = (not proxy || bus_proxy) && (not bus_proxy || connection)

abbrev noted : Bool → Bool → List Event → List Event
noted before now log = if bool_eq before now then log else notify now ∷ log

-- Take a connection of which no pointer is set without those that it is made from. The call fails
-- exactly with the first error in making what is missing; the property is then whether it
-- succeeded, and a notification is given exactly if that is new; nothing else is done to the
-- outside. It succeeds exactly if all three pointers are set afterwards, and after a failure, too,
-- none is set without those that it is made from.
pub ensure_lem :
    (b : Bus) (c : Connection)
    → chained c.dbus_connection c.bus_proxy c.proxy ≡ true
    → let (d, e) = ensure b c in
      (e ≡ first_error b c)
      × (d.is_connected ≡ is_none e)
      × (d.log ≡ noted c.is_connected (is_none e) c.log)
      × (chained d.dbus_connection d.bus_proxy d.proxy ≡ true)
      × (is_none e ≡ (d.dbus_connection && (d.bus_proxy && d.proxy)))
unfolding ensure
ensure_lem b c h = ground arith

-- The bus goes away while the connection stands: both filters drop every pointer, and the property
-- still says that there is a connection, without a notification. If the next use finds the
-- bus again nobody is told, though the proxy is a new one.
pub disconnect_unseen :
    (b : Bus) (c : Connection)
    → c.is_connected ≡ true
    → first_error b (free_dbus c) ≡ none
    → let d = (Consolekit.dbus_filter true c).0 in
      (d ≡ (Systemd.dbus_filter true c).0)
      × (d.dbus_connection ≡ false)
      × (d.proxy ≡ false)
      × (d.is_connected ≡ true)
      × (d.log ≡ c.log)
      × ((ensure b d).0.log ≡ c.log)
unfolding ensure Consolekit.dbus_filter Systemd.dbus_filter
disconnect_unseen b c h e = ground arith
