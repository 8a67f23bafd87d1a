-- ===== src/Services.antt =====
-- mate-session/gsm-consolekit.c and gsm-systemd.c: the clients of the two services that know about the
-- seat and turn the machine off. Both files keep their connection by the same code, which is
-- here; what each asks of its service is in Consolekit and Systemd. An error is the number of its
-- message.
pub mod Consolekit
pub mod Systemd
pub mod Contract
pub mod Completion
pub mod History
pub mod Sessions
pub mod Seats
use mate_session_manager.Base.{
  ℕ, Bool, true, false, bool_eq, not, ◌||◌, Option, none, some, List, [], ◌∷◌, String, strcmp_eq,
  if◌then◌else◌,
}

-- The argument of a method.
pub data Arg : Type 0 where
  flag : Bool → Arg
  text : String → Arg

-- The errors that "request-completed" carries: GSM_CONSOLEKIT_ERROR_RESTARTING and _STOPPING, and
-- those of systemd, with the message of the error that led to them.
pub data ServiceError : Type 0 where
  restarting stopping : ℕ → ServiceError

-- What is done to the outside. A call of the service and a message name the method and its arguments,
-- and whether the proxy, or the connection, that it is made on is there and not NULL.
pub data Event : Type 0 where
  notify : Bool → Event
  called : Bool → String → List Arg → Event
  sent : Bool → String → String → List Arg → Event
  request_completed : Option ServiceError → Event
  privileges_completed : Bool → Bool → Event

-- `GsmConsolekitPrivate` and `GsmSystemdPrivate`: whether each pointer is set (`proxy` is `ck_proxy` or
-- `sd_proxy`), with the latest event first.
pub record Connection : Type 0 where
  pub dbus_connection : Bool
  pub bus_proxy : Bool
  pub proxy : Bool
  pub is_connected : Bool
  pub log : List Event

-- The answer to a call with a result.
pub data Answer (A : Type 0) : Type 0 where
  failed : ℕ → Answer A
  answered : A → Answer A

-- The answer to a message: it could not be allocated, its reply is NULL, or it has a reply. libdbus sets
-- the error if the reply is NULL.
pub data Reply (A : Type 0) : Type 0 where
  unallocated refused : Reply A
  replied : A → Reply A

-- The system bus: the error with which the connection or a proxy cannot be made, if so, and the answers
-- to calls and messages.
pub record Bus : Type 0 where
  pub bus_get : Option ℕ
  pub new_bus_proxy : Option ℕ
  pub new_proxy : Option ℕ
  pub call : String → Option ℕ
  pub ask_bool : String → Answer Bool
  pub ask_text : String → Answer String
  pub message : String → String → List Arg → Reply String
  pub message_bool : String → String → Reply Bool

abbrev pub emit : Event → Connection → Connection
emit e c = record c { log = e ∷ c.log }

abbrev pub fresh : Connection
fresh = record {
  dbus_connection = false;
  bus_proxy = false;
  proxy = false;
  is_connected = false;
  log = [];
}

-- `gsm_consolekit_ensure_ck_connection` up to its label `out`, from the last pointer to the first.
abbrev pub open_proxy : Bus → Bool → Connection → Connection × Option ℕ
open_proxy b true c = (c, none)
open_proxy b false c = elim b.new_proxy [
  | none ↦ (record c { proxy = true }, none)
  | some e ↦ (c, some e)
]

abbrev pub open_bus_proxy : Bus → Bool → Connection → Connection × Option ℕ
open_bus_proxy b true c = open_proxy b c.proxy c
open_bus_proxy b false c = elim b.new_bus_proxy [
  | none ↦ open_proxy b c.proxy (record c { bus_proxy = true })
  | some e ↦ (c, some e)
]

abbrev pub open_connection : Bus → Bool → Connection → Connection × Option ℕ
open_connection b true c = open_bus_proxy b c.bus_proxy c
open_connection b false c = elim b.bus_get [
  | none ↦ open_bus_proxy b c.bus_proxy (record c { dbus_connection = true })
  | some e ↦ (c, some e)
]

-- After the label: the property, and the pointers that are dropped where an earlier one is NULL.
abbrev pub set_connected : Bool → Connection → Connection
set_connected now c =
    if bool_eq c.is_connected now then c else emit (notify now) (record c { is_connected = now })

abbrev pub drop_later : Connection → Connection
drop_later c =
    if not c.dbus_connection
    then record c { bus_proxy = false; proxy = false }
    else if not c.bus_proxy
    then record c { proxy = false }
    else c

abbrev pub out : Connection × Option ℕ → Connection × Option ℕ
out (c, none) = (set_connected true c, none)
out (c, some e) = (drop_later (set_connected false c), some e)

-- The error, if the connection is not there; the source returns FALSE exactly with an error.
unfoldable pub ensure : Bus → Connection → Connection × Option ℕ
ensure b c = out (open_connection b c.dbus_connection c)

abbrev pub free_dbus : Connection → Connection
free_dbus c = record c { bus_proxy = false; proxy = false; dbus_connection = false }

-- Whether a signal of the bus is about the service; NULL is taken for it.
abbrev pub is_service : String → Option String → Bool
is_service service none = true
is_service service (some name) = strcmp_eq name service

-- The service has a new owner, or none.
abbrev pub owner_changed : String → Bus → Option String → Connection → Connection
owner_changed service b name c =
    if is_service service name then (ensure b (record c { proxy = false })).0 else c

-- A method without result, and what is done with its error.
abbrev pub requested :
    (Option ℕ → Connection → Connection)
    → String
    → List Arg
    → Bus
    → Connection × Option ℕ
    → Connection
requested complete method args b (c, none) =
    complete (b.call method) (emit (called c.proxy method args) c)
requested complete method args b (c, some e) = complete (some e) c

abbrev pub emit_complete : (ℕ → ServiceError) → Option ℕ → Connection → Connection
emit_complete code none c = emit (request_completed none) c
emit_complete code (some message) c = emit (request_completed (some (code message))) c

-- Only a warning is given.
abbrev pub ignore : Option ℕ → Connection → Connection
ignore e c = c

-- A method with a result: FALSE if it cannot be had.
abbrev pub judged : {A : Type 0} → (A → Bool) → Answer A → Bool
judged test (failed e) = false
judged test (answered a) = test a

abbrev pub asked :
    {A : Type 0}
    → (Bus → String → Answer A)
    → (A → Bool)
    → String
    → Bus
    → Connection × Option ℕ
    → Connection × Bool
asked answer test method b (c, none) =
    (emit (called c.proxy method []) c, judged test (answer b method))
asked answer test method b (c, some e) = (c, false)

abbrev pub is_true : Bool → Bool
is_true b = b

abbrev pub may : String → Bool
may s = strcmp_eq s "yes" || strcmp_eq s "challenge"

-- A message is sent on the connection, unless it cannot be allocated.
abbrev pub note_sent : {A : Type 0} → Reply A → Event → Connection → Connection
note_sent unallocated e c = c
note_sent refused e c = emit e c
note_sent (replied a) e c = emit e c

abbrev pub value_of : {A : Type 0} → Reply A → Option A
value_of unallocated = none
value_of refused = none
value_of (replied a) = some a

-- The end of `set_session_idle`, at the object path of the session.
abbrev pub hint_idle : Bus → Bool → Connection × Option String → Connection
hint_idle b is_idle (c, none) = c
hint_idle b is_idle (c, some session) =
    note_sent (b.message session "SetIdleHint" (flag is_idle ∷ []))
      (sent c.dbus_connection session "SetIdleHint" (flag is_idle ∷ [])) c
