-- ===== src/Client/Dbus.antt =====
-- mate-session/gsm-dbus-client.c: a client that registered over D-Bus, what it is sent and which answers are
-- taken for its own. An object path is the serial number in it; the session bus is a parameter.
pub mod Answers
pub mod Errors
use mate_session_manager.Base.{
  ℕ, Bool, true, false, not, ◌||◌, Option, none, some, List, [], ◌∷◌, String, if◌then◌else◌, ◌==◌,
  is_some, is_string_empty, strcmp_eq,
}

-- `struct _GsmDBusClient`, with the identifier of its base class; `connection` is whether the pointer
-- is set.
pub record DbusClient : Type 0 where
  pub id : ℕ
  pub bus_name : Option String
  pub caller_pid : ℕ
  pub connection : Bool

-- What the session bus does: whether it can be reached, the user and the process of a name, and whether
-- a message can be allocated, addressed and sent.
pub record SessionBus : Type 0 where
  pub reachable : Bool
  pub unix_user : String → Option ℕ
  pub process_id : String → Option ℕ
  pub allocates : Bool
  pub addresses : Bool
  pub sends : Bool

unfoldable pub setup_connection : SessionBus → DbusClient → DbusClient × Bool
setup_connection b c =
    if c.connection
    then (c, true)
    else if b.reachable
    then (record c { connection = true }, true)
    else (c, false)

-- The process, if the sender and its user can be found out.
abbrev process_if : Option ℕ → Option ℕ → Option ℕ
process_if none pid = none
process_if (some uid) pid = pid

unfoldable pub get_caller_info : SessionBus → Option String → Option ℕ
get_caller_info b none = none
get_caller_info b (some sender) =
    if b.reachable then process_if (b.unix_user sender) (b.process_id sender) else none

abbrev pid_or_zero : Option ℕ → ℕ
pid_or_zero none = 0
pid_or_zero (some pid) = pid

-- `gsm_dbus_client_set_bus_name`.
unfoldable pub set_bus_name : SessionBus → Option String → DbusClient → DbusClient
unfolding get_caller_info
set_bus_name b bus_name c = record c {
  bus_name = bus_name;
  caller_pid = pid_or_zero (get_caller_info b bus_name);
}

-- A message to the session manager: whether it calls EndSessionResponse of the private interface, its
-- path, its sender, and the arguments if they have the right types.
pub record Message : Type 0 where
  pub is_response : Bool
  pub path : Option ℕ
  pub sender : Option String
  pub args : Option (Bool × String)

-- What `raise_error` or the method's return is.
pub data Reply : Type 0 where
  syntax_error not_recognized done : Reply

-- What a filter does with a message: other filters see it; or it is replied to, with the answer of
-- "end-session-response" before that, if there is one; or there is no memory for a reply, and
-- the program aborts.
pub data Handled : Type 0 where
  not_yet aborted : Handled
  handled : Option (ℕ × Bool × String) → Reply → Handled

abbrev pub replied : SessionBus → Option (ℕ × Bool × String) → Reply → Handled
replied b answer reply =
    if not b.allocates then aborted else if not b.sends then aborted else handled answer reply

abbrev pub is_from : Option String → Option String → Bool
is_from none bus_name = false
is_from (some sender) none = false
is_from (some sender) (some bus_name) =
    if is_string_empty (some bus_name) then false else strcmp_eq sender bus_name

abbrev pub response_of : SessionBus → DbusClient → Option String → Option (Bool × String) → Handled
response_of b c sender none = replied b none syntax_error
response_of b c sender (some (is_ok, reason)) =
    if not (is_from sender c.bus_name)
    then replied b none not_recognized
    else replied b (some (c.id, is_ok, reason)) done

unfoldable pub handle_end_session_response : SessionBus → DbusClient → Message → Handled
handle_end_session_response b c m = response_of b c m.sender m.args

abbrev pub is_other : ℕ → Option ℕ → Bool
is_other id none = false
is_other id (some path) = not (path == id)

unfoldable pub client_dbus_filter_function : SessionBus → DbusClient → Message → Handled
unfolding handle_end_session_response
client_dbus_filter_function b c m =
    if not m.is_response
    then not_yet
    else if is_other c.id m.path
    then not_yet
    else handle_end_session_response b c m

-- The filters of all clients, in turn; the first that handles the message keeps it from the others.
abbrev pub or_next : Handled → Handled → Handled
or_next not_yet next = next
or_next aborted next = aborted
or_next (handled answer reply) next = handled answer reply

unfoldable pub dispatch : SessionBus → List DbusClient → Message → Handled
unfolding client_dbus_filter_function
dispatch b [] m = not_yet
dispatch b (c ∷ clients) m = or_next (client_dbus_filter_function b c m) (dispatch b clients m)

-- GSM_CLIENT_ERROR_NOT_REGISTERED, with its text.
pub data ClientError : Type 0 where
  not_registered unable_to_send : ClientError

-- A signal on the client's path; one with no destination goes to everybody.
pub record Sent : Type 0 where
  pub destination : Option String
  pub path : ℕ
  pub member : String
  pub flags : Option ℕ

-- What a call returns, with the signal that was sent and the error that was set.
pub record Outcome : Type 0 where
  pub result : Bool
  pub error : Option ClientError
  pub sent : Option Sent

abbrev pub failing : Option ClientError → Outcome
failing error = record { result = false; error = error; sent = none }

abbrev pub send : SessionBus → Option ClientError → Sent → Outcome
send b error s =
    if not b.allocates
    then failing error
    else if not b.addresses
    then failing error
    else if not b.sends
    then failing error
    else record { result = true; error = none; sent = some s }

abbrev pub signal : DbusClient → String → Option ℕ → Sent
signal c member flags = record {
  destination = c.bus_name;
  path = c.id;
  member = member;
  flags = flags;
}

unfoldable pub query_end_session : SessionBus → ℕ → DbusClient → Outcome
query_end_session b flags c =
    if not (is_some c.bus_name)
    then failing (some not_registered)
    else send b (some unable_to_send) (signal c "QueryEndSession" (some flags))

unfoldable pub end_session : SessionBus → ℕ → DbusClient → Outcome
end_session b flags c = send b (some unable_to_send) (signal c "EndSession" (some flags))

unfoldable pub cancel_end_session : SessionBus → DbusClient → Outcome
cancel_end_session b c = send b (some unable_to_send) (signal c "CancelEndSession" none)

-- `dbus_client_stop`, which sets no error.
unfoldable pub stop : SessionBus → DbusClient → Outcome
stop b c = send b none (signal c "Stop" none)

-- What the manager does after each of the four calls (mate-session/gsm-manager.c): if it returned FALSE the
-- text of the error is read. Whether that reads NULL.
unfoldable pub reads_null : Outcome → Bool
reads_null o = if not o.result then not (is_some o.error) else false
