-- ===== src/Client/Dbus/Errors.antt =====
-- The errors of the four calls to a client (mate-session/gsm-dbus-client.c), which the manager reads.
use mate_session_manager.Base.{
  ℕ, ◌≡◌, Bool, false, not, ◌&&◌, none, some, is_some, arith, if◌then◌else◌,
}
use mate_session_manager.Client.Dbus.{
  DbusClient, SessionBus, Outcome, Sent, ClientError, query_end_session, end_session,
  cancel_end_session, stop, reads_null, send, signal,
}

-- A message can be sent on the bus.
abbrev pub works : SessionBus → Bool
works b = b.allocates && (b.addresses && b.sends)

-- A call that reports an error exactly if it sends nothing, and else sends its signal to the client's
-- name.
abbrev pub Reports : Bool → Sent → Outcome → Type 0
Reports can s o =
    (o.result ≡ can)
    × (is_some o.error ≡ not can)
    × (o.sent ≡ (if can then some s else none))
    × (reads_null o ≡ false)

send-Reports :
    (b : SessionBus) (e : ClientError) (s : Sent) → Reports (works b) s (send b (some e) s)
unfolding reads_null
send-Reports b e s = ground arith

-- Asking, ending and cancelling succeed exactly if the signal was sent, to the client's name, and set an
-- error exactly if they fail; asking fails as well if the client has no name. Stopping sends its
-- signal in the same way, but sets no error: if it fails, the manager reads the text of an error
-- that is NULL.
pub calls-Reports :
    (b : SessionBus) (flags : ℕ) (c : DbusClient)
    → Reports
        (is_some c.bus_name && works b)
        (signal c "QueryEndSession" (some flags))
        (query_end_session b flags c)
      × Reports (works b) (signal c "EndSession" (some flags)) (end_session b flags c)
      × Reports (works b) (signal c "CancelEndSession" none) (cancel_end_session b c)
      × ((stop b c).result ≡ works b)
      × ((stop b c).sent ≡ (if works b then some (signal c "Stop" none) else none))
      × (reads_null (stop b c) ≡ not (works b))
unfolding query_end_session end_session cancel_end_session stop reads_null
calls-Reports b flags c = ground arith
