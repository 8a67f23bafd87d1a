-- ===== src/Client/Dbus/Answers.antt =====
-- Whose answer to the end of the session is taken (mate-session/gsm-dbus-client.c).
use mate_session_manager.Base.{
  ℕ, ◌≡◌, ◌⊎◌, inl, inr, Bool, true, false, Option, none, some, List, [], ◌∷◌, String,
  if◌then◌else◌, ◌==◌, ==_iff, arith, Bool-cases,
}
use mathlib.Core.Path.{subst}
use mate_session_manager.Client.Dbus.{
  DbusClient, SessionBus, Message, Reply, done, Handled, not_yet, aborted, handled, is_from,
  is_other, handle_end_session_response, response_of, client_dbus_filter_function, dispatch,
  or_next,
}

-- A client of a list has an identifier, and owns a name that is not empty.
abbrev pub has_client : ℕ → Option String → List DbusClient → Bool
has_client id sender [] = false
has_client id sender (c ∷ clients) =
    if (c.id == id)
    then (if is_from sender c.bus_name then true else has_client id sender clients)
    else has_client id sender clients

-- What is told of a client by an answer that was taken from it.
abbrev Takes : DbusClient → Message → ℕ → Bool → String → Reply → Type 0
Takes c m id is_ok reason reply =
    (m.is_response ≡ true)
    × (is_other id m.path ≡ false)
    × (m.args ≡ some (is_ok, reason))
    × (reply ≡ done)
    × (c.id ≡ id)
    × (is_from m.sender c.bus_name ≡ true)

response-Takes :
    (b : SessionBus) (c : DbusClient) (sender : Option String) (args : Option (Bool × String))
    (id : ℕ) (is_ok : Bool) (reason : String) (reply : Reply)
    → response_of b c sender args ≡ handled (some (id, is_ok, reason)) reply
    → (args ≡ some (is_ok, reason))
      × (reply ≡ done)
      × (c.id ≡ id)
      × (is_from sender c.bus_name ≡ true)
response-Takes b c sender none id is_ok reason reply h = ground arith
response-Takes b c sender (some (k, r)) id is_ok reason reply h = ground arith

filter-Takes :
    (b : SessionBus) (c : DbusClient) (m : Message) (id : ℕ) (is_ok : Bool) (reason : String)
    (reply : Reply)
    → client_dbus_filter_function b c m ≡ handled (some (id, is_ok, reason)) reply
    → Takes c m id is_ok reason reply
unfolding client_dbus_filter_function handle_end_session_response
filter-Takes b c m id is_ok reason reply h = elim (Bool-cases (m.is_response)) [
  | inr e ↦ absurd (ground arith)
  | inl e ↦ elim (Bool-cases (is_other c.id m.path)) [
    | inl o ↦ absurd (ground arith)
    | inr o ↦
        let (args, r, same, from) =
          response-Takes b c m.sender m.args id is_ok reason reply (ground arith) in
        (e, subst (λ (x : ℕ). is_other x m.path ≡ false) same o, args, r, same, from)
  ]
]

or_next_inv :
    (h next : Handled) (a : ℕ × Bool × String) (reply : Reply)
    → or_next h next ≡ handled (some a) reply
    → (h ≡ handled (some a) reply) ⊎ (next ≡ handled (some a) reply)
or_next_inv not_yet next a reply e = inr e
or_next_inv aborted next a reply e = inl e
or_next_inv (handled x r) next a reply e = inl e

found_first :
    (id : ℕ) (sender : Option String) (c : DbusClient) (clients : List DbusClient)
    → c.id ≡ id
    → is_from sender c.bus_name ≡ true
    → has_client id sender (c ∷ clients) ≡ true
found_first id sender c clients e f = rw ((==_iff c.id id).1 e, f)

found_later :
    (id : ℕ) (sender : Option String) (c : DbusClient) (clients : List DbusClient)
    → has_client id sender clients ≡ true
    → has_client id sender (c ∷ clients) ≡ true
found_later id sender c clients h = ground arith

-- Whatever clients there are and whatever message comes: if an answer is taken for a client, the message
-- calls EndSessionResponse with that answer, on the path of the client if on any; the caller gets
-- the method's return; and a client of that identifier owns the name that the message was sent
-- from. Nobody answers for another client.
pub dispatch_takes :
    (b : SessionBus) (clients : List DbusClient) (m : Message) (id : ℕ) (is_ok : Bool)
    (reason : String) (reply : Reply)
    → dispatch b clients m ≡ handled (some (id, is_ok, reason)) reply
    → (m.is_response ≡ true)
      × (is_other id m.path ≡ false)
      × (m.args ≡ some (is_ok, reason))
      × (reply ≡ done)
      × (has_client id m.sender clients ≡ true)
unfolding dispatch
dispatch_takes b [] m id is_ok reason reply h = cc
dispatch_takes b (c ∷ clients) m id is_ok reason reply h =
    elim (or_next_inv (client_dbus_filter_function b c m) (dispatch b clients m) (id, is_ok, reason)
      reply h) [
        | inl e ↦
            let (is, path, args, r, same, from) = filter-Takes b c m id is_ok reason reply e in
            (is, path, args, r, found_first id m.sender c clients same from)
        | inr e ↦
            let (is, path, args, r, found) = dispatch_takes b clients m id is_ok reason reply e in
            (is, path, args, r, found_later id m.sender c clients found)
      ]
