-- ===== src/Services/History/Blocks.antt =====
-- What the code that both services share keeps of a sound connection
-- (mate-session/gsm-consolekit.c, gsm-systemd.c).
use mate_session_manager.Base.{
  ℕ, ◌≡◌, refl, Bool, true, false, bool_eq, ◌&&◌, Option, none, some, List, [], ◌∷◌, String, arith,
  if◌then◌else◌, Bool-cases, inl, inr,
}
use mate_session_manager.Services.{
  Connection, Bus, Event, notify, called, sent, privileges_completed, Arg, flag, ServiceError,
  ensure, requested, asked, emit_complete, ignore, emit, free_dbus, note_sent, Reply, unallocated,
  refused, replied, Answer, hint_idle, owner_changed, is_service,
}
use mate_session_manager.Services.Contract.{chained, ensure_lem, is_none}
use mate_session_manager.Services.History.{AllLive, IsSound}

-- What can be relied on after the connection was ensured.
abbrev pub Ready : Connection × Option ℕ → Type 0
Ready (c, none) = IsSound c × (c.dbus_connection ≡ true) × (c.proxy ≡ true)
Ready (c, some e) = IsSound c

pub ready :
    (r : Connection × Option ℕ)
    → IsSound r.0
    → is_none r.1 ≡ (r.0.dbus_connection && (r.0.bus_proxy && r.0.proxy))
    → Ready r
ready (c, none) s h = ground arith
ready (c, some e) s h = s

pub noted-AllLive :
    (before now : Bool) (log : List Event)
    → AllLive log
    → AllLive (if bool_eq before now then log else notify now ∷ log)
noted-AllLive true true log h = h
noted-AllLive true false log h = h
noted-AllLive false true log h = h
noted-AllLive false false log h = h

pub ensure-Ready : (b : Bus) (c : Connection) → IsSound c → Ready (ensure b c)
ensure-Ready b c s =
    let (e, now, log, chain, there) = ensure_lem b c s.chain in
    ready (ensure b c)
      (record {
        chain = chain;
        all_live = rw log (noted-AllLive c.is_connected (is_none (ensure b c).1) c.log s.all_live);
      })
      there

pub Ready-IsSound : (r : Connection × Option ℕ) → Ready r → IsSound r.0
Ready-IsSound (c, none) h = h.0
Ready-IsSound (c, some e) h = h

unset : (x y z : Bool) → chained x y z ≡ true → chained x y false ≡ true
unset x y z h = ground arith

pub owner_changed-IsSound :
    (service : String) (b : Bus) (name : Option String) (c : Connection)
    → IsSound c
    → IsSound (owner_changed service b name c)
owner_changed-IsSound service b name c s = elim (Bool-cases (is_service service name)) [
  | inl e ↦ rw e (
      Ready-IsSound (ensure b (record c { proxy = false })) (
        ensure-Ready b (record c { proxy = false })
          (record {
            chain = unset c.dbus_connection c.bus_proxy c.proxy s.chain;
            all_live = s.all_live;
          })))
  | inr e ↦ rw e s
]

pub completed-IsSound :
    (code : ℕ → ServiceError) (e : Option ℕ) (c : Connection)
    → IsSound c
    → IsSound (emit_complete code e c)
completed-IsSound code none c s = record { chain = s.chain; all_live = s.all_live }
completed-IsSound code (some e) c s = record { chain = s.chain; all_live = s.all_live }

pub requested-IsSound :
    (complete : Option ℕ → Connection → Connection)
    → ((e : Option ℕ) (c : Connection) → IsSound c → IsSound (complete e c))
    → (method : String) (args : List Arg) (b : Bus) (r : Connection × Option ℕ) → Ready r
    → IsSound (requested complete method args b r)
requested-IsSound complete keeps method args b (c, none) (s, there, live) =
    keeps (b.call method) (emit (called c.proxy method args) c)
      (record { chain = s.chain; all_live = (live, s.all_live) })
requested-IsSound complete keeps method args b (c, some e) s = keeps (some e) c s

pub asked-IsSound :
    {A : Type 0} (answer : Bus → String → Answer A) (test : A → Bool) (method : String) (b : Bus)
    (r : Connection × Option ℕ)
    → Ready r
    → IsSound (asked answer test method b r).0
asked-IsSound answer test method b (c, none) (s, there, live) = record {
  chain = s.chain;
  all_live = (live, s.all_live);
}
asked-IsSound answer test method b (c, some e) s = s

-- A message, on a connection that stays.
abbrev pub Linked : Connection → Type 0
Linked c = IsSound c × (c.dbus_connection ≡ true)

pub note_sent-Linked :
    {A : Type 0} (reply : Reply A) (path method : String) (args : List Arg) (c : Connection)
    → Linked c
    → Linked (note_sent reply (sent c.dbus_connection path method args) c)
note_sent-Linked unallocated path method args c h = h
note_sent-Linked refused path method args c (s, there) =
    (record { chain = s.chain; all_live = (there, s.all_live) }, there)
note_sent-Linked (replied a) path method args c (s, there) =
    (record { chain = s.chain; all_live = (there, s.all_live) }, there)

pub hint_idle-IsSound :
    (b : Bus) (is_idle : Bool) (r : Connection × Option String)
    → Linked r.0
    → IsSound (hint_idle b is_idle r)
hint_idle-IsSound b is_idle (c, none) h = h.0
hint_idle-IsSound b is_idle (c, some session) h =
    (note_sent-Linked (b.message session "SetIdleHint" (flag is_idle ∷ [])) session "SetIdleHint"
      (flag is_idle ∷ []) c h).0

pub free_dbus-IsSound : (c : Connection) → IsSound c → IsSound (free_dbus c)
free_dbus-IsSound c s = record { chain = refl; all_live = s.all_live }

pub privileges-IsSound :
    (c : Connection) → IsSound c → IsSound (emit (privileges_completed true true) c)
privileges-IsSound c s = record { chain = s.chain; all_live = s.all_live }

pub ignore-IsSound : (e : Option ℕ) (c : Connection) → IsSound c → IsSound (ignore e c)
ignore-IsSound e c s = s
