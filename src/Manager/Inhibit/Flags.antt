-- ===== src/Manager/Inhibit/Flags.antt =====
-- What an inhibitor achieves (mate-session/gsm-manager.c, `gsm_manager_inhibit`).
use Prim.Native.Nat.{bit_and}
use mate_session_manager.Base.{
  nat_eq, ℕ, ◌≡◌, refl, Bool, true, false, not, ◌||◌, Option, some, List, [], ◌∷◌, String, arith,
  is_string_empty, ◌==◌, is_some, length,
}
use mate_session_manager.Presence.Idle.{set_idle_enabled_lem}
use mate_session_manager.Store
use mate_session_manager.Store.{Store, added, removed}
use mate_session_manager.Store.Search.{find_in-insert_in}
use mate_session_manager.Inhibitor.{Inhibitor, has_flag, new, next_inhibitor_serial}
use mate_session_manager.Manager.Types.{
  Manager, World, LogoutMode, normal, no_confirmation, force, general,
}
use mate_session_manager.Manager.Queries.{
  is_inhibited_by, is_inhibited, is_idle_inhibited, update_idle,
}
use mate_session_manager.Manager.Dialogs.{hear}
use mate_session_manager.Manager.EndSession.{generate_unique_cookie, add_inhibitor}
use mate_session_manager.Manager.Clients.{ok, err}
use mate_session_manager.Manager.Inhibit.{admit_inhibitor, inhibit}

abbrev pub is_force : LogoutMode → Bool
is_force force = true
is_force normal = false
is_force no_confirmation = false

-- Whether `gsm_manager_inhibit` turns the caller away.
abbrev pub is_refused : Option String → Option String → ℕ → Manager → Bool
is_refused app_id reason flags m =
    is_force m.logout_mode || is_string_empty app_id || is_string_empty reason || (flags == 0)

-- The presence watches for idleness exactly if idleness is not inhibited.
abbrev pub IsWatchful : Manager → Type 0
IsWatchful m = m.presence.idle_enabled ≡ not (is_idle_inhibited m)

pub hear_removed_lem : (id : ℕ) (m : Manager) → IsWatchful (hear (removed id ∷ []) m)
unfolding hear update_idle is_idle_inhibited is_inhibited_by
hear_removed_lem id m = set_idle_enabled_lem _ m.presence

hear_added_lem :
    (id : ℕ) (m : Manager)
    → let n = hear (added id ∷ []) m in
      (n.presence.idle_enabled ≡ not (is_idle_inhibited n)) × (n.inhibitors ≡ m.inhibitors)
unfolding hear update_idle is_idle_inhibited is_inhibited_by
hear_added_lem id m = (set_idle_enabled_lem _ m.presence, refl)

-- An inhibitor that goes into a store that is not locked.
pub add_inhibitor_lem :
    (i : Inhibitor) (m : Manager)
    → m.inhibitors.locked ≡ false
    → let n = add_inhibitor i m in
      (n.inhibitors.objects ≡ Store.insert_in i.id i m.inhibitors.objects)
      × (n.inhibitors.locked ≡ false)
      × (n.presence.idle_enabled ≡ not (is_idle_inhibited n))
unfolding add_inhibitor Store.add
add_inhibitor_lem i m h =
    let store : Store ℕ Inhibitor = record (m.inhibitors) {
      objects = Store.insert_in i.id i m.inhibitors.objects;
    } in
    ground (
      arith,
      hear_added_lem i.id (record m {
        inhibitors = store;
        inhibitor_serial = next_inhibitor_serial m.inhibitor_serial;
      }),
    )

find_in_nonempty {ℓ κ} :
    {K : Type ℓ} {A : Type κ} (p : K → A → Bool) (l : List (K × A))
    → is_some (Store.find_in p l) ≡ true
    → (length l == 0) ≡ false
unfolding Store.find_in
find_in_nonempty p [] h = cc
find_in_nonempty p (x ∷ r) h = ground arith

pub admitted-is_inhibited :
    (i : Inhibitor) (flag : ℕ) (m : Manager)
    → m.inhibitors.locked ≡ false
    → has_flag flag i.id i ≡ true
    → (is_inhibited_by flag (add_inhibitor i m) ≡ true)
      × (is_inhibited flag (add_inhibitor i m) ≡ true)
unfolding is_inhibited_by is_inhibited Store.find Store.size
admitted-is_inhibited i flag m h f =
    let n : Manager = add_inhibitor i m in
    let p : is_some (Store.find_in (has_flag flag) n.inhibitors.objects) ≡ true =
      rw (add_inhibitor_lem i m h).0
        (find_in-insert_in (has_flag flag) i.id i m.inhibitors.objects f) in
    (p, ground (arith, find_in_nonempty (has_flag flag) n.inhibitors.objects p))

-- A call of `Inhibit` is refused, and changes nothing, while a logout is forced, without an
-- application, without a reason and without flags. Else the reply is a cookie; unless the store of
-- inhibitors is locked, whatever one of the flags stands for is then inhibited, and the presence
-- watches for idleness exactly if idleness is not inhibited.
pub inhibit-is_inhibited :
    (w : World) (app_id : Option String) (xid : ℕ) (reason : Option String) (flags : ℕ)
    (sender : String) (flag : ℕ) (m : Manager)
    → m.inhibitors.locked ≡ false
    → let (n, reply) = inhibit w app_id xid reason flags sender m in
      (is_refused app_id reason flags m ≡ true → (n ≡ m) × (reply ≡ err general))
      × (is_refused app_id reason flags m ≡ false
          → (reply ≡ ok (generate_unique_cookie w m).0)
            × (n.presence.idle_enabled ≡ not (is_idle_inhibited n))
            × ((bit_and flags flag == 0) ≡ false
                → (is_inhibited_by flag n ≡ true) × (is_inhibited flag n ≡ true)))
unfolding inhibit admit_inhibitor new has_flag
inhibit-is_inhibited w app_id xid reason flags sender flag m h =
    let i : Inhibitor =
      new m.inhibitor_serial app_id xid flags reason (some sender) (generate_unique_cookie w m).0 in
    let drawn : Manager = record m { draws = (generate_unique_cookie w m).1 } in
    ground (arith, add_inhibitor_lem i drawn h, admitted-is_inhibited i flag drawn h)
