-- ===== src/Manager/Requests/Refusals.antt =====
-- What the requests to end the session reply, and what follows from one that is taken
-- (mate-session/gsm-manager.c).
use mate_session_manager.Base.{
  nat_eq, ℕ, ◌≡◌, ◌≢◌, ◌⊎◌, refl, true, false, not, ◌&&◌, none, some, arith, if◌then◌else◌,
  contains, ltb, ◌==◌, inl, inr, Bool-cases,
}
use mate_session_manager.Manager.Types.{
  Manager, World, running, query_end_session, LogoutMode, normal, no_confirmation, force, logout,
  LogoutResponse, dialog_aborted, client_query, emit, locked_down, invalid_option, not_in_running,
}
use mate_session_manager.Manager.Queries.{is_session_running}
use mate_session_manager.Manager.Phases.{reset_phase, do_phase_query_end_session, end_session_flags}
use mate_session_manager.Manager.Phases.Frame.{query_all-IsFramed}
use mate_session_manager.Manager.Phases.Asked.{
  asking, end_running, is_client, query_all_lem, query_all-effects, each_gets, forceful, flags_lem,
}
use mate_session_manager.Manager.Clients.{ok, err}
use mate_session_manager.Manager.Requests.{
  request_logout, user_logout, mode_of, manager_logout, logout_dialog_response, show_logout_dialog,
}

-- A request to log out that is not asked to confirm, in a session that runs: every client is sent the
-- query, in the order of the store, as forceful exactly if the mode is FORCE, and nothing else is
-- done; every client that could be asked, and no other, is waited for, with the timer of the
-- query set; the mode and the type are those asked for. If logging out is locked down the session
-- runs on, and nothing is done.
pub request_logout-asks :
    (w : World) (mode : LogoutMode) (id : ℕ) (m : Manager)
    → m.phase ≡ running
    → let n = request_logout w mode m in
      (w.log_out_disabled ≡ true → (n.phase ≡ running) × (n.effects ≡ m.effects))
      × (w.log_out_disabled ≡ false
          → (n.phase ≡ query_end_session)
            × (n.query_timeout ≡ true)
            × (n.logout_mode ≡ mode)
            × (n.logout_type ≡ logout)
            × (n.effects
                ≡ each_gets (λ c. client_query c (forceful mode)) m.clients.objects m.effects)
            × (contains id n.query_clients ≡ (is_client id m.clients.objects && w.query_sent id)))
unfolding request_logout do_phase_query_end_session reset_phase
request_logout-asks w mode id m e =
    let x : Manager = record m { logout_mode = mode; logout_type = logout } in
    let flags : ℕ = end_session_flags false mode false in
    ground (
      arith,
      flags_lem false mode,
      end_running w x e,
      query_all-effects w flags m.clients.objects (asking x),
      query_all-IsFramed w flags m.clients.objects (asking x),
      query_all_lem w flags id m.clients.objects (asking x),
    )

request_logout_lem :
    (w : World) (mode : LogoutMode) (m : Manager)
    → m.phase ≡ running
    → let n = request_logout w mode m in
      w.log_out_disabled ≡ false
      → (n.phase ≡ query_end_session)
        × (n.query_timeout ≡ true)
        × (n.logout_mode ≡ mode)
        × (n.logout_type ≡ logout)
        × (n.logout_dialog ≡ m.logout_dialog)
unfolding request_logout do_phase_query_end_session reset_phase
request_logout_lem w mode m e =
    let x : Manager = record m { logout_mode = mode; logout_type = logout } in
    let flags : ℕ = end_session_flags false mode false in
    ground (arith, end_running w x e, query_all-IsFramed w flags m.clients.objects (asking x))

is_running : (m : Manager) → is_session_running m ≡ true → m.phase ≡ running
unfolding is_session_running
is_running m h = ground arith

-- The number of a mode in the D-Bus method `Logout`.
abbrev pub mode_num : LogoutMode → ℕ
mode_num normal = 0
mode_num no_confirmation = 1
mode_num force = 2

mode_of_lem :
    (n : ℕ)
    → ((mode_of n ≡ none) × (ltb 2 n ≡ true))
      ⊎ ((a : LogoutMode) × (mode_of n ≡ some a)
          × (n ≡ mode_num a)
          × (ltb 2 n ≡ false)
          × ((n == 0) ≡ elim a [ normal ↦ true | no_confirmation ↦ false | force ↦ false ]))
unfolding mode_of
mode_of_lem n = elim (Bool-cases (n == 0)) [
  | inl a ↦ inr (normal, ground arith, ground arith, ground arith, ground arith)
  | inr a ↦ elim (Bool-cases (n == 1)) [
    | inl b ↦ inr (no_confirmation, ground arith, ground arith, ground arith, ground arith)
    | inr b ↦ elim (Bool-cases (n == 2)) [
      | inl c ↦ inr (force, ground arith, ground arith, ground arith, ground arith)
      | inr c ↦ inl (ground arith)
    ]
  ]
]

user_logout_lem :
    (w : World) (mode : LogoutMode) (m : Manager)
    → m.phase ≡ running
    → w.log_out_disabled ≡ false
    → let n = user_logout w mode m in
      if elim mode [ normal ↦ true | no_confirmation ↦ false | force ↦ false ] && w.logout_prompt
      then (n.phase ≡ running) × (n.logout_dialog ≡ true) × (n.logout_mode ≡ normal)
      else (n.phase ≡ query_end_session)
        × (n.query_timeout ≡ true)
        × (n.logout_mode ≡ mode)
        × (n.logout_type ≡ logout)
unfolding user_logout show_logout_dialog
user_logout_lem w normal m e l = ground (arith, request_logout_lem w normal m e)
user_logout_lem w no_confirmation m e l = ground (arith, request_logout_lem w no_confirmation m e)
user_logout_lem w force m e l = ground (arith, request_logout_lem w force m e)

-- The reply of `Logout` says exactly why it is refused: the session does not run, logging out is
-- locked down, or the mode is none of 0, 1 and 2; nothing changes then. Else it is taken: it asks
-- the user, if the mode is 0 and prompts are on, and else begins the query for a logout, in the
-- mode with the number that was given, where 1 is NO_CONFIRMATION and 2 is FORCE.
pub manager_logout_reply :
    (w : World) (mode : ℕ) (m : Manager)
    → let (n, reply) = manager_logout w mode m in
      (reply ≡ (
        if not (is_session_running m)
        then err not_in_running
        else if w.log_out_disabled
        then err locked_down
        else if ltb 2 mode
        then err invalid_option
        else ok tt))
      × (reply ≢ ok tt → n ≡ m)
      × (reply ≡ ok tt
          → if (mode == 0) && w.logout_prompt
            then (n.phase ≡ running) × (n.logout_dialog ≡ true) × (n.logout_mode ≡ normal)
            else (n.phase ≡ query_end_session)
              × (n.query_timeout ≡ true)
              × (mode ≡ mode_num n.logout_mode)
              × (n.logout_type ≡ logout))
unfolding manager_logout
manager_logout_reply w mode m = elim (Bool-cases (is_session_running m)) [
  | inr e ↦ ground arith
  | inl e ↦ elim (mode_of_lem mode) [
    | inl (o, h) ↦ ground (arith, o)
    | inr (a, o, q, t, h) ↦ ground (arith, o, q, t, h, user_logout_lem w a m (is_running m e))
  ]
]

-- In a session that runs and is not locked down, a logout of a mode other than NORMAL leaves the
-- logout dialog as it was, open or not, and any answer to the dialog then aborts the program.
pub dialog_aborts_after_logout :
    (w : World) (mode : LogoutMode) (response : LogoutResponse) (m : Manager)
    → mode ≢ normal
    → m.phase ≡ running
    → w.log_out_disabled ≡ false
    → let n = user_logout w mode m in
      (n.logout_dialog ≡ m.logout_dialog)
      × (logout_dialog_response w response n ≡ emit dialog_aborted n)
unfolding user_logout logout_dialog_response
dialog_aborts_after_logout w normal response m f e l = absurd (f refl)
dialog_aborts_after_logout w no_confirmation response m f e l =
    ground (arith, request_logout_lem w no_confirmation m e)
dialog_aborts_after_logout w force response m f e l = ground (arith, request_logout_lem w force m e)
