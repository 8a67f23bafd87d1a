-- ===== src/Examples/Objections.antt =====
-- The dialog of mate-session/gsm-inhibit-dialog.c over one inhibitor.
use mate_session_manager.Base.{
  ℕ, ◌≡◌, refl, false, none, some, [], ◌∷◌, nat_eq, is_nil, if◌then◌else◌,
}
use mate_session_manager.Inhibitor.{Inhibitor}
use mate_session_manager.Store.{Store}
use mate_session_manager.Store
use mate_session_manager.Manager.Types.{to_logout, accept}
use mate_session_manager.InhibitDialog.{Desktop, new, lock_screen}
use mate_session_manager.InhibitDialog.Rows.{IsFaithful}
use mate_session_manager.InhibitDialog.Start.{store_of}
use mate_session_manager.InhibitDialog.History.{
  inhibits, goes, responds, run, step, dialog_history-IsFaithful, last_one-answers,
}

abbrev desktop : Desktop
desktop = record {
  has_suffix = λ _. false;
  plain = λ s. s;
  vendor = λ s. s;
  is_absolute = λ _. false;
  basename = λ s. s;
  load = λ _. none;
  load_from_dirs = λ _. some "Editor";
  client_name = λ _. none;
}

abbrev inhibitor : ℕ → Inhibitor
inhibitor id = record {
  id = id;
  bus_name = none;
  app_id = some "editor";
  client_id = none;
  reason = some "Unsaved work";
  flags = 1;
  toplevel_xid = 0;
  cookie = 1;
}

dialog_history-IsFaithful_example :
    let s = store_of ((1, inhibitor 1) ∷ []) false in
    let (s', d') =
      run desktop
        (inhibits (inhibitor 2) ∷ goes 1 ∷ responds lock_screen ∷ goes 2 ∷ [])
        (s, new desktop s to_logout) in
    IsFaithful s' d'
dialog_history-IsFaithful_example =
    dialog_history-IsFaithful desktop 1 (inhibitor 1) [] false to_logout
      (inhibits (inhibitor 2) ∷ goes 1 ∷ responds lock_screen ∷ goes 2 ∷ []) (refl, tt) (refl, tt)

last_one-answers_example :
    let s = store_of ((1, inhibitor 1) ∷ []) false in
    let d = new desktop s to_logout in
    let (s', d') = step desktop (goes 1) (s, d) in
    d'.delivered ≡ (if is_nil s'.objects then accept ∷ d.delivered else d.delivered)
unfolding new Store.lookup
last_one-answers_example =
    let s = store_of ((1, inhibitor 1) ∷ []) false in
    last_one-answers desktop 1 s (new desktop s to_logout)
      (dialog_history-IsFaithful desktop 1 (inhibitor 1) [] false to_logout [] (refl, tt)
        (refl, tt))
      refl refl
