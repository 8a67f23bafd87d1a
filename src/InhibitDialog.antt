-- ===== src/InhibitDialog.antt =====
-- mate-session/gsm-inhibit-dialog.c: the dialog that lists the programs which object to what the user asked
-- for. Of a row the image is outside; of the text of the dialog only which of two it is.
pub mod Listing
pub mod Rows
pub mod Start
pub mod History
use mate_session_manager.Base.{
  ℕ, suc, Bool, true, false, not, Option, none, some, List, [], ◌∷◌, String, length, is_nil,
  is_some, if◌then◌else◌, ◌==◌, is_string_empty, nat_eq,
}
use mate_session_manager.Inhibitor.{Inhibitor}
use mate_session_manager.Store.{Store}
use mate_session_manager.Store
use mate_session_manager.Manager.Types.{
  LogoutAction, to_logout, to_switch_user, to_shutdown, to_reboot, to_hibernate, to_sleep,
  InhibitResponse, accept,
}

-- A row of `list_store`: an inhibitor that could not be found has no identifier.
pub record Row : Type 0 where
  pub id : Option ℕ
  pub name : Option String
  pub reason : Option String

-- What the user can press: DIALOG_RESPONSE_LOCK_SCREEN, or an answer.
pub data Response : Type 0 where
  lock_screen : Response
  answers : InhibitResponse → Response

-- `_GsmInhibitDialog`. `one_entry` is whether the text is about one program; `locked` counts the starts of
-- a screen locker, and `delivered` are the responses that the handlers after its own hear, the
-- latest first.
pub record InhibitDialog : Type 0 where
  pub action : LogoutAction
  pub is_done : Bool
  pub rows : List Row
  pub one_entry : Bool
  pub locked : ℕ
  pub delivered : List InhibitResponse

-- Desktop files, with the name in each, and the names of clients: `plain` is "%s.desktop" and `vendor`
-- "mate-%s.desktop"; the second `none` of a client is a name that is NULL.
pub record Desktop : Type 0 where
  pub has_suffix : String → Bool
  pub plain : String → String
  pub vendor : String → String
  pub is_absolute : String → Bool
  pub basename : String → String
  pub load : String → Option String
  pub load_from_dirs : String → Option String
  pub client_name : ℕ → Option (Option String)

-- `on_response`; `locks` is what comes of the screen locker.
abbrev pub on_response_if : Bool → Response → InhibitDialog → InhibitDialog
on_response_if true r d = d
on_response_if false lock_screen d = record d { locked = suc d.locked }
on_response_if false (answers r) d = record d { is_done = true; delivered = r ∷ d.delivered }

unfoldable pub on_response : Response → InhibitDialog → InhibitDialog
on_response r d = on_response_if d.is_done r d

-- The loop of `find_inhibitor`.
abbrev pub is_id : ℕ → Option ℕ → Bool
is_id id none = false
is_id id (some item_id) = item_id == id

unfoldable pub find_inhibitor : ℕ → List Row → Bool
find_inhibitor id [] = false
find_inhibitor id (r ∷ rows) = if is_id id r.id then true else find_inhibitor id rows

-- `gtk_list_store_remove` at the row that was found.
unfoldable pub remove_row : ℕ → List Row → List Row
remove_row id [] = []
remove_row id (r ∷ rows) = if is_id id r.id then rows else r ∷ remove_row id rows

-- The search of `add_inhibitor` for a desktop file, where a later place is looked at if the earlier give
-- nothing.
abbrev or_else : Option String → Option String → Option String
or_else none o = o
or_else (some s) o = some s

abbrev desktop_filename : Desktop → String → String
desktop_filename k app_id = if k.has_suffix app_id then app_id else k.plain app_id

abbrev at_path : Desktop → String → Option String
at_path k file =
    if k.is_absolute file
    then or_else (k.load file) (k.load_from_dirs (k.basename file))
    else k.load_from_dirs file

unfoldable pub desktop_name : Desktop → Option String → Option String
desktop_name k none = none
desktop_name k (some app_id) =
    if is_string_empty (some app_id)
    then none
    else or_else (at_path k (desktop_filename k app_id)) (k.load_from_dirs (k.vendor app_id))

abbrev client_name_of : Desktop → Option ℕ → Option String
client_name_of k none = none
client_name_of k (some id) = elim (k.client_name id) [ none ↦ none | some name ↦ name ]

abbrev app_id_or : Option String → Option String
app_id_or app_id = if is_string_empty app_id then some "Unknown" else app_id

unfoldable pub name_of : Desktop → Option String → Option ℕ → Option String
unfolding desktop_name
name_of k app_id client_id =
    or_else (desktop_name k app_id) (or_else (client_name_of k client_id) (app_id_or app_id))

-- `add_inhibitor`, in front; NULL gives NULL for all that is asked of it.
abbrev pub row_of : Desktop → Option Inhibitor → Row
row_of k none = record { id = none; name = name_of k none none; reason = none }
row_of k (some i) = record {
  id = some i.id;
  name = name_of k i.app_id i.client_id;
  reason = i.reason;
}

unfoldable pub add_inhibitor : Desktop → Option Inhibitor → InhibitDialog → InhibitDialog
unfolding name_of
add_inhibitor k i d = record d { rows = row_of k i ∷ d.rows }

-- `model_has_one_entry` and `update_dialog_text`.
unfoldable pub model_has_one_entry : List Row → Bool
model_has_one_entry rows = length rows == 1

unfoldable pub update_dialog_text : InhibitDialog → InhibitDialog
unfolding model_has_one_entry
update_dialog_text d = record d { one_entry = model_has_one_entry d.rows }

-- The store has a new inhibitor.
unfoldable pub on_store_inhibitor_added :
    Desktop → Store ℕ Inhibitor → ℕ → InhibitDialog → InhibitDialog
unfolding find_inhibitor add_inhibitor update_dialog_text Store.lookup
on_store_inhibitor_added k store id d =
    if d.is_done
    then d
    else if not (find_inhibitor id d.rows)
    then update_dialog_text (add_inhibitor k (Store.lookup id store) d)
    else d

abbrev pub respond_if_empty : List Row → InhibitDialog → InhibitDialog
respond_if_empty [] d = on_response (answers accept) d
respond_if_empty (r ∷ rows) d = d

abbrev pub take_out : ℕ → InhibitDialog → InhibitDialog
take_out id d =
    if find_inhibitor id d.rows
    then update_dialog_text (record d { rows = remove_row id d.rows })
    else d

unfoldable pub on_store_inhibitor_removed : ℕ → InhibitDialog → InhibitDialog
unfolding on_response find_inhibitor remove_row update_dialog_text
on_store_inhibitor_removed id d =
    if d.is_done then d else let e = take_out id d in respond_if_empty e.rows e

-- `populate_model`: each inhibitor of the store is added.
abbrev pub add_each : Desktop → List (ℕ × Inhibitor) → InhibitDialog → InhibitDialog
add_each k [] d = d
add_each k ((id, i) ∷ l) d = add_each k l (add_inhibitor k (some i) d)

unfoldable pub populate_model : Desktop → Store ℕ Inhibitor → InhibitDialog → InhibitDialog
unfolding add_inhibitor update_dialog_text
populate_model k store d = update_dialog_text (add_each k store.objects d)

-- The text of the button that accepts, which `setup_dialog` makes.
unfoldable pub button_text : LogoutAction → String
button_text to_switch_user = "Switch User Anyway"
button_text to_logout = "Log Out Anyway"
button_text to_sleep = "Suspend Anyway"
button_text to_hibernate = "Hibernate Anyway"
button_text to_shutdown = "Shut Down Anyway"
button_text to_reboot = "Reboot Anyway"

abbrev pub at_first : LogoutAction → InhibitDialog
at_first action = record {
  action = action;
  is_done = false;
  rows = [];
  one_entry = false;
  locked = 0;
  delivered = [];
}

-- `gsm_inhibit_dialog_new`, which sets the dialog up and fills it.
unfoldable pub new : Desktop → Store ℕ Inhibitor → LogoutAction → InhibitDialog
unfolding populate_model
new k store action = populate_model k store (at_first action)
