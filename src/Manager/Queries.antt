-- ===== src/Manager/Queries.antt =====
-- What inhibits what (mate-session/gsm-manager.c, `gsm_manager_is_*_inhibited`), and the presence's
-- interest in idleness, which follows from it.
use mate_session_manager.Base.{ℕ, Bool, not, if◌then◌else◌, is_some, ◌==◌, false}
use mate_session_manager.Store
use mate_session_manager.Inhibitor.{
  has_flag, flag_logout, flag_switch_user, flag_suspend, flag_idle,
}
use mate_session_manager.Presence
use mate_session_manager.Manager.Types.{Manager, running, phase_num}

unfoldable pub is_inhibited_by : ℕ → Manager → Bool
is_inhibited_by flag m = is_some (Store.find (has_flag flag) m.inhibitors)

unfoldable pub is_logout_inhibited : Manager → Bool
unfolding is_inhibited_by
is_logout_inhibited m = is_inhibited_by flag_logout m

unfoldable pub is_idle_inhibited : Manager → Bool
unfolding is_inhibited_by
is_idle_inhibited m = is_inhibited_by flag_idle m

unfoldable pub is_switch_user_inhibited : Manager → Bool
unfolding is_inhibited_by
is_switch_user_inhibited m = is_inhibited_by flag_switch_user m

unfoldable pub is_suspend_inhibited : Manager → Bool
unfolding is_inhibited_by
is_suspend_inhibited m = is_inhibited_by flag_suspend m

-- `gsm_manager_is_inhibited`, the D-Bus method: none of the flags counts while the store is empty.
unfoldable pub is_inhibited : ℕ → Manager → Bool
unfolding is_inhibited_by
is_inhibited flags m = if Store.size m.inhibitors == 0 then false else is_inhibited_by flags m

unfoldable pub is_session_running : Manager → Bool
is_session_running m = phase_num m.phase == phase_num running

unfoldable pub update_idle : Manager → Manager
unfolding is_idle_inhibited
update_idle m = record m {
  presence = Presence.set_idle_enabled (not (is_idle_inhibited m)) m.presence;
}
