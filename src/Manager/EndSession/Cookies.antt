-- ===== src/Manager/EndSession/Cookies.antt =====
-- The cookies of inhibitors (mate-session/gsm-manager.c, `_generate_unique_cookie`).
use mate_session_manager.Base.{
  ℕ, zero, suc, ◌+◌, ◌<◌, ◌≤◌, ◌≡◌, Bool, false, arith, Bool-cases, inl, inr, is_some,
}
use mathlib.Core.Path.{subst}
use mate_session_manager.Store
use mate_session_manager.Store.{Store}
use mate_session_manager.Inhibitor.{Inhibitor, find_by_cookie}
use mate_session_manager.Manager.Types.{Manager, World}
use mate_session_manager.Manager.EndSession.{draw_cookie, generate_unique_cookie}

-- Whether some inhibitor has the cookie.
abbrev pub is_used : ℕ → Store ℕ Inhibitor → Bool
is_used cookie s = is_some (Store.find (find_by_cookie cookie) s)

draw_cookie_lem :
    (n : ℕ) (random : ℕ → ℕ) (s : Store ℕ Inhibitor) (i j : ℕ)
    → j < n
    → is_used (random (i + j)) s ≡ false
    → let (cookie, next) = draw_cookie n random s i in
      (is_used cookie s ≡ false)
      × (next ≤ suc (i + j))
      × (draw_cookie (suc n) random s i ≡ draw_cookie n random s i)
unfolding draw_cookie
draw_cookie_lem zero random s i j h f = absurd (omega (arith, h))
draw_cookie_lem (suc n) random s i zero h f = ground (arith, f)
draw_cookie_lem (suc n) random s i (suc j) h f = elim (Bool-cases (is_used (random i) s)) [
  | inr e ↦ ground (arith, e)
  | inl e ↦ ground (arith, e, draw_cookie_lem n random s (suc i) j (omega (arith, h)) (suc_shift f))
]
  where
    suc_shift : is_used (random (i + suc j)) s ≡ false → is_used (random (suc i + j)) s ≡ false
    suc_shift g = subst (λ k. is_used (random k) s ≡ false) (omega arith) g

-- If one of the random numbers that may be drawn is not yet a cookie, the cookie that is generated
-- is new, no number after that one is drawn, and one round more would change nothing.
pub generate_unique_cookie-fresh :
    (w : World) (m : Manager) (j : ℕ)
    → j < w.rounds
    → is_used (w.random (m.draws + j)) m.inhibitors ≡ false
    → let (cookie, next) = generate_unique_cookie w m in
      (is_used cookie m.inhibitors ≡ false)
      × (next ≤ suc (m.draws + j))
      × (generate_unique_cookie (record w { rounds = suc w.rounds }) m ≡ generate_unique_cookie w m)
unfolding generate_unique_cookie
generate_unique_cookie-fresh w m j h f =
    draw_cookie_lem w.rounds w.random m.inhibitors m.draws j h f
