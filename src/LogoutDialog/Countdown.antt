-- ===== src/LogoutDialog/Countdown.antt =====
-- The countdown of a dialog (mate-session/gsm-logout-dialog.c).
use mate_session_manager.Base.{
  ℕ, suc, zero, ◌+◌, ◌-◌, ◌≤◌, ◌≡◌, ◌⊎◌, refl, ap, ◌∙◌, sym, ℤ, pos, negsuc, is_negative, true,
  false, some, [], ◌∷◌, arith,
}
use mate_session_manager.LogoutDialog.{
  Dialog, timeout, timeout_at, set_timeout, second, second_at, seconds,
}

-- A dialog that counts, with `n` seconds left.
abbrev counting : ℕ → Dialog → Dialog
counting n d = record d { text = some (pos (suc n)); timeout = pos n; timeout_id = true }

counted : Dialog → Dialog
counted d = record d {
  text = some (pos 1);
  timeout = pos 0;
  timeout_id = false;
  responses = d.default_response ∷ d.responses;
}

set_timeout-counting : (n : ℕ) (d : Dialog) → set_timeout (pos (suc n)) d ≡ counting n d
unfolding set_timeout timeout timeout_at
set_timeout-counting n d = refl

second-counting : (n : ℕ) (d : Dialog) → second (counting (suc n) d) ≡ counting n d
unfolding second second_at timeout timeout_at
second-counting n d = refl

second-last : (d : Dialog) → second (counting 0 d) ≡ counted d
unfolding second second_at timeout timeout_at counted
second-last d = refl

zero_plus : (n : ℕ) → 0 + n ≡ n
zero_plus n = omega arith

suc_plus : (k n : ℕ) → suc k + n ≡ suc (k + n)
suc_plus k n = omega arith

second-silent : (d : Dialog) → d.timeout_id ≡ false → second d ≡ d
unfolding second second_at
second-silent d h = rw h

-- While seconds are left they are counted down.
seconds-counting : (k n : ℕ) (d : Dialog) → seconds k (counting (k + n) d) ≡ counting n d
unfolding seconds
seconds-counting zero n d = ap (λ (x : ℕ). counting x d) (zero_plus n)
seconds-counting (suc k) n d =
    ap (λ (x : ℕ). seconds k (second (counting x d))) (suc_plus k n)
    ∙ ap (seconds k) (second-counting (k + n) d)
    ∙ seconds-counting k n d

-- A dialog with no source emits nothing.
pub silent : (n : ℕ) (d : Dialog) → d.timeout_id ≡ false → seconds n d ≡ d
unfolding seconds
silent zero d h = refl
silent (suc n) d h = ap (seconds n) (second-silent d h) ∙ silent n d h

seconds-after : (n k : ℕ) (d : Dialog) → seconds (suc n + k) (counting n d) ≡ counted d
unfolding seconds counted
seconds-after zero k d =
    ap (λ (x : ℕ). seconds x (counting 0 d)) (suc_plus 0 k)
    ∙ (ap (seconds (0 + k)) (second-last d) ∙ silent (0 + k) (counted d) refl)
seconds-after (suc n) k d =
    ap (λ (x : ℕ). seconds x (counting (suc n) d)) (suc_plus (suc n) k)
    ∙ (ap (seconds (suc n + k)) (second-counting n d) ∙ seconds-after n k d)

-- A dialog is shown with a setting of some number of seconds above 0, having given no response. After
-- fewer seconds it has still given none, and shows the seconds that are left, and after as many
-- seconds or more it has given its default response, once.
pub countdown_fires :
    (n : ℕ) (d : Dialog)
    → d.responses ≡ []
    → let s = set_timeout (pos (suc n)) d in
      ((k : ℕ)
        → k ≤ n
        → ((seconds k s).responses ≡ []) × ((seconds k s).text ≡ some (pos (suc n - k))))
      × ((k : ℕ) → suc n ≤ k → (seconds k s).responses ≡ d.default_response ∷ [])
unfolding counted
countdown_fires n d h =
    (λ k l. still k (n - k) (omega arith), λ k l. fired (k - suc n) k (omega arith))
  where
    still :
        (k r : ℕ)
        → k + r ≡ n
        → ((seconds k (set_timeout (pos (suc n)) d)).responses ≡ [])
          × ((seconds k (set_timeout (pos (suc n)) d)).text ≡ some (pos (suc n - k)))
    still k r e =
        let q =
          ap (seconds k) (set_timeout-counting n d ∙ ap (λ (x : ℕ). counting x d) (sym e))
          ∙ seconds-counting k r d in
        (
          ap (λ (x : Dialog). x.responses) q ∙ h,
          ap (λ (x : Dialog). x.text) q ∙ ap (λ (x : ℕ). some (pos x)) (omega arith),
        )

    fired :
        (r k : ℕ)
        → k ≡ suc n + r
        → (seconds k (set_timeout (pos (suc n)) d)).responses ≡ d.default_response ∷ []
    fired r k e =
        let q =
          ap (λ (x : ℕ). seconds x (set_timeout (pos (suc n)) d)) e
          ∙ (ap (seconds (suc n + r)) (set_timeout-counting n d) ∙ seconds-after n r d) in
        ap (λ (x : Dialog). x.responses) q ∙ ap (◌∷◌ d.default_response) h

-- No response is given by itself when a dialog has no source, nor when a dialog with
-- no source is shown with a setting of 0 or less.
pub nothing_fires :
    (t : ℤ) (n : ℕ) (d : Dialog)
    → d.timeout_id ≡ false
    → (t ≡ pos 0) ⊎ (is_negative t ≡ true)
    → ((seconds n d).responses ≡ d.responses)
      × ((seconds n (set_timeout t d)).responses ≡ d.responses)
unfolding set_timeout
nothing_fires t n d h c = (ap (λ (x : Dialog). x.responses) (silent n d h), off t c)
  where
    off :
        (t : ℤ)
        → (t ≡ pos 0) ⊎ (is_negative t ≡ true)
        → (seconds n (set_timeout t d)).responses ≡ d.responses
    off (pos zero) c = ap (λ (x : Dialog). x.responses) (silent n (set_timeout (pos 0) d) h)
    off (pos (suc m)) c = ground arith
    off (negsuc m) c = ap (λ (x : Dialog). x.responses) (silent n (set_timeout (negsuc m) d) h)
