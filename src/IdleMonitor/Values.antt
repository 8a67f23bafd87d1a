-- ===== src/IdleMonitor/Values.antt =====
-- Values of 64 bits as two words (mate-session/gs-idle-monitor.c).
use mate_session_manager.Base.{ℕ, ◌+◌, ◌-◌, ◌*◌, ◌/◌, ◌%◌, ◌^◌, ◌<◌, ◌≤◌, ◌≡◌, refl, ap, ◌∙◌, arith}
use mate_session_manager.IdleMonitor.{Value, xsyncvalue_to_int64, int64_to_xsyncvalue, wait_value}

join_lem : (n : ℕ) → n < 2 ^ 64 → (n / 2 ^ 32 % 2 ^ 32 * 2 ^ 32 + n % 2 ^ 32) % 2 ^ 64 ≡ n
join_lem n h = omega arith

high_lem : (a b : ℕ) → a < 2 ^ 32 → b < 2 ^ 32 → (a * 2 ^ 32 + b) % 2 ^ 64 / 2 ^ 32 % 2 ^ 32 ≡ a
high_lem a b h l = omega arith

low_lem : (a b : ℕ) → a < 2 ^ 32 → b < 2 ^ 32 → (a * 2 ^ 32 + b) % 2 ^ 64 % 2 ^ 32 ≡ b
low_lem a b h l = omega arith

int64_lem : (n : ℕ) → n < 2 ^ 64 → xsyncvalue_to_int64 (int64_to_xsyncvalue n) ≡ n
unfolding xsyncvalue_to_int64 int64_to_xsyncvalue
int64_lem n h = join_lem n h

-- A number of 64 bits is taken apart and put together again, and two words of 32 bits as well.
pub xsyncvalue-int64 :
    (n : ℕ) (v : Value)
    → n < 2 ^ 64
    → v.high < 2 ^ 32
    → v.low < 2 ^ 32
    → (xsyncvalue_to_int64 (int64_to_xsyncvalue n) ≡ n)
      × (int64_to_xsyncvalue (xsyncvalue_to_int64 v) ≡ v)
unfolding xsyncvalue_to_int64 int64_to_xsyncvalue
xsyncvalue-int64 n v h a b = (
  join_lem n h,
  λ i. record { high = high_lem v.high v.low a b i; low = low_lem v.high v.low a b i },
)

minus_one : (n : ℕ) → n < 2 ^ 32 → 1 ≤ n → (n + (2 ^ 64 - 1)) % 2 ^ 64 ≡ n - 1
minus_one n h p = omega arith

-- The alarms of an interval wait for a value one below it, and those of the interval 0 for -1 in 64
-- bits.
pub wait_lem :
    (n : ℕ)
    → n < 2 ^ 32
    → (1 ≤ n → xsyncvalue_to_int64 (wait_value (int64_to_xsyncvalue n)) ≡ n - 1)
      × (xsyncvalue_to_int64 (wait_value (int64_to_xsyncvalue 0)) ≡ 2 ^ 64 - 1)
unfolding wait_value
wait_lem n h = (
  λ p. of_wait n (n - 1) h (omega arith) (minus_one n h p),
  of_wait 0 (2 ^ 64 - 1) (omega arith) (omega arith) refl,
)
  where
    of_wait :
        (n k : ℕ)
        → n < 2 ^ 32
        → k < 2 ^ 64
        → (n + (2 ^ 64 - 1)) % 2 ^ 64 ≡ k
        → xsyncvalue_to_int64 (wait_value (int64_to_xsyncvalue n)) ≡ k
    of_wait n k a b e =
        int64_lem _ (omega arith)
        ∙ (ap (λ (x : ℕ). (x + (2 ^ 64 - 1)) % 2 ^ 64) (int64_lem n (omega arith)) ∙ e)
