-- ===== src/Accounts/Pool/Cooldown.antt =====
-- Cooldowns: what `mark_fail` and `mark_ok` do to an account.
use native.Mathlib.Nat.{pow-suc, one-le-pow}
use devin_proxy.Prelude.{
  ℕ, suc, ◌+◌, ◌*◌, ◌-◌, ◌^◌, ◌≤◌, min, Text, true, false, ◌≡◌, refl, ap, arith,
}
use devin_proxy.Accounts.Account.{Account}
use devin_proxy.Accounts.Failure.{Failure, is_hard_failure}
use devin_proxy.Accounts.Pool.State.{Pool}
use devin_proxy.Accounts.Pool.Schedule.{
  cooldown_base, cooldown_max, cooldown_for, failed_account, mark_fail, is_ready,
}

-- The first failure costs the base time, each further one twice the time before, up to the maximum.
pub cooldown_for_lem :
    (fails : ℕ)
    → (cooldown_for 1 ≡ cooldown_base)
      × (cooldown_for (suc (suc fails)) ≡ min (2 * cooldown_for (suc fails)) cooldown_max)
unfolding cooldown_for
cooldown_for_lem fails =
    let same : 2 ^ (suc fails - 1) ≡ 2 ^ fails = ap (λ k. 2 ^ k) (omega arith) in
    let next : 2 ^ (suc (suc fails) - 1) ≡ 2 ^ suc fails = ap (λ k. 2 ^ k) (omega arith) in
    (refl, omega (arith, same, next, pow-suc 2 fails, one-le-pow fails 2 (omega arith)))

cooldown_for_bounds :
    (fails : ℕ) → (cooldown_base ≤ cooldown_for fails) × (cooldown_for fails ≤ cooldown_max)
unfolding cooldown_for
cooldown_for_bounds fails = omega (arith, one-le-pow (fails - 1) 2 (omega arith))

module _ (lower : Text → Text) (now : ℕ) (p : Pool) (r : ℕ) (err : Failure) where
  -- The account that `mark_fail` leaves.
  abbrev pub after : Account
  after = (mark_fail lower now p r err).objs r

  -- A hard failure puts the account into cooldown for 30 to 900 seconds from now and counts one more
  -- consecutive failure.
  pub mark_fail_hard :
      is_hard_failure lower err ≡ true
      → (after.consecutive_fails ≡ suc (p.objs r).consecutive_fails)
        × (after.cooldown_until ≡ now + cooldown_for after.consecutive_fails)
        × (now + cooldown_base ≤ after.cooldown_until)
        × (after.cooldown_until ≤ now + cooldown_max)
        × (is_ready now after ≡ false)
  unfolding mark_fail failed_account
  mark_fail_hard h = ground (arith, cooldown_for_bounds (suc (p.objs r).consecutive_fails))
