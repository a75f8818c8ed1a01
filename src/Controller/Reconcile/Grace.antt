-- ===== src/Controller/Reconcile/Grace.antt =====
-- The time from which on the removal is forced, in nanoseconds of 64 bits.
use topovgm.Prelude.{ℕ, ◌-◌, ◌*◌, ◌^◌, ◌≤◌, ◌<◌, ◌≡◌, refl, ap, ◌↔◌, ◌≢◌, some, true, false, arith}
use topovgm.Prelude.Int.{ℤ, pos, negsuc, ◌+ℤ◌, wrap64, scale, ltb_ℤ}
use topovgm.Go.{ok, as_value, ◌>>=◌}
use topovgm.Lvm.{vg_remove}
use topovgm.Controller.Platform.{Platform, Resource, Host}
use topovgm.Controller.Convert.{get_name_on_node}
use topovgm.Controller.Syncers.{run}
use topovgm.Controller.Reconcile.{force_at, after_remove, remove}

wrap64-below : (m : ℕ) → m < 2 ^ 63 → wrap64 (pos m) ≡ pos m
unfolding wrap64
wrap64-below m h = ground arith

wrap64-above : (m : ℕ) → 2 ^ 63 ≤ m → wrap64 (pos m) ≢ pos m
unfolding wrap64
wrap64-above m h e = ground arith

+ℤ-cancel : (a b c : ℤ) → a +ℤ b ≡ a +ℤ c → b ≡ c
unfolding ◌+ℤ◌
+ℤ-cancel a b c e = ground arith

wrap64-wrapped : (m : ℕ) → 2 ^ 63 ≤ m → m < 2 ^ 64 → wrap64 (pos m) ≡ negsuc (2 ^ 64 - 1 - m)
unfolding wrap64
wrap64-wrapped m h k = ground arith

is_over :
    (timestamp now : ℤ) (seconds : ℕ)
    → 9223372036 < seconds
    → seconds ≤ 18446744073
    → ltb_ℤ now timestamp ≡ false
    → ltb_ℤ (timestamp +ℤ wrap64 (pos (1000000000 * seconds))) now ≡ true
unfolding ◌+ℤ◌
is_over timestamp now seconds above below deleted =
    rw (wrap64-wrapped (1000000000 * seconds) (omega arith) (omega arith)) (ground arith)

-- The grace period ends that many seconds after the deletion exactly if it is at most 9223372036
-- seconds, some 292 years: beyond, the nanoseconds do not fit an int64.
pub force_at-exact_iff :
    (P : Platform) (timestamp : ℤ) (seconds : ℕ)
    → (force_at P timestamp (some (pos seconds)) ≡ ok (timestamp +ℤ pos (1000000000 * seconds)))
      ↔ (seconds ≤ 9223372036)
unfolding scale
force_at-exact_iff P timestamp seconds = (fits, exact)
  where
    exact :
        seconds ≤ 9223372036
        → ok (timestamp +ℤ wrap64 (pos (1000000000 * seconds)))
          ≡ ok (timestamp +ℤ pos (1000000000 * seconds))
    exact h = ap (λ d. ok (timestamp +ℤ d)) (wrap64-below (1000000000 * seconds) (omega arith))

    fits :
        ok (timestamp +ℤ wrap64 (pos (1000000000 * seconds)))
          ≡ ok (timestamp +ℤ pos (1000000000 * seconds))
        → seconds ≤ 9223372036
    fits e = ground (
      arith,
      wrap64-above (1000000000 * seconds),
      +ℤ-cancel timestamp (wrap64 (pos (1000000000 * seconds))) (pos (1000000000 * seconds)),
    )

module _ (P : Platform) {W : Type 0} (h : Host P W) where
  -- A grace period of 9223372037 to 18446744073 seconds is over at once: if the resource was deleted
  -- in the past, the volume group is removed by force.
  pub remove_forces_early :
      (vg : Resource P) (timestamp : ℤ) (seconds : ℕ) (w : W) {now : ℤ} {w1 : W}
      → vg.meta.deletion_grace_period_seconds ≡ some (pos seconds)
      → 9223372036 < seconds
      → seconds ≤ 18446744073
      → h.now w ≡ (now, w1)
      → ltb_ℤ now timestamp ≡ false
      → remove P h vg timestamp w
        ≡ (do
          err ← as_value (run P h (vg_remove (get_name_on_node P vg) true))
          after_remove P h vg err)
            w1
  unfolding remove scale
  remove_forces_early vg timestamp seconds w grace above below clock deleted =
      rw (grace, clock, is_over timestamp _ seconds above below deleted) refl
