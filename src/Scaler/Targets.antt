-- ===== src/Scaler/Targets.antt =====
-- The targets and the decisions of internal/monitoring/scaler.go stay within their bounds.
use spool.Prelude.{
  ℕ, ◌+◌, ◌-◌, ◌/◌, ◌≤◌, ◌<◌, ◌≡◌, pos, arith, ◌≤ℤ◌, ◌<ℤ◌, ◌+ℤ◌, ◌-ℤ◌, wrap32, quot, sub_ℕ,
  if◌then◌else◌, ltb,
}
use spool.Scaler.{
  AutoScaler, at_least, gradually, Snapshot, calculate_scale_up_target, calculate_scale_down_target,
}

pub wrap32_pos : (n : ℕ) → n < 2147483648 → wrap32 (pos n) ≡ pos n
unfolding wrap32
wrap32_pos n h = ground arith

wrap32_add : (a b : ℕ) → a + b < 2147483648 → wrap32 (pos a +ℤ pos b) ≡ pos (a + b)
unfolding wrap32 ◌+ℤ◌
wrap32_add a b h = ground arith

wrap32_sub : (a b : ℕ) → a < 2147483648 → b ≤ 2147483648 → wrap32 (pos a -ℤ pos b) ≡ sub_ℕ a b
unfolding wrap32 ◌-ℤ◌
wrap32_sub a b h k = ground arith

at_least_lem :
    (n m i : ℕ)
    → m < n
    → n < 2147483648
    → 0 < i
    → i < 2147483648
    → (k : ℕ) × (at_least (pos m) (wrap32 (pos n -ℤ pos i)) ≡ pos k) × (m ≤ k) × (k < n)
unfolding at_least
at_least_lem n m i h k l o =
    let e = wrap32_sub n i k (omega arith) in
    (if ltb (n - i) m then m else n - i, ground (arith, e), ground arith, ground arith)

gradually_lem :
    (n m k : ℕ)
    → n < 2147483648
    → m ≤ k
    → k < n
    → let t = gradually (pos n) (pos k) in
      (pos m ≤ℤ t) × (t <ℤ pos n) × (pos n ≤ℤ t +ℤ pos (n / 4 + 1))
unfolding gradually quot ◌+ℤ◌
gradually_lem n m k h l o = ground (
  arith,
  wrap32_sub n k h (omega arith),
  wrap32_sub n (n / 4) h (omega arith),
  wrap32_sub n 1 h (omega arith),
)

module _ {F : Type 0} (s : AutoScaler F) (snapshot : Snapshot F) where
  -- Whatever the depth of the queue (also where the arithmetic on int32 wraps), a fleet of n workers
  -- below the maximum m grows by at least one, by at most half of n and one more, and not beyond m.
  pub scale_up_target_bounds :
      (n m : ℕ)
      → s.config.max_workers ≡ pos m
      → m < 2147483648
      → n < m
      → n < 1073741824
      → let t = calculate_scale_up_target s snapshot (pos n) in
        (pos n <ℤ t) × (t ≤ℤ pos m) × (t ≤ℤ pos (n + n / 2 + 1))
  unfolding calculate_scale_up_target
  scale_up_target_bounds n m e h k l = ground (
    arith,
    wrap32_pos m h,
    wrap32_add n 1 (omega arith),
    half,
    wrap32_add n (n / 2 + 1) (omega arith),
  )
    where
      half : wrap32 (quot (pos n) 2 +ℤ pos 1) ≡ pos (n / 2 + 1)
      half = unfold quot in wrap32_add (n / 2) 1 (omega arith)

  -- A fleet of n workers above the minimum m, i of them idle, shrinks by at least one, by at most a
  -- quarter of n and one, and not below m.
  pub scale_down_target_bounds :
      (n m i : ℕ)
      → s.config.min_workers ≡ pos m
      → snapshot.idle_workers ≡ pos i
      → m < n
      → n < 2147483648
      → 0 < i
      → i < 2147483648
      → let t = calculate_scale_down_target s snapshot (pos n) in
        (pos m ≤ℤ t) × (t <ℤ pos n) × (pos n ≤ℤ t +ℤ pos (n / 4 + 1))
  unfolding calculate_scale_down_target
  scale_down_target_bounds n m i e f h k l o =
      let (kept, eq, low, high) = at_least_lem n m i h k l o in
      rw (e, f, wrap32_pos m (omega arith), eq) (gradually_lem n m kept k low high)
