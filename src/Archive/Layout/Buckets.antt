-- ===== src/Archive/Layout/Buckets.antt =====
-- src/archive/layout.rs: what `aligned_epoch` promises.
use focl.Base.{ℕ, ◌+◌, ◌-◌, ◌%◌, ◌^◌, ◌≤◌, ◌<◌, ◌≡◌, ◌↔◌, ap, ◌∙◌, arith, ok}
use focl.Base.Int.{
  ℤ, pos, negsuc, pos_part, neg_part, ◌≤ℤ◌, ◌<ℤ◌, ◌+ℤ◌, ◌-ℤ◌, rem_euclid, wrap_i64_id, FitsI64,
  int_laws, +ℤ_parts,
}
use focl.Archive.Layout.{aligned_epoch}

-- The timestamps whose bucket of `k` seconds starts inside the range of an `i64`.
abbrev pub InRange : ℤ → ℕ → Type 0
InRange ts k = (pos_part ts < 2 ^ 63) × (neg_part ts + k ≤ 2 ^ 63)

-- The multiple of `k` at or just below `ts`.
pub record IsBucket (ts : ℤ) (k : ℕ) (a : ℤ) : Type 0 where
  pub starts : a ≤ℤ ts
  pub ends : ts <ℤ a +ℤ pos k
  pub multiple : rem_euclid a k ≡ 0

mod-lt' : (n k : ℕ) → 0 < k → n % k < k
mod-lt' n k h = grind arith

mod-sub-mod : (n k : ℕ) → 0 < k → (n - n % k) % k ≡ 0
mod-sub-mod n k h = grind arith

mod-below : (n k : ℕ) → 0 < k → (n - n % k + k - 1) % k ≡ k - 1
mod-below n k h = grind arith

abbrev bucket : ℤ → ℕ → ℤ
bucket (pos n) k = pos (n - n % k)
bucket (negsuc n) k = negsuc (n - n % k + k - 1)

sub-rem_euclid : (ts : ℤ) (k : ℕ) → 0 < k → ts -ℤ pos (rem_euclid ts k) ≡ bucket ts k
unfolding ◌-ℤ◌ rem_euclid
sub-rem_euclid (pos n) k h = ground (arith, mod-lt' n k h)
sub-rem_euclid (negsuc n) k h = ground (arith, mod-lt' n k h)

bucket-FitsI64 : (ts : ℤ) (k : ℕ) → 0 < k → InRange ts k → FitsI64 (bucket ts k)
bucket-FitsI64 (pos n) k h r = omega arith
bucket-FitsI64 (negsuc n) k h r = omega (arith, mod-lt' n k h)

pub aligned_epoch-bucket :
    (ts : ℤ) (k : ℕ) → 0 < k → InRange ts k → aligned_epoch ts k ≡ ok (bucket ts k)
unfolding aligned_epoch
aligned_epoch-bucket ts k h r =
    ground (arith, sub-rem_euclid ts k h, wrap_i64_id (bucket ts k), bucket-FitsI64 ts k h r)

bucket-IsBucket : (ts : ℤ) (k : ℕ) → 0 < k → IsBucket ts k (bucket ts k)
unfolding rem_euclid
bucket-IsBucket (pos n) k h = record {
  starts = omega arith;
  ends = omega (int_laws, mod-lt' n k h);
  multiple = mod-sub-mod n k h;
}
bucket-IsBucket (negsuc n) k h = record {
  starts = omega (arith, mod-lt' n k h);
  ends = omega (int_laws, mod-lt' n k h);
  multiple = omega (arith, mod-below n k h);
}

-- Two multiples of `k` less than `k` apart are equal.
multiples_apart : (a b k : ℕ) → 0 < k → a % k ≡ 0 → b % k ≡ 0 → a < b + k → b < a + k → a ≡ b
multiples_apart a b k h p q l r = grind arith

mixed_signs : (a b k : ℕ) → 0 < k → a % k ≡ 0 → k - 1 - b % k ≡ 0 → a + b + 1 < k → ⊥
mixed_signs a b k h p q l = grind (arith, mod-lt' b k h)

negative_apart :
    (a b k : ℕ) → 0 < k → k - 1 - a % k ≡ 0 → k - 1 - b % k ≡ 0 → a < b + k → b < a + k → a ≡ b
negative_apart a b k h p q l r = grind (arith, mod-lt' a k h, mod-lt' b k h)

-- The distance of two buckets of one timestamp, as bounds on their parts.
IsBucket-near :
    (ts : ℤ) (k : ℕ) (a b : ℤ)
    → IsBucket ts k a
    → IsBucket ts k b
    → pos_part a + neg_part b < pos_part b + neg_part a + k
IsBucket-near ts k a b p q = omega (arith, p.starts, q.ends, +ℤ_parts b (pos k))

IsBucket-unique : (ts : ℤ) (k : ℕ) (a b : ℤ) → 0 < k → IsBucket ts k a → IsBucket ts k b → a ≡ b
unfolding rem_euclid
IsBucket-unique ts k (pos a) (pos b) h p q = ap pos (
    multiples_apart a b k h p.multiple q.multiple
      (omega (arith, IsBucket-near ts k (pos a) (pos b) p q))
      (omega (arith, IsBucket-near ts k (pos b) (pos a) q p)))
IsBucket-unique ts k (pos a) (negsuc b) h p q = absurd (
    mixed_signs a b k h p.multiple q.multiple
      (omega (arith, IsBucket-near ts k (pos a) (negsuc b) p q)))
IsBucket-unique ts k (negsuc a) (pos b) h p q = absurd (
    mixed_signs b a k h q.multiple p.multiple
      (omega (arith, IsBucket-near ts k (pos b) (negsuc a) q p)))
IsBucket-unique ts k (negsuc a) (negsuc b) h p q = ap negsuc (
    negative_apart a b k h p.multiple q.multiple
      (omega (arith, IsBucket-near ts k (negsuc b) (negsuc a) q p))
      (omega (arith, IsBucket-near ts k (negsuc a) (negsuc b) p q)))

-- Inside the range of an `i64`, the bucket of a timestamp is `a` exactly when `a` is a multiple of
-- the interval, at or below the timestamp, and less than an interval below it.
pub aligned_epoch_iff :
    (ts : ℤ) (k : ℕ) (a : ℤ) → 0 < k → InRange ts k → (aligned_epoch ts k ≡ ok a) ↔ IsBucket ts k a
aligned_epoch_iff ts k a h r = (
  λ e.
      let same : bucket ts k ≡ a = cc (aligned_epoch-bucket ts k h r) in
      rw (← same) (bucket-IsBucket ts k h),
  λ b.
      aligned_epoch-bucket ts k h r
      ∙ ap ok (IsBucket-unique ts k (bucket ts k) a h (bucket-IsBucket ts k h) b),
)
