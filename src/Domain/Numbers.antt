-- ===== src/Domain/Numbers.antt =====
-- Rust's `i64` and `i32` as whole numbers, and `f64`: a finite number is a sign and m / 2 ^ k.
use Prim.Native.Nat.{◌^◌}
use crono.Prelude.{ℕ, Bool, true, false, ltb, leb, ◌==◌}

pub data ℤ : Type 0 where
  pos negsuc : ℕ → ℤ

pub data F64 : Type 0 where
  -- whether it is negative, m and k
  finite : Bool → ℕ → ℕ → F64
  infinite : Bool → F64
  nan : F64

abbrev pub is_finite : F64 → Bool
is_finite (F64.finite negative m k) = true
is_finite _ = false

-- `x < 1.0`
abbrev pub below_one : F64 → Bool
below_one (F64.finite true m k) = true
below_one (F64.finite false m k) = ltb m (2 ^ k)
below_one (F64.infinite negative) = negative
below_one F64.nan = false

-- `(0.0..=1.0).contains(&x)`
abbrev pub in_unit : F64 → Bool
in_unit (F64.finite true m k) = m == 0
in_unit (F64.finite false m k) = leb m (2 ^ k)
in_unit _ = false
