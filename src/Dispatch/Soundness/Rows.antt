-- ===== src/Dispatch/Soundness/Rows.antt =====
-- Lookups in a table behind the SQL statements.

use mathlib.Core.Path.{fun_ext}
use crono.Prelude.{ℕ, ◌≡◌, Bool, true, false, some, arith, ◌==◌, if◌then◌else◌}
use crono.Dispatch.Tables.{Table, update_where, affects}

module _ {A : Type 0} (table : Table A) (key : ℕ) where
  pub affects-inv :
      (test : A → Bool)
      → affects table key test ≡ true
      → (row : A) × (table key ≡ some row) × (test row ≡ true)
  affects-inv test h = ground arith

  -- An update that hits, read at any key.
  pub update_where_hit :
      (test : A → Bool) (set : A → A) (row : A)
      → table key ≡ some row
      → test row ≡ true
      → (j : ℕ) → update_where table key test set j ≡ (if j == key then some (set row) else table j)
  update_where_hit test set row at hit j = ground arith

  -- An update that misses changes nothing.
  pub update_where_miss :
      (test : A → Bool) (set : A → A)
      → affects table key test ≡ false
      → update_where table key test set ≡ table
  update_where_miss test set miss = fun_ext λ j. ground arith
