-- ===== src/Cluster/Ledger.antt =====
-- The contract of a budget: a counter of holders with a maximum. One more is taken only where it fits.
use node_disruption_controll.Prelude.{ℕ, ◌+◌, ◌≡◌, arith}
use node_disruption_controll.Prelude.Int.{ℤ, pos, ◌≤ℤ◌}

pub data Step (max : ℤ) (n : ℕ) : ℕ → Type 0 where
  keep : Step max n n
  take : pos (n + 1) ≤ℤ max → Step max n (n + 1)
  release : {m : ℕ} → m + 1 ≡ n → Step max n m

pub data Run (max : ℤ) (n : ℕ) : ℕ → Type 0 where
  here : Run max n n
  then_step : {m k : ℕ} → Run max n m → Step max m k → Run max n k

Step-bounded : {max : ℤ} {n m : ℕ} → Step max n m → pos n ≤ℤ max → pos m ≤ℤ max
Step-bounded keep h = h
Step-bounded (take fits) h = fits
Step-bounded (release e) h = ground arith

-- A ledger that is within its maximum stays within it.
pub Run-bounded : {max : ℤ} {n m : ℕ} → Run max n m → pos n ≤ℤ max → pos m ≤ℤ max
Run-bounded here h = h
Run-bounded (then_step r s) h = Step-bounded s (Run-bounded r h)
