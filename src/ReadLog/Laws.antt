-- ===== src/ReadLog/Laws.antt =====
-- src/internal/read_log.rs: what a validation says of the locks.
use swym.Shared.{ℕ, ◌≡◌, ◌≤◌, ◌↔◌, true, List, [], ◌∷◌, All, arith, refl}
use swym.Epoch.Word.{QuiesceEpoch}
use swym.Memory.{Memory}
use swym.ReadLog.{all_valid}

-- The lock of a cell is not later than the epoch, which a locked one always is.
abbrev pub IsReadable : QuiesceEpoch → Memory → ℕ → Type 0
IsReadable e m k = (m k).current_epoch ≤ e

-- A validation succeeds exactly when every lock is readable at the epoch.
pub all_valid_iff :
    (e : QuiesceEpoch) (m : Memory) (ks : List ℕ)
    → (all_valid e m ks ≡ true) ↔ All (IsReadable e m) ks
unfolding all_valid
all_valid_iff e m [] = ((λ _. tt), λ _. refl)
all_valid_iff e m (k ∷ ks) = (
  (λ h. (ground arith, (all_valid_iff e m ks).0 (ground arith))),
  (λ a. ground (arith, (all_valid_iff e m ks).1 a.1, a.0)),
)
