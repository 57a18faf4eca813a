-- ===== src/Tests/Hardware.antt =====
-- src/internal/commit.rs: commits in hardware.
use swym.Shared.{◌≡◌, true, false, some, List, [], ◌∷◌, refl, arith}
use swym.Gc.Garbage
use swym.Gc.Garbage.Balance.{new-IsBalanced}
use swym.WriteLog.Entries.{word_len}
use swym.Commit.{Outcome}
use swym.Commit.Atomic.{Committed}
use swym.Commit.Hard.{Bounded, BeginCode, bounded, commit_hard, commit, start_htx}
use swym.Commit.Hard.Whole.{CommitEnd, commit_hard-Committed, commit-CommitEnd}
use swym.Tests.Sample.{three_IsTime, one_write-IsSynced, logs, world, visits, visits-Ends}

-- A retry, then a conflict that is not worth a retry.
abbrev codes : List BeginCode
codes =
    record { is_explicit_abort = false; is_conflict = true; is_retry = true }
    ∷ record { is_explicit_abort = false; is_conflict = true; is_retry = false }
    ∷ []

gives_up : bounded 3 0 codes ≡ Bounded.abort_or_conflict
unfolding bounded
gives_up = refl

falls_back : bounded 0 0 codes ≡ Bounded.software_fallback
unfolding bounded
falls_back = refl

too_small : start_htx true codes logs ≡ Bounded.software_fallback
unfolding start_htx word_len
too_small = refl

commit_hard-Committed_example :
    (o : Outcome) × (commit_hard 3 visits world logs ≡ some o) × Committed 3 world logs (32 ∷ []) o
commit_hard-Committed_example =
    commit_hard-Committed 3 visits world logs (32 ∷ []) three_IsTime one_write-IsSynced
      new-IsBalanced (unfold Garbage.new in omega arith) (unfold Garbage.new in omega arith)
      (omega arith) (omega arith, tt) visits-Ends refl

commit-CommitEnd_example :
    (o : Outcome) × (commit true codes 3 visits world logs ≡ some o)
    × CommitEnd 3 world logs (32 ∷ []) codes o
commit-CommitEnd_example =
    commit-CommitEnd 3 visits world logs (32 ∷ []) three_IsTime one_write-IsSynced new-IsBalanced
      (unfold Garbage.new in omega arith) (unfold Garbage.new in omega arith) (omega arith)
      (omega arith, tt) visits-Ends true codes refl
