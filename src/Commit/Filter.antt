-- ===== src/Commit/Filter.antt =====
-- src/internal/commit.rs: the reads that a commit validates.
use swym.Shared.{
  ℕ, ◌≡◌, Option, none, some, List, [], ◌∷◌, if◌then◌else◌, member, arith, refl, ◌∙◌, map,
}
use swym.ReadLog
use swym.ReadLog.{ReadLog, all_valid, valid_at}
use swym.WriteLog
use swym.WriteLog.{WriteLog}
use swym.WriteLog.Entries.{WriteEntry, epoch_locks}
use swym.WriteLog.Layout.{view-member, member-view}
use swym.WriteLog.Refine.{IsSynced, Finds, find-Finds}
use swym.Commit.{filter_reads, is_found}

-- The cells of a list that have no pending value.
unfoldable pub unwritten : List WriteEntry → List ℕ → List ℕ
unwritten es [] = []
unwritten es (k ∷ ks) = if member k (epoch_locks es) then unwritten es ks else k ∷ unwritten es ks

-- What `remove_writes_from_reads` leaves.
pub record Filtered (ks : List ℕ) (w : WriteLog) (r : List (Option ℕ) × WriteLog) : Type 0 where
  pub kept : ReadLog.epoch_locks r.0 ≡ unwritten w.entries ks
  pub synced : IsSynced r.1
  pub same : r.1.entries ≡ w.entries

found-member :
    (k : ℕ) (w : WriteLog) (r : Option WriteEntry × WriteLog)
    → Finds k w r
    → is_found r.0 ≡ member k (epoch_locks w.entries)
found-member k w (none, w') f = ground (arith, f.found, member-view k w.entries)
found-member k w (some e, w') f = ground (arith, f.found, view-member k w.entries)

-- `remove_writes_from_reads` takes exactly the cells with a pending value out of the reads.
pub filter_reads-Filtered :
    (ks : List ℕ) (w : WriteLog)
    → IsSynced w
    → (r : List (Option ℕ) × WriteLog) × (filter_reads (map some ks) w ≡ some r) × Filtered ks w r
unfolding filter_reads ReadLog.epoch_locks unwritten
filter_reads-Filtered [] w s = (([], w), refl, record { kept = refl; synced = s; same = refl })
filter_reads-Filtered (k ∷ ks) w s =
    let f = find-Finds k w s in
    let (r, run, rest) = filter_reads-Filtered ks (WriteLog.find k w).1 f.synced in
    (
      ((if is_found (WriteLog.find k w).0 then none else some k) ∷ r.0, r.1),
      rw run,
      record {
        kept = ground (arith, found-member k w (WriteLog.find k w) f, rest.kept, f.same);
        synced = rest.synced;
        same = rest.same ∙ f.same;
      },
    )
