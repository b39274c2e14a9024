-- ===== src/Indexer/State.antt =====
-- backend/internal/indexer/state.go: a row of the table repo_state, one for each repository, and the
-- statements that change it, every one with the repository's name in its condition. A time stamp is
-- an argument, what the clock showed.
use rongo.Prelude.{ℕ, ◌+◌, String, Bool, str_eq, ◌==◌, if◌then◌else◌}

pub record Counts : Type 0 where
  pub files : ℕ
  pub chunks : ℕ

-- The columns that the poller reads or writes; `RepoState` is a copy of them.
pub record RepoState : Type 0 where
  pub clone_url : String
  pub branch : String
  pub enabled : Bool
  pub last_sha : String
  pub last_error : String
  pub last_run_at : String
  pub last_indexed_at : String
  pub counts : Counts
  pub reindex_requested : ℕ

-- `RepoState.Snapshot`: no remote.
unfoldable pub is_snapshot : RepoState → Bool
is_snapshot r = str_eq r.clone_url ""

-- One statement over a row. The constructors are the methods of `StateStore`.
pub data Write : Type 0 where
  request_reindex : Write
  clear_reindex : (gen : ℕ) → Write
  mark_indexed : (sha now : String) → Counts → Write
  set_counts : Counts → Write
  mark_checked : (now : String) → Write
  mark_error : (msg now : String) → Write
  set_branch : (branch : String) → Write
  reset_repo : Write

-- What the statement sets. `request_reindex` has `AND enabled = 1` in its condition, and
-- `clear_reindex` has `AND reindex_requested = gen`. Of `reset_repo` this is the row's part.
unfoldable pub apply : Write → RepoState → RepoState
apply request_reindex r =
    if r.enabled then record r { reindex_requested = r.reindex_requested + 1 } else r
apply (clear_reindex gen) r =
    if r.reindex_requested == gen then record r { reindex_requested = 0 } else r
apply (mark_indexed sha now c) r = record r {
  last_sha = sha;
  last_run_at = now;
  last_indexed_at = now;
  last_error = "";
  counts = c;
}
apply (set_counts c) r = record r { counts = c }
apply (mark_checked now) r = record r { last_error = ""; last_run_at = now }
apply (mark_error msg now) r = record r { last_error = msg; last_run_at = now }
apply (set_branch b) r = record r { branch = b }
apply reset_repo r = record r {
  last_sha = "";
  last_indexed_at = "";
  last_error = "";
  counts = record { files = 0; chunks = 0 };
}
