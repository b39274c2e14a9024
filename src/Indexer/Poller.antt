-- ===== src/Indexer/Poller.antt =====
-- backend/internal/indexer/poller.go: one repository's poll. What the poll asks of git, of the index
-- pipeline and of the commit lane is answered by an `Answers`; what it writes to repo_state is a list
-- of statements, in the order of the calls. A poll that fails keeps what it wrote before. Not
-- modelled are the log, a statement on repo_state that fails, and the tables that EmptyStages reads.
pub mod Steps
pub mod Outcome
pub mod Warning
pub mod Requests
mod Tests
use rongo.Prelude.{
  ℕ, String, Bool, true, false, not, ◌&&◌, Option, none, some, List, [], ◌∷◌, ◌++◌, str_eq, ltb,
  length, if◌then◌else◌,
}
use Prim.Native.String.{◌++◌ as str_append}
use rongo.Indexer.State.{
  Counts, RepoState, is_snapshot, Write, clear_reindex, mark_indexed, mark_checked, mark_error,
  set_branch, reset_repo,
}

pub data Result {ℓ} (A : Type ℓ) : Type ℓ where
  ok : A → Result A
  err : String → Result A

-- What a poll of one repository hears from the packages that it calls. `index` gets the copy of the
-- state, the commit and the paths, `none` for all of them.
pub record Answers : Type 0 where
  pub origin_url : Result String
  pub remove_checkout : Result (Unit {0})
  pub ensure_cloned : Result (Unit {0})
  pub default_branch : Result String
  pub fetch : Result (Unit {0})
  pub head_sha : String → Result String
  pub ensure_snapshot : Result String
  pub has_commit : String → Result Bool
  pub changed_paths : String → String → Result (List String)
  pub index : RepoState → String → Option (List String) → Result Counts
  -- `EmptyStages`, asked after a poll that succeeds.
  pub empty_stages : Result (List String)
  pub record_history : String → Result (Unit {0})
  pub now : String

-- `gitrepo.SnapshotBranch`
abbrev pub snapshot_branch : String
snapshot_branch = "snapshot"

pub record PollResult : Type 0 where
  pub indexed : Bool
  pub full : Bool
  pub changed : ℕ
  pub requested : Bool
  pub sha : String
  pub counts : Counts

-- A part of a poll: what it returns and what it has written.
abbrev pub Poll {ℓ} : Type ℓ → Type ℓ
Poll A = Result A × List Write

abbrev pub continue {ℓ} : {A B : Type ℓ} → Result A → List Write → (A → Poll B) → Poll B
continue (ok a) ws f = let (r, later) = f a in (r, ws ++ later)
continue (err e) ws f = (err e, ws)

infixl 10 ◌>>=◌ ◌>>◌
abbrev pub ◌>>=◌ {ℓ} : {A B : Type ℓ} → Poll A → (A → Poll B) → Poll B
◌>>=◌ m f = continue m.0 m.1 f

abbrev pub ◌>>◌ {ℓ} : {A B : Type ℓ} → Poll A → Poll B → Poll B
m >> n = m >>= λ _. n

abbrev pub pure {ℓ} : {A : Type ℓ} → A → Poll A
pure a = (ok a, [])

abbrev pub ask {ℓ} : {A : Type ℓ} → Result A → Poll A
ask r = (r, [])

abbrev pub tell : Write → Poll (Unit {0})
tell w = (ok tt, w ∷ [])

-- `strings.Join`
abbrev pub join_names : List String → String → String
join_names [] sep = ""
join_names (s ∷ []) sep = s
join_names (s ∷ t ∷ ts) sep = str_append s (str_append sep (join_names (t ∷ ts) sep))

-- The message of `warnEmptyStages`.
abbrev pub stage_warning : List String → String
stage_warning names =
    str_append (str_append "declared stage " (join_names names ", "))
      " matches no indexed path: check the stage's path in repos.yaml"

module _ (a : Answers) where
  -- `honourReindex`: only the copy forgets the commit.
  unfoldable pub honour_reindex : RepoState → RepoState
  honour_reindex st = if ltb 0 st.reindex_requested then record st { last_sha = "" } else st

  -- `changedSince`
  unfoldable pub changed_since : RepoState → String → Poll (Option (List String))
  changed_since st to =
      if str_eq st.last_sha ""
      then pure none
      else (do paths ← ask (a.changed_paths st.last_sha to); pure (some paths))

  -- `resetIfLost`, where it is called: not without a recorded commit.
  unfoldable pub reset_if_lost : RepoState → Poll RepoState
  reset_if_lost st = if str_eq st.last_sha "" then pure st else (do
    has ← ask (a.has_commit st.last_sha)
    if has then pure st else (do tell reset_repo; pure (record st { last_sha = "" })))

  abbrev count : Option (List String) → ℕ
  count none = 0
  count (some paths) = length paths

  abbrev is_full : Option (List String) → Bool
  is_full none = true
  is_full (some paths) = false

  abbrev pub indexed_result : RepoState → String → Option (List String) → Counts → PollResult
  indexed_result st sha paths counts = record {
    indexed = true;
    full = is_full paths;
    changed = count paths;
    requested = ltb 0 st.reindex_requested;
    sha = sha;
    counts = counts;
  }

  -- `indexAndMark`, with what runs between the index and the mark.
  unfoldable pub index_and_mark :
      RepoState → String → Option (List String) → Result (Unit {0}) → Poll PollResult
  index_and_mark st sha paths between = do
    counts ← ask (a.index st sha paths)
    ask between
    tell (mark_indexed sha a.now counts)
    if ltb 0 st.reindex_requested then tell (clear_reindex st.reindex_requested) else pure tt
    pure (indexed_result st sha paths counts)

  abbrev pub unchanged : String → PollResult
  unchanged head = record {
    indexed = false;
    full = false;
    changed = 0;
    requested = false;
    sha = head;
    counts = record { files = 0; chunks = 0 };
  }

  -- From the head commit on, the two kinds of repository go one way.
  unfoldable pub index_head : RepoState → String → Result (Unit {0}) → Poll PollResult
  index_head st₀ head between =
      let st = honour_reindex st₀ in
      if str_eq head st.last_sha then (do tell (mark_checked a.now); pure (unchanged head)) else (do
        st' ← reset_if_lost st
        paths ← changed_since st' head
        index_and_mark st' head paths between)

  unfoldable pub poll_snapshot : RepoState → Poll PollResult
  unfolding index_head
  poll_snapshot st = do
    sha ← ask a.ensure_snapshot
    if str_eq st.branch snapshot_branch then pure tt else tell (set_branch snapshot_branch)
    index_head (record st { branch = snapshot_branch }) sha (ok tt)

  -- The checkout of another remote is dropped, and what was indexed from it.
  unfoldable pub check_origin : RepoState → Poll RepoState
  check_origin st = do
    origin ← ask a.origin_url
    if not (str_eq origin "") && not (str_eq origin st.clone_url)
        then (do tell reset_repo; ask a.remove_checkout; pure (record st { last_sha = "" }))
        else pure st

  unfoldable pub resolve_branch : RepoState → Poll RepoState
  resolve_branch st =
      if str_eq st.branch ""
      then (do
        resolved ← ask a.default_branch
        tell (set_branch resolved)
        pure (record st { branch = resolved }))
      else pure st

  unfoldable pub poll_repo : RepoState → Poll PollResult
  unfolding poll_snapshot check_origin resolve_branch index_head is_snapshot
  poll_repo st₀ = if is_snapshot st₀ then poll_snapshot st₀ else (do
    st₁ ← check_origin st₀
    ask a.ensure_cloned
    st ← resolve_branch st₁
    ask a.fetch
    head ← ask (a.head_sha st.branch)
    index_head st head (a.record_history head))

  -- `warnEmptyStages`
  abbrev pub warn_empty_stages : Result (List String) → List Write
  warn_empty_stages (ok []) = []
  warn_empty_stages (ok (name ∷ names)) = mark_error (stage_warning (name ∷ names)) a.now ∷ []
  warn_empty_stages (err e) = []

  -- `PollOnce` marks a failure, after what the failed poll has written, and warns of empty stages after a
  -- poll that succeeds.
  abbrev pub marked_writes : Poll PollResult → List Write
  marked_writes (ok _, ws) = ws ++ warn_empty_stages a.empty_stages
  marked_writes (err e, ws) = ws ++ mark_error e a.now ∷ []

  -- What `PollOnce` writes for one repository.
  unfoldable pub poll_writes : RepoState → List Write
  unfolding poll_repo
  poll_writes st = marked_writes (poll_repo st)
