-- ===== src/Indexer/Poller/Tests.antt =====
-- One repository with a pending request, polled on runs that the theorems speak of.
use rongo.Prelude.{◌<◌, ◌≡◌, ◌≢◌, refl, ◌⊎◌, true, [], ◌∷◌, String, arith, eq_iff}
use rongo.Indexer.State.{
  Counts, RepoState, request_reindex, clear_reindex, mark_indexed, mark_error, apply,
}
use rongo.Indexer.Poller.{
  Answers, Result, ok, err, PollResult, honour_reindex, reset_if_lost, changed_since,
  index_and_mark, poll_repo, poll_writes,
}
use rongo.Indexer.Poller.Steps.{Steps, own, request, done}
use rongo.Indexer.Poller.Requests.{request_kept, request_served, success_recorded, failure_recorded}

abbrev shop : RepoState
shop = record {
  clone_url = "https://git.example/shop.git";
  branch = "main";
  enabled = true;
  last_sha = "aa11";
  last_error = "fetch: timeout";
  last_run_at = "09:00";
  last_indexed_at = "08:00";
  counts = record { files = 3; chunks = 9 };
  reindex_requested = 1;
}

abbrev recounted : Counts
recounted = record { files = 4; chunks = 12 }

abbrev answers : Result Counts → Answers
answers indexed = record {
  origin_url = ok "https://git.example/shop.git";
  remove_checkout = ok tt;
  ensure_cloned = ok tt;
  default_branch = ok "main";
  fetch = ok tt;
  head_sha = λ branch. ok "bb22";
  ensure_snapshot = ok "bb22";
  has_commit = λ sha. ok true;
  changed_paths = λ from to. ok [];
  index = λ st sha paths. indexed;
  empty_stages = ok ("docs" ∷ "ops" ∷ []);
  record_history = λ sha. ok tt;
  now = "09:30";
}

abbrev good : Answers
good = answers (ok recounted)

abbrev bad : Answers
bad = answers (err "embed: quota")

abbrev full_run : PollResult
full_run = record {
  indexed = true;
  full = true;
  changed = 0;
  requested = true;
  sha = "bb22";
  counts = recounted;
}

abbrev warning : String
warning = "declared stage docs, ops matches no indexed path: check the stage's path in repos.yaml"

-- A second request arrives between the mark and the clearing.
abbrev after_two : RepoState
unfolding apply
after_two = apply (mark_error warning "09:30") (
    apply (clear_reindex 1)
      (apply request_reindex (apply (mark_indexed "bb22" "09:30" recounted) shop)))

abbrev after_one : RepoState
unfolding apply
after_one =
    apply (mark_error warning "09:30")
      (apply (clear_reindex 1) (apply (mark_indexed "bb22" "09:30" recounted) shop))

abbrev after_failure : RepoState
unfolding apply
after_failure = apply (mark_error "embed: quota" "09:30") (apply request_reindex shop)

run_two : Steps (poll_writes good shop) 1 shop after_two
unfolding poll_writes poll_repo honour_reindex reset_if_lost changed_since index_and_mark apply
    after_two
run_two = own (request (own (own done)))

run_one : Steps (poll_writes good shop) 0 shop after_one
unfolding poll_writes poll_repo honour_reindex reset_if_lost changed_since index_and_mark apply
    after_one
run_one = own (own (own done))

run_failing : Steps (poll_writes bad shop) 1 shop after_failure
unfolding poll_writes poll_repo honour_reindex reset_if_lost changed_since index_and_mark apply
    after_failure
run_failing = request (own done)

run-full : (poll_repo good shop).0 ≡ ok full_run
unfolding poll_repo honour_reindex reset_if_lost changed_since index_and_mark
run-full = refl

run-failed : (poll_repo bad shop).0 ≡ err "embed: quota"
unfolding poll_repo honour_reindex reset_if_lost changed_since index_and_mark
run-failed = refl

head-named : full_run.sha ≢ ""
head-named e = ground (arith, e, eq_iff "bb22" "")

request_kept_example : 0 < after_two.reindex_requested
request_kept_example = request_kept shop good 1 after_two refl run_two (omega arith)

success_recorded_example : (after_two.last_sha ≡ "bb22") × (after_two.last_error ≡ warning)
success_recorded_example =
    success_recorded shop good 1 after_two refl run_two full_run run-full head-named

failure_recorded_example :
    (after_failure.last_error ≡ "embed: quota")
    × (after_failure.reindex_requested ≡ 2)
    × ((after_failure.last_sha ≡ "aa11") ⊎ (after_failure.last_sha ≡ ""))
failure_recorded_example =
    failure_recorded shop bad 1 after_failure refl run_failing "embed: quota" run-failed

request_served_example :
    (full_run.indexed ≡ true) × (full_run.full ≡ true) × (after_one.reindex_requested ≡ 0)
request_served_example =
    request_served shop good after_one full_run refl run_one run-full head-named (omega arith)
