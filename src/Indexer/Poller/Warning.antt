-- ===== src/Indexer/Poller/Warning.antt =====
-- What the warning of empty stages adds to a poll that succeeds.
use rongo.Prelude.{ℕ, ◌<◌, ◌≡◌, ◌≢◌, refl, sym, ◌∙◌, String, List, true, false, arith, ◌∷◌, []}
use rongo.Indexer.State.{RepoState, mark_error, apply}
use rongo.Indexer.Poller.{Answers, Result, ok, err, stage_warning, PollResult}
use rongo.Indexer.Poller.Steps.{IsStable}
use rongo.Indexer.Poller.Outcome.{Succeeded}

module _ (start : RepoState) (a : Answers) where
  -- What the row says of the stages after a poll that succeeds.
  abbrev pub stage_error : Result (List String) → String
  stage_error (ok []) = ""
  stage_error (ok (name ∷ names)) = stage_warning (name ∷ names)
  stage_error (err e) = ""

  -- A poll that ended well, and the warning of empty stages after it.
  pub record Warned (stages : Result (List String)) (res : PollResult) (n : ℕ) (row : RepoState)
      : Type 0 where
    pub enabled : row.enabled ≡ true
    pub current : res.sha ≢ "" → row.last_sha ≡ res.sha
    pub says : row.last_error ≡ stage_error stages
    pub kept : 0 < n → 0 < row.reindex_requested
    pub served : res.indexed ≡ true → n ≡ 0 → row.reindex_requested ≡ 0
    pub full : res.indexed ≡ true → 0 < start.reindex_requested → res.full ≡ true
    pub idle_only_unasked : res.indexed ≡ false → res.sha ≢ "" → start.reindex_requested ≡ 0

  pub quiet-Warned :
      (stages : Result (List String)) (res : PollResult) (n : ℕ) (r : RepoState)
      → stage_error stages ≡ ""
      → Succeeded start res n r
      → Warned stages res n r
  quiet-Warned stages res n r e h = record {
    enabled = h.enabled;
    current = h.current;
    says = h.healthy ∙ sym e;
    kept = h.kept;
    served = h.served;
    full = h.full;
    idle_only_unasked = h.idle_only_unasked;
  }

  pub warn-Warned :
      (name : String) (names : List String) (res : PollResult) (n : ℕ) (r : RepoState)
      → Succeeded start res n r
      → Warned (ok (name ∷ names)) res n (apply (mark_error (stage_warning (name ∷ names)) a.now) r)
  unfolding apply
  warn-Warned name names res n r h = record {
    enabled = h.enabled;
    current = h.current;
    says = refl;
    kept = h.kept;
    served = h.served;
    full = h.full;
    idle_only_unasked = h.idle_only_unasked;
  }

  pub Warned-IsStable :
      (stages : Result (List String)) (res : PollResult) → IsStable (Warned stages res)
  unfolding apply
  Warned-IsStable stages res n r h =
      rw (apply, h.enabled)
        (record {
          enabled = refl;
          current = h.current;
          says = h.says;
          kept = λ k. omega arith;
          served = λ i e. absurd (omega (arith, e));
          full = h.full;
          idle_only_unasked = h.idle_only_unasked;
        })
