-- ===== src/Indexer/Poller/Requests.antt =====
-- A whole poll beside the admin's requests: what becomes of the requests, of the recorded commit and
-- of the error.
use rongo.Prelude.{
  ℕ, ◌+◌, ◌<◌, ◌≡◌, ◌≢◌, refl, String, List, true, not, ◌&&◌, arith, str_eq, inl, inr, Bool-cases,
  ◌++◌, ◌∷◌, [], ◌⊎◌,
}
use mathlib.Core.Path.{subst}
use mathlib.Core.List.{append-nil}
use rongo.Indexer.State.{RepoState, mark_error, set_branch, reset_repo, apply, is_snapshot}
use rongo.Indexer.Poller.{
  Answers, Result, ok, err, ask, tell, snapshot_branch, poll_snapshot, check_origin, resolve_branch,
  poll_repo, poll_writes, marked_writes, stage_warning, warn_empty_stages, Poll, PollResult,
}
use rongo.Indexer.Poller.Steps.{
  IsStable, Steps, Ensures, Ensures-pure, Ensures-ask, Ensures-if, Ensures-tell, Ensures-bind,
  ends-ok, ends-written,
}
use rongo.Indexer.Poller.Outcome.{
  InStep, InStep-IsStable, InStep-Failed, Failed, Succeeded, Failed-IsStable, Succeeded-IsStable,
  index_head-Ensures,
}
use rongo.Indexer.Poller.Warning.{stage_error, Warned, quiet-Warned, warn-Warned, Warned-IsStable}

result-cases {ℓ} : {A : Type ℓ} (x : Result A) → ((v : A) × x ≡ ok v) ⊎ ((e : String) × x ≡ err e)
result-cases (ok v) = inl (v, refl)
result-cases (err e) = inr (e, refl)

module _ (start : RepoState) (a : Answers) where
  branch-InStep :
      (st : RepoState) (b : String) (n : ℕ) (r : RepoState)
      → InStep start st n r
      → InStep start (record st { branch = b }) n (apply (set_branch b) r)
  unfolding apply
  branch-InStep st b n r h = ground arith

  reset-InStep :
      (st : RepoState) (n : ℕ) (r : RepoState)
      → InStep start st n r
      → InStep start (record st { last_sha = "" }) n (apply reset_repo r)
  unfolding apply
  reset-InStep st n r h = ground arith

  rebranch-InStep :
      (st : RepoState) (b : String) (n : ℕ) (r : RepoState)
      → InStep start st n r
      → InStep start (record st { branch = b }) n r
  rebranch-InStep st b n r h = ground arith

  asked {ℓ} :
      {A : Type ℓ} (st : RepoState) (x : Result A)
      → Ensures (InStep start st) (ask x) (λ _. InStep start st) (Failed start)
  asked st x = Ensures-ask x (InStep-IsStable start st) (InStep-Failed start st) (λ _ _ n r h. h)

  check_origin-Ensures :
      (st : RepoState) → Ensures (InStep start st) (check_origin a st) (InStep start) (Failed start)
  unfolding check_origin
  check_origin-Ensures st =
      Ensures-bind {R = λ _. InStep start st} (ask a.origin_url) _ (asked st a.origin_url) λ origin.
        Ensures-if (not (str_eq origin "") && not (str_eq origin st.clone_url)) _ _
          (λ _.
            let st' = record st { last_sha = "" } in
            Ensures-bind {R = λ _. InStep start st'} (tell reset_repo) _
              (Ensures-tell reset_repo (InStep-IsStable start st) (InStep-IsStable start st')
                (reset-InStep st))
              λ _.
                Ensures-bind {R = λ _. InStep start st'} (ask a.remove_checkout) _
                  (asked st' a.remove_checkout)
                  λ _. Ensures-pure st' (InStep-IsStable start st') (λ n r h. h))
          λ _. Ensures-pure st (InStep-IsStable start st) (λ n r h. h)

  resolve_branch-Ensures :
      (st : RepoState)
      → Ensures (InStep start st) (resolve_branch a st) (InStep start) (Failed start)
  unfolding resolve_branch
  resolve_branch-Ensures st =
      Ensures-if (str_eq st.branch "") _ _
        (λ _.
          Ensures-bind {R = λ _. InStep start st} (ask a.default_branch) _
            (asked st a.default_branch)
            λ b.
              let st' = record st { branch = b } in
              Ensures-bind {R = λ _. InStep start st'} (tell (set_branch b)) _
                (Ensures-tell (set_branch b) (InStep-IsStable start st) (InStep-IsStable start st')
                  (branch-InStep st b))
                λ _. Ensures-pure st' (InStep-IsStable start st') (λ n r h. h))
        λ _. Ensures-pure st (InStep-IsStable start st) (λ n r h. h)

  poll_snapshot-Ensures :
      (st : RepoState)
      → Ensures (InStep start st) (poll_snapshot a st) (Succeeded start) (Failed start)
  unfolding poll_snapshot
  poll_snapshot-Ensures st =
      let st' = record st { branch = snapshot_branch } in
      Ensures-bind {R = λ _. InStep start st} (ask a.ensure_snapshot) _ (asked st a.ensure_snapshot)
        λ sha.
          Ensures-bind {R = λ _. InStep start st'} _ _
            (Ensures-if (str_eq st.branch snapshot_branch) _ _
              (λ _.
                Ensures-pure tt (InStep-IsStable start st') (rebranch-InStep st snapshot_branch))
              λ _.
                Ensures-tell (set_branch snapshot_branch) (InStep-IsStable start st)
                  (InStep-IsStable start st') (branch-InStep st snapshot_branch))
            λ _. index_head-Ensures start a st' sha (ok tt)

  poll_repo-Ensures :
      (st : RepoState) → Ensures (InStep start st) (poll_repo a st) (Succeeded start) (Failed start)
  unfolding poll_repo
  poll_repo-Ensures st =
      Ensures-if (is_snapshot st) _ _ (λ _. poll_snapshot-Ensures st)
        λ _. Ensures-bind {R = InStep start} (check_origin a st) _ (check_origin-Ensures st) λ st₁.
          Ensures-bind {R = λ _. InStep start st₁} (ask a.ensure_cloned) _
            (asked st₁ a.ensure_cloned)
            λ _.
              Ensures-bind {R = InStep start} (resolve_branch a st₁) _ (resolve_branch-Ensures st₁)
                λ st₂.
                  Ensures-bind {R = λ _. InStep start st₂} (ask a.fetch) _ (asked st₂ a.fetch) λ _.
                    Ensures-bind {R = λ _. InStep start st₂} (ask (a.head_sha st₂.branch)) _
                      (asked st₂ (a.head_sha st₂.branch))
                      λ head. index_head-Ensures start a st₂ head (a.record_history head)

  starts-InStep : start.enabled ≡ true → InStep start start 0 start
  starts-InStep e = ground arith

  -- What the row is after a failed poll that was recorded as one.
  record Recorded (e : String) (n : ℕ) (row : RepoState) : Type 0 where
    failed : Failed start n row
    says : row.last_error ≡ e

  Recorded-IsStable : (e : String) → IsStable (Recorded e)
  unfolding apply
  Recorded-IsStable e n r h = ground arith

  mark-Recorded :
      (e now : String) (n : ℕ) (r : RepoState)
      → Failed start n r
      → Recorded e n (apply (mark_error e now) r)
  unfolding apply
  mark-Recorded e now n r h = ground arith

  marked-ok :
      (m : Poll PollResult) (res : PollResult)
      → m.0 ≡ ok res
      → marked_writes a m ≡ m.1 ++ warn_empty_stages a a.empty_stages
  marked-ok (ok _, ws) res e = refl
  marked-ok (err msg, ws) res e = cc

  marked-err :
      (m : Poll PollResult) (msg : String)
      → m.0 ≡ err msg
      → marked_writes a m ≡ m.1 ++ mark_error msg a.now ∷ []
  marked-err (ok _, ws) msg e = cc
  marked-err (err _, ws) msg e = cc

  module _ (n : ℕ) (row : RepoState) (on : start.enabled ≡ true)
      (run : Steps (poll_writes a start) n start row) where
    quiet_end :
        (stages : Result (List String)) (res : PollResult)
        → (poll_repo a start).0 ≡ ok res
        → stage_error start a stages ≡ ""
        → Steps ((poll_repo a start).1 ++ []) n start row
        → Warned start a stages res n row
    quiet_end stages res e q st = quiet-Warned start a stages res n row q (
        ends-ok (poll_repo a start) res n start row e (poll_repo-Ensures start) (starts-InStep on)
          (subst (λ t. Steps t n start row) (append-nil ((poll_repo a start).1)) st))

    after_warning :
        (stages : Result (List String)) (res : PollResult)
        → (poll_repo a start).0 ≡ ok res
        → Steps ((poll_repo a start).1 ++ warn_empty_stages a stages) n start row
        → Warned start a stages res n row
    after_warning (ok []) res e st = quiet_end (ok []) res e refl st
    after_warning (err msg) res e st = quiet_end (err msg) res e refl st
    after_warning (ok (name ∷ names)) res e st =
        ends-written (poll_repo a start) (Warned start a (ok (name ∷ names)) res) (ok res)
          (mark_error (stage_warning (name ∷ names)) a.now) n start row e (poll_repo-Ensures start)
          (Succeeded-IsStable start res) (Warned-IsStable start a (ok (name ∷ names)) res)
          (warn-Warned start a name names res) (starts-InStep on) st

    after-ok :
        (res : PollResult)
        → (poll_repo a start).0 ≡ ok res
        → Warned start a a.empty_stages res n row
    unfolding poll_writes
    after-ok res e =
        after_warning a.empty_stages res e
          (subst (λ t. Steps t n start row) (marked-ok (poll_repo a start) res e) run)

    after-err : (e : String) → (poll_repo a start).0 ≡ err e → Recorded e n row
    unfolding poll_writes
    after-err msg e =
        ends-written (poll_repo a start) (Recorded msg) (err msg) (mark_error msg a.now) n start row
          e (poll_repo-Ensures start) (Failed-IsStable start) (Recorded-IsStable msg)
          (mark-Recorded msg a.now) (starts-InStep on)
          (subst (λ t. Steps t n start row) (marked-err (poll_repo a start) msg e) run)

    -- A request that arrives while the poll of an active repository runs is still pending after it,
    -- whether the poll succeeds or fails.
    pub request_kept : 0 < n → 0 < row.reindex_requested
    request_kept h = elim (result-cases (poll_repo a start).0) [
      | inl (res, e) ↦ (after-ok res e).kept h
      | inr (msg, e) ↦ let c = (after-err msg e).failed.counted in omega (arith, c, h)
    ]

    -- A poll of an active repository that succeeds, with a head commit, leaves that commit recorded.
    -- Its error is the warning of the declared stages that no indexed path lies under, by their names,
    -- if EmptyStages gives some; and there is none if it gives none or fails.
    pub success_recorded :
        (res : PollResult)
        → (poll_repo a start).0 ≡ ok res
        → res.sha ≢ ""
        → (row.last_sha ≡ res.sha) × (row.last_error ≡ stage_error start a a.empty_stages)
    success_recorded res e head = let h = after-ok res e in (h.current head, h.says)

    -- A poll of an active repository that fails records its error; the row still counts every
    -- request, those before the poll and those during it, and its commit is the one it had before,
    -- or none.
    pub failure_recorded :
        (msg : String)
        → (poll_repo a start).0 ≡ err msg
        → (row.last_error ≡ msg)
          × (row.reindex_requested ≡ start.reindex_requested + n)
          × ((row.last_sha ≡ start.last_sha) ⊎ (row.last_sha ≡ ""))
    failure_recorded msg e =
        let h = after-err msg e in (h.says, h.failed.counted, h.failed.recorded)

-- A poll of an active repository with a pending request, when no other request arrives, succeeds
-- with a head commit only by a full index, and then nothing is pending.
pub request_served :
    (start : RepoState) (a : Answers) (row : RepoState) (res : PollResult)
    → start.enabled ≡ true
    → Steps (poll_writes a start) 0 start row
    → (poll_repo a start).0 ≡ ok res
    → res.sha ≢ ""
    → 0 < start.reindex_requested
    → (res.indexed ≡ true) × (res.full ≡ true) × (row.reindex_requested ≡ 0)
request_served start a row res on run e head asks =
    let h = after-ok start a 0 row on run res e in
    elim (Bool-cases res.indexed) [
      | inl t ↦ (t, h.full t asks, h.served t refl)
      | inr f ↦ absurd (omega (arith, h.idle_only_unasked f head, asks))
    ]
