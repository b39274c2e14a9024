-- ===== src/Indexer/Poller/Outcome.antt =====
-- What a poll leaves in the repository's row, while requests for a full re-index arrive.
use rongo.Prelude.{
  ℕ, ◌+◌, ◌<◌, ◌≡◌, ◌≢◌, ◌⊎◌, String, true, false, Option, none, some, List, arith, eq_iff, str_eq,
  ltb,
}
use rongo.Indexer.State.{
  Counts, RepoState, clear_reindex, mark_indexed, mark_checked, reset_repo, apply,
}
use rongo.Indexer.Poller.{
  Answers, Result, PollResult, ask, tell, honour_reindex, indexed_result, unchanged, changed_since,
  reset_if_lost, index_and_mark, index_head, ◌>>=◌,
}
use rongo.Indexer.Poller.Steps.{
  IsStable, Ensures, Ensures-pure, Ensures-ask, Ensures-if, Ensures-tell, Ensures-bind,
  Ensures-weaken,
}

-- `start` is the row as the poll read it.
module _ (start : RepoState) where
  abbrev gen : ℕ
  gen = start.reindex_requested

  abbrev Recorded : String → Type 0
  Recorded sha = (sha ≡ start.last_sha) ⊎ (sha ≡ "")

  -- While the copy still says what the row says.
  pub record InStep (st : RepoState) (n : ℕ) (row : RepoState) : Type 0 where
    pub enabled : row.enabled ≡ true
    pub counted : row.reindex_requested ≡ gen + n
    pub copied : st.reindex_requested ≡ gen
    pub same_sha : row.last_sha ≡ st.last_sha
    pub recorded : Recorded row.last_sha

  -- Once a request is honoured the copy has no commit, and the row may have one.
  record Honoured (st : RepoState) (n : ℕ) (row : RepoState) : Type 0 where
    enabled : row.enabled ≡ true
    counted : row.reindex_requested ≡ gen + n
    copied : st.reindex_requested ≡ gen
    forgets : 0 < gen → st.last_sha ≡ ""
    same_sha : gen ≡ 0 → row.last_sha ≡ st.last_sha
    recorded : Recorded row.last_sha

  -- A poll that failed: every request is still counted, and the commit is the one recorded before,
  -- or none.
  pub record Failed (n : ℕ) (row : RepoState) : Type 0 where
    pub enabled : row.enabled ≡ true
    pub counted : row.reindex_requested ≡ gen + n
    pub recorded : Recorded row.last_sha

  -- A poll that ended well.
  pub record Succeeded (res : PollResult) (n : ℕ) (row : RepoState) : Type 0 where
    pub enabled : row.enabled ≡ true
    pub current : res.sha ≢ "" → row.last_sha ≡ res.sha
    pub healthy : row.last_error ≡ ""
    pub kept : 0 < n → 0 < row.reindex_requested
    pub served : res.indexed ≡ true → n ≡ 0 → row.reindex_requested ≡ 0
    pub full : res.indexed ≡ true → 0 < gen → res.full ≡ true
    pub idle_only_unasked : res.indexed ≡ false → res.sha ≢ "" → gen ≡ 0

  -- Before the index runs over `paths`.
  record Planned (st : RepoState) (paths : Option (List String)) (n : ℕ) (row : RepoState)
      : Type 0 where
    enabled : row.enabled ≡ true
    counted : row.reindex_requested ≡ gen + n
    copied : st.reindex_requested ≡ gen
    whole : 0 < gen → paths ≡ none
    recorded : Recorded row.last_sha

  record Marked (st : RepoState) (paths : Option (List String)) (head : String) (n : ℕ)
      (row : RepoState) : Type 0 where
    enabled : row.enabled ≡ true
    copied : st.reindex_requested ≡ gen
    whole : 0 < gen → paths ≡ none
    counted : row.reindex_requested ≡ gen + n
    current : row.last_sha ≡ head
    healthy : row.last_error ≡ ""

  record Cleared (paths : Option (List String)) (head : String) (n : ℕ) (row : RepoState)
      : Type 0 where
    enabled : row.enabled ≡ true
    whole : 0 < gen → paths ≡ none
    current : row.last_sha ≡ head
    healthy : row.last_error ≡ ""
    kept : 0 < n → 0 < row.reindex_requested
    served : n ≡ 0 → row.reindex_requested ≡ 0

  pub InStep-IsStable : (st : RepoState) → IsStable (InStep st)
  unfolding apply
  InStep-IsStable st n r h = ground arith

  Honoured-IsStable : (st : RepoState) → IsStable (Honoured st)
  unfolding apply
  Honoured-IsStable st n r h = ground arith

  pub Failed-IsStable : IsStable Failed
  unfolding apply
  Failed-IsStable n r h = ground arith

  pub Succeeded-IsStable : (res : PollResult) → IsStable (Succeeded res)
  unfolding apply
  Succeeded-IsStable res n r h = ground arith

  module _ (st : RepoState) (paths : Option (List String)) where
    Planned-IsStable : IsStable (Planned st paths)
    unfolding apply
    Planned-IsStable n r h = ground arith

    Marked-IsStable : (head : String) → IsStable (Marked st paths head)
    unfolding apply
    Marked-IsStable head n r h = ground arith

    Cleared-IsStable : (head : String) → IsStable (Cleared paths head)
    unfolding apply
    Cleared-IsStable head n r h = ground arith

    Planned-Failed : (n : ℕ) (r : RepoState) → Planned st paths n r → Failed n r
    Planned-Failed n r h = ground arith

  Honoured-Failed : (st : RepoState) (n : ℕ) (r : RepoState) → Honoured st n r → Failed n r
  Honoured-Failed st n r h = ground arith

  pub InStep-Failed : (st : RepoState) (n : ℕ) (r : RepoState) → InStep st n r → Failed n r
  InStep-Failed st n r h = ground arith

  module _ (a : Answers) where
    module _ (st : RepoState) (paths : Option (List String)) (head : String) where
      mark-Marked :
          (c : Counts) (n : ℕ) (r : RepoState)
          → Planned st paths n r
          → Marked st paths head n (apply (mark_indexed head a.now c) r)
      unfolding apply
      mark-Marked c n r h = ground arith

      clear-Cleared :
          (n : ℕ) (r : RepoState)
          → Marked st paths head n r
          → Cleared paths head n (apply (clear_reindex st.reindex_requested) r)
      unfolding apply
      clear-Cleared n r h = ground arith

      unasked-Cleared :
          (n : ℕ) (r : RepoState)
          → ltb 0 st.reindex_requested ≡ false
          → Marked st paths head n r
          → Cleared paths head n r
      unasked-Cleared n r f h = ground arith

      Cleared-Succeeded :
          (c : Counts) (n : ℕ) (r : RepoState)
          → Cleared paths head n r
          → Succeeded (indexed_result a st head paths c) n r
      Cleared-Succeeded c n r h = ground arith

      index_and_mark-Ensures :
          (between : Result (Unit {0}))
          → Ensures (Planned st paths) (index_and_mark a st head paths between) Succeeded Failed
      unfolding index_and_mark
      index_and_mark-Ensures between =
          Ensures-bind {R = λ _. Planned st paths} (ask (a.index st head paths)) _
            (Ensures-ask _ (Planned-IsStable st paths) (Planned-Failed st paths) (λ _ _ n r h. h))
            λ counts.
              Ensures-bind {R = λ _. Planned st paths} (ask between) _
                (Ensures-ask _ (Planned-IsStable st paths) (Planned-Failed st paths)
                  (λ _ _ n r h. h))
                λ _.
                  Ensures-bind {R = λ _. Marked st paths head}
                    (tell (mark_indexed head a.now counts)) _
                    (Ensures-tell _ (Planned-IsStable st paths) (Marked-IsStable st paths head)
                      (mark-Marked counts))
                    λ _.
                      Ensures-bind {R = λ _. Cleared paths head} _ _
                        (Ensures-if (ltb 0 st.reindex_requested) _ _
                          (λ t.
                            Ensures-tell _ (Marked-IsStable st paths head)
                              (Cleared-IsStable st paths head) clear-Cleared)
                          (λ f.
                            Ensures-pure tt (Cleared-IsStable st paths head)
                              (λ n r h. unasked-Cleared n r f h)))
                        λ _. Ensures-pure _ (Succeeded-IsStable _) (Cleared-Succeeded counts)

    reset-Honoured :
        (st : RepoState) (n : ℕ) (r : RepoState)
        → Honoured st n r
        → Honoured (record st { last_sha = "" }) n (apply reset_repo r)
    unfolding apply
    reset-Honoured st n r h = ground arith

    reset_if_lost-Ensures :
        (st : RepoState) → Ensures (Honoured st) (reset_if_lost a st) Honoured Failed
    unfolding reset_if_lost
    reset_if_lost-Ensures st =
        Ensures-if (str_eq st.last_sha "") _ _
          (λ t. Ensures-pure st (Honoured-IsStable st) (λ n r h. h))
          λ f.
            Ensures-bind {R = λ _. Honoured st} (ask (a.has_commit st.last_sha)) _
              (Ensures-ask _ (Honoured-IsStable st) (Honoured-Failed st) (λ _ _ n r h. h))
              λ has.
                Ensures-if has _ _ (λ _. Ensures-pure st (Honoured-IsStable st) (λ n r h. h))
                  λ _.
                    Ensures-bind {R = λ _. Honoured (record st { last_sha = "" })} (tell reset_repo)
                      _
                      (Ensures-tell _ (Honoured-IsStable st) (Honoured-IsStable _)
                        (reset-Honoured st))
                      λ _. Ensures-pure _ (Honoured-IsStable _) (λ n r h. h)

    changed_since-Ensures :
        (st : RepoState) (head : String)
        → Ensures (Honoured st) (changed_since a st head) (Planned st) Failed
    unfolding changed_since
    changed_since-Ensures st head =
        Ensures-if (str_eq st.last_sha "") _ _
          (λ t. Ensures-pure none (Planned-IsStable st none) (λ n r h. ground arith))
          λ f.
            Ensures-bind {R = λ paths. Planned st (some paths)}
              (ask (a.changed_paths st.last_sha head)) _
              (Ensures-ask _ (Honoured-IsStable st) (Honoured-Failed st)
                (λ paths _ n r h. ground (arith, eq_iff st.last_sha "")))
              λ paths. Ensures-pure (some paths) (Planned-IsStable st (some paths)) (λ n r h. h)

    honour-Honoured :
        (st : RepoState) (n : ℕ) (r : RepoState)
        → InStep st n r
        → Honoured (honour_reindex a st) n r
    unfolding honour_reindex
    honour-Honoured st n r h = ground arith

    check-Succeeded :
        (st : RepoState) (head : String) (n : ℕ) (r : RepoState)
        → str_eq head st.last_sha ≡ true
        → Honoured st n r
        → Succeeded (unchanged a head) n (apply (mark_checked a.now) r)
    unfolding apply
    check-Succeeded st head n r e h = ground (arith, eq_iff head st.last_sha)

    fresh-Ensures :
        (st : RepoState) (head : String) (between : Result (Unit {0}))
        → Ensures
            (Honoured st)
            (reset_if_lost a st >>= λ st'.
              changed_since a st' head >>= λ paths. index_and_mark a st' head paths between)
            Succeeded
            Failed
    fresh-Ensures st head between =
        Ensures-bind {R = Honoured} (reset_if_lost a st) _ (reset_if_lost-Ensures st) λ st'.
          Ensures-bind {R = Planned st'} (changed_since a st' head) _
            (changed_since-Ensures st' head) λ paths. index_and_mark-Ensures st' paths head between

    pub index_head-Ensures :
        (st : RepoState) (head : String) (between : Result (Unit {0}))
        → Ensures (InStep st) (index_head a st head between) Succeeded Failed
    unfolding index_head
    index_head-Ensures st head between =
        let st' = honour_reindex a st in
        Ensures-weaken (honour-Honoured st) (
          Ensures-if (str_eq head st'.last_sha) _ _
            (λ same.
              Ensures-bind {R = λ _. Succeeded (unchanged a head)} (tell (mark_checked a.now)) _
                (Ensures-tell _ (Honoured-IsStable st') (Succeeded-IsStable _)
                  (λ n r h. check-Succeeded st' head n r same h))
                λ _. Ensures-pure _ (Succeeded-IsStable _) (λ n r h. h))
            λ other. fresh-Ensures st' head between)
