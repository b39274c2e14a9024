-- ===== src/Indexer/Pipeline/Whole.antt =====
-- backend/internal/indexer/index.go: IndexRepo, as what it leaves of every path of every repository.
use rongo.Prelude.{
  ◌≡◌, refl, sym, ◌∙◌, inl, inr, false, Option, none, some, List, [], ◌∷◌, map, Text, text_eq,
  text_eq_iff, text_in, ◌≢◌, if◌then◌else◌, Bool-cases,
}
use mathlib.Core.Path.{subst}
use rongo.Prelude.Fallible.{Outcome, Outcome-bind, Outcome-map, Option-cases, none_or_some}
use rongo.Indexer.State.{Counts}
use rongo.Indexer.Write.{delete_files_not_in}
use rongo.Indexer.Write.InStep.{IsInStep}
use rongo.Indexer.Write.Files.{text_eq_comm}
use rongo.Indexer.Write.View.{Entry, view}
use rongo.Indexer.Write.Retire.{delete_files_not_in_lem}
use rongo.Indexer.Pipeline.Sources.{
  Target, Deps, target_of, changed_at, bare_target, targets, totals,
}
use rongo.Indexer.Pipeline.Laws.{IsReliable, CanRun, IsHonest, IsWide}
use rongo.Indexer.Pipeline.{Run, index_target, index_targets, retire, index_repo}
use rongo.Indexer.Pipeline.Plan.{wanted, Says, last_of}
use rongo.Indexer.Pipeline.One.{IsDone, Ready, index_target-IsDone}

-- A path that no target names.
unnamed :
    (p : Text) (tgs : List Target)
    → last_of p tgs ≡ none
    → text_in p (map (λ (tg : Target). tg.path) tgs) ≡ false
unfolding last_of text_in
unnamed p [] h = refl
unnamed p (tg ∷ tgs) h = elim (Option-cases (last_of p tgs)) [
  | inr (x, e) ↦ absurd (none_or_some (last_of p (tg ∷ tgs)) x h (rw (last_of, e) refl))
  | inl n ↦ elim (Bool-cases (text_eq tg.path p)) [
    | inl t ↦ absurd (none_or_some (last_of p (tg ∷ tgs)) tg h (rw (last_of, n, t) refl))
    | inr f ↦ rw (text_eq_comm p tg.path ∙ f) (unnamed p tgs n)
  ]
]

module _ {V S : Type 0} (d : Deps V S) (repo sha : Text) (P : Text → V → Type 0) (Good : S → Type 0)
    (honest : IsHonest d P Good) (wide : IsWide d P) where
  -- What is left of a path of the repository: what is wanted of its last target, else what was there.
  abbrev pub IsLeft : Option Target → Option (Entry V) → Option (Entry V) → Type 0
  IsLeft none before after = after ≡ before
  IsLeft (some tg) before after = Says d repo sha P (wanted d repo sha tg) after

  pub record IsIndexed (tgs : List Target) (before : Text → Option (Entry V)) (run run1 : Run V S)
      : Type 0 where
    pub step : IsInStep (run1.0)
    pub good : Good (run1.1)
    pub others : (r p : Text) → text_eq repo r ≡ false → view (run1.0) r p ≡ view (run.0) r p
    pub each : (p : Text) → IsLeft (last_of p tgs) (before p) (view (run1.0) repo p)

  more-IsLeft :
      (tg : Target) (p : Text) (rest : Option Target) (run run1 : Run V S) (o : Option (Entry V))
      → IsDone d repo sha P Good honest wide tg.path (wanted d repo sha tg) run run1
      → IsLeft rest (view (run1.0) repo p) o
      → IsLeft
          (elim rest [ some x ↦ some x | none ↦ if text_eq tg.path p then some tg else none ])
          (view (run.0) repo p)
          o
  more-IsLeft tg p (some x) run run1 o k l = l
  more-IsLeft tg p none run run1 o k l =
      let self = (text_eq_iff repo repo).1 refl in
      elim (Bool-cases (text_eq tg.path p)) [
        | inl t ↦
            let e : o ≡ k.entry = l ∙ k.views repo p ∙ rw (self, t) refl in
            rw t (subst (Says d repo sha P (wanted d repo sha tg)) (sym e) k.says)
        | inr n ↦ rw n (l ∙ k.views repo p ∙ rw (self, n) refl)
      ]

  index_targets-IsIndexed :
      (tgs : List Target) (run : Run V S)
      → Ready d repo sha P Good honest wide run
      → Outcome
          (¬ CanRun d repo)
          (IsIndexed tgs (λ p. view (run.0) repo p) run)
          (index_targets d repo sha tgs run)
  unfolding index_targets last_of
  index_targets-IsIndexed [] run h = record {
    step = h.0;
    good = h.1;
    others = λ r p n. refl;
    each = λ p. refl;
  }
  index_targets-IsIndexed (tg ∷ tgs) run h =
      Outcome-bind (¬ CanRun d repo)
        (IsDone d repo sha P Good honest wide tg.path (wanted d repo sha tg) run) _
        (index_target d repo sha tg run) _
        (index_target-IsDone d repo sha P Good honest wide tg run h)
        (λ run1 k.
          Outcome-map (¬ CanRun d repo) (index_targets d repo sha tgs run1)
            (λ run2 l. record {
              step = l.step;
              good = l.good;
              others = λ r p n. l.others r p n ∙ k.views r p ∙ rw n refl;
              each = λ p.
                  more-IsLeft tg p (last_of p tgs) run run1 (view (run2.0) repo p) k (l.each p);
            })
            (index_targets-IsIndexed tgs run1 (k.step, k.good)))

  -- What the index says of the repository's paths before the loop.
  abbrev pub at_start : Option (List Text) → Run V S → Text → Option (Entry V)
  at_start none run p = none
  at_start (some paths) run p = view (run.0) repo p

  retired_view :
      (tgs : List Target) (run : Run V S) (p : Text) (o : Option (Entry V))
      → IsInStep (run.0)
      → IsLeft
          (last_of p tgs)
          (view (delete_files_not_in repo (map (λ (tg : Target). tg.path) tgs) (run.0)) repo p)
          o
      → IsLeft (last_of p tgs) none o
  retired_view tgs run p o h l = go (last_of p tgs) refl l
    where
      go :
          (rest : Option Target)
          → last_of p tgs ≡ rest
          → IsLeft rest
              (view (delete_files_not_in repo (map (λ (tg : Target). tg.path) tgs) (run.0)) repo p)
              o
          → IsLeft rest none o
      go (some x) e l = l
      go none e l =
          l
          ∙ (delete_files_not_in_lem repo (map (λ (tg : Target). tg.path) tgs) (run.0) h).1 repo p
          ∙ rw ((text_eq_iff repo repo).1 refl, unnamed p tgs e) refl

  retire-IsIndexed :
      (paths : Option (List Text)) (tgs : List Target) (run : Run V S)
      → Ready d repo sha P Good honest wide run
      → Outcome
          (¬ CanRun d repo)
          (IsIndexed tgs (at_start paths run) run)
          (index_targets d repo sha tgs (retire d repo sha paths tgs run))
  retire-IsIndexed (some paths) tgs run h = index_targets-IsIndexed tgs run h
  retire-IsIndexed none tgs run (h, g) =
      let k = delete_files_not_in_lem repo (map (λ (tg : Target). tg.path) tgs) (run.0) h in
      let run0 = retire d repo sha none tgs run in
      Outcome-map (¬ CanRun d repo) (index_targets d repo sha tgs run0)
        (λ run1 l. record {
          step = l.step;
          good = l.good;
          others = λ r p n. l.others r p n ∙ k.1 r p ∙ rw n refl;
          each = λ p. retired_view tgs run p (view (run1.0) repo p) h (l.each p);
        })
        (index_targets-IsIndexed tgs run0 (k.0, g))

  -- The targets were resolved, all of them are dealt with, and the totals are those of the index.
  pub record IsRepoIndexed (last_sha : Text) (paths : Option (List Text)) (run : Run V S)
      (r : Run V S × Counts) : Type 0 where
    pub tgs : List Target
    pub resolved : targets d last_sha sha paths ≡ some tgs
    pub indexed : IsIndexed tgs (at_start paths run) run (r.0)
    pub counts : r.1 ≡ totals repo (r.0.0)

  targets_found :
      IsReliable d
      → (last_sha : Text) (paths : Option (List Text)) → targets d last_sha sha paths ≢ none
  unfolding targets
  targets_found rel last_sha none e =
      let k = rel.lists sha in
      none_or_some (targets d last_sha sha none) (map target_of k.0) e (rw (targets, k.1) refl)
  targets_found rel last_sha (some paths) e = elim (Bool-cases (text_eq last_sha [])) [
    | inl t ↦
        none_or_some (targets d last_sha sha (some paths))
          (map (λ (p : Text). changed_at p [] (bare_target p)) paths) e (rw (targets, t) refl)
    | inr n ↦
        let k = rel.diffs last_sha sha in
        none_or_some (targets d last_sha sha (some paths))
          (map (λ (p : Text). changed_at p (k.0) (bare_target p)) paths) e
          (rw (targets, n, k.1) refl)
  ]

  -- For an index in step, and a cache and an embedder that are honest, with vectors of the width of the table,
  -- IndexRepo fails only if a collaborator does, the run is cancelled or repo_state does not have the
  -- repository. Else it has come to every target; the index stays in step; of each path of
  -- the repository that a target names it says what is wanted of the last such target: nothing if that is gone
  -- or no file, the row with the selector's verdict, or the chunks of ChunkFile with right vectors, their
  -- symbols that are definitions and their tokens; of a path that none names it says nothing after a full run,
  -- and what it said after an incremental one; of other repositories it says what it said.
  pub index_repo-IsRepoIndexed :
      (last_sha : Text) (paths : Option (List Text)) (run : Run V S)
      → IsInStep (run.0)
      → Good (run.1)
      → Outcome
          (¬ CanRun d repo)
          (IsRepoIndexed last_sha paths run)
          (index_repo d repo sha last_sha paths run)
  unfolding index_repo
  index_repo-IsRepoIndexed last_sha paths run h g =
      elim (Option-cases (targets d last_sha sha paths)) [
        | inl n ↦ rw n (λ can. targets_found can.0 last_sha paths n)
        | inr (tgs, e) ↦ rw e (
            Outcome-bind (¬ CanRun d repo) (IsIndexed tgs (at_start paths run) run)
              (IsRepoIndexed last_sha paths run)
              (index_targets d repo sha tgs (retire d repo sha paths tgs run)) _
              (retire-IsIndexed paths tgs run (h, g))
              (λ run1 k. record { tgs = tgs; resolved = e; indexed = k; counts = refl }))
      ]
