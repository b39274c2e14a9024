-- ===== src/Indexer/Pipeline/One.antt =====
-- backend/internal/indexer/index.go: one step of the loop of IndexRepo, on one path.
use rongo.Prelude.{
  ℕ, ◌≡◌, refl, sym, ◌∙◌, inl, inr, Option, none, some, List, [], ◌∷◌, Text, length, Bool-cases,
}
use mathlib.Core.Bool.{true≢false}
use rongo.Prelude.Fallible.{Outcome, Outcome-bind, Outcome-imp}
use rongo.Indexer.Chunk.Regions.{CodeSymbol}
use rongo.Indexer.Chunk.Assemble.{Chunk, chunk_file}
use rongo.Indexer.Select.{
  Decision, Verdict, skip_too_large, skip_empty, is_include, select_path, select_size, select_body,
}
use rongo.Indexer.Write.{replace_file, record_skipped}
use rongo.Indexer.Write.InStep.{IsInStep}
use rongo.Indexer.Write.View.{Entry, view}
use rongo.Indexer.Write.Kept.{entry_for}
use rongo.Indexer.Write.Insert.{IsStorable}
use rongo.Indexer.Write.Skips.{with_entry, record_skipped_lem}
use rongo.Indexer.Write.Deletes.{delete_file_lem}
use rongo.Indexer.Write.Replace.{replaced, replace_file_lem}
use rongo.Indexer.Pipeline.Sources.{
  Target, Reading, body, too_large, unread, Deps, decision_text, is_gone,
}
use rongo.Indexer.Pipeline.Vectors.{vectors}
use rongo.Indexer.Pipeline.Aligned.{IsAligned, aligned_length}
use rongo.Indexer.Pipeline.Laws.{CanRun, IsHonest, IsWide, aligned_wide, vectors-IsAligned}
use rongo.Indexer.Pipeline.Numbering.{chunk_file-IsStorable}
use rongo.Indexer.Pipeline.{
  Run, file_info, symbols_for, skip_file, store_file, index_chunks, index_selected, index_read,
  index_sized, index_pathed, index_one, index_target,
}
use rongo.Indexer.Pipeline.Plan.{
  Wanted, skipped, stored, wanted_chunks, wanted_selected, wanted_read, wanted_sized, wanted_pathed,
  wanted, Says,
}

module _ {V S : Type 0} (d : Deps V S) (repo sha : Text) (P : Text → V → Type 0) (Good : S → Type 0)
    (honest : IsHonest d P Good) (wide : IsWide d P) where
  -- The run has dealt with one path, and only with it.
  pub record IsDone (path : Text) (w : Wanted) (run run1 : Run V S) : Type 0 where
    pub step : IsInStep (run1.0)
    pub good : Good (run1.1)
    pub entry : Option (Entry V)
    pub says : Says d repo sha P w entry
    pub views : (r p : Text) → view (run1.0) r p ≡ with_entry repo path entry (run.0) r p

  abbrev pub Ready : Run V S → Type 0
  Ready run = IsInStep (run.0) × Good (run.1)

  skip-IsDone :
      (path : Text) (why : Decision) (size : ℕ) (run : Run V S)
      → Ready run
      → Outcome
          (¬ CanRun d repo)
          (IsDone path (skipped (file_info d repo sha path size) why) run)
          (skip_file d repo sha path why size run)
  skip-IsDone path why size run (h, g) =
      let i = file_info d repo sha path size in
      Outcome-bind (¬ CanRun d repo) _ _ (record_skipped d.limits i (decision_text why) (run.0)) _
        (Outcome-imp (record_skipped d.limits i (decision_text why) (run.0))
          (λ n can. n (inr can.1)) (λ db1 k. k)
          (record_skipped_lem d.limits i (decision_text why) (run.0) h))
        (λ db1 k. record {
          step = k.0;
          good = g;
          entry = some (entry_for i (decision_text why) [] [] []);
          says = refl;
          views = k.1;
        })

  store_file-IsDone :
      (path text : Text) (syms : List CodeSymbol) (chunks : List Chunk) (run : Run V S)
      → Ready run
      → IsStorable chunks
      → Outcome
          (¬ CanRun d repo)
          (IsDone path
            (stored
              (file_info d repo sha path (length text))
              chunks
              syms
              (d.extract_tokens path text))
            run)
          (store_file d repo sha path text syms chunks run)
  unfolding store_file
  store_file-IsDone path text syms chunks run (h, g) storable =
      let i = file_info d repo sha path (length text) in
      let toks = d.extract_tokens path text in
      Outcome-bind (¬ CanRun d repo) (λ (r : List V × S). IsAligned P chunks r.0 × Good r.1) _
        (vectors d chunks (run.1)) _
        (Outcome-imp (vectors d chunks (run.1)) (λ n can. n can.0) (λ r k. k)
          (vectors-IsAligned d P Good honest chunks (run.1) g))
        (λ (vs, s1) k.
          Outcome-bind (¬ CanRun d repo) _ _ (replace_file d.limits i chunks vs syms toks (run.0)) _
            (Outcome-imp (replace_file d.limits i chunks vs syms toks (run.0))
              (λ n can. n (record {
                accepted = inr can.1;
                paired = aligned_length P chunks vs k.0;
                storable = storable;
                wide = aligned_wide d P wide chunks vs k.0;
              }))
              (λ db1 q. q.1) (replace_file_lem d.limits i chunks vs syms toks (run.0) h))
            (λ db1 q. record {
              step = q.step;
              good = k.1;
              entry = some (replaced i chunks vs syms toks);
              says = (vs, k.0, refl);
              views = q.views;
            }))

  index_chunks-IsDone :
      (path text : Text) (syms : List CodeSymbol) (chunks : List Chunk) (run : Run V S)
      → Ready run
      → IsStorable chunks
      → Outcome
          (¬ CanRun d repo)
          (IsDone path (wanted_chunks d repo sha path text syms chunks) run)
          (index_chunks d repo sha path text syms chunks run)
  unfolding index_chunks
  index_chunks-IsDone path text syms [] run h s = skip-IsDone path skip_empty (length text) run h
  index_chunks-IsDone path text syms (c ∷ cs) run h s =
      store_file-IsDone path text syms (c ∷ cs) run h s

  index_selected-IsDone :
      (path : Text) (v : Verdict × Text) (run : Run V S)
      → Ready run
      → Outcome
          (¬ CanRun d repo)
          (IsDone path (wanted_selected d repo sha path v) run)
          (index_selected d repo sha path v run)
  unfolding index_selected
  index_selected-IsDone path ((why, detail), text) run h = elim (Bool-cases (is_include why)) [
    | inl t ↦
        let syms = symbols_for d repo sha path text in
        rw t (
          index_chunks-IsDone path text syms
            (chunk_file d.hash repo path (d.runes text) syms d.chunk) run h
            (chunk_file-IsStorable d.hash repo path (d.runes text) syms d.chunk))
    | inr n ↦ rw n (skip-IsDone path why (length text) run h)
  ]

  index_read-IsDone :
      (path : Text) (limit : ℕ) (b : Reading) (run : Run V S)
      → d.read sha path limit ≡ b
      → Ready run
      → Outcome
          (¬ CanRun d repo)
          (IsDone path (wanted_read d repo sha path b) run)
          (index_read d repo sha path b run)
  unfolding index_read
  index_read-IsDone path limit (body text) run e h =
      index_selected-IsDone path (select_body d.readers d.select path text) run h
  index_read-IsDone path limit (too_large size) run e h = skip-IsDone path skip_too_large size run h
  index_read-IsDone path limit unread run e h = λ can. can.0.reads sha path limit e

  index_sized-IsDone :
      (tg : Target) (v : Option Verdict) (run : Run V S)
      → Ready run
      → Outcome
          (¬ CanRun d repo)
          (IsDone tg.path (wanted_sized d repo sha tg v) run)
          (index_sized d repo sha tg v run)
  unfolding index_sized
  index_sized-IsDone tg (some v) run h = skip-IsDone tg.path (v.0) tg.size run h
  index_sized-IsDone tg none run h =
      index_read-IsDone tg.path d.select.max_bytes (d.read sha tg.path d.select.max_bytes) run refl
        h

  index_pathed-IsDone :
      (tg : Target) (v : Option Verdict) (run : Run V S)
      → Ready run
      → Outcome
          (¬ CanRun d repo)
          (IsDone tg.path (wanted_pathed d repo sha tg v) run)
          (index_pathed d repo sha tg v run)
  unfolding index_pathed
  index_pathed-IsDone tg (some v) run h = skip-IsDone tg.path (v.0) 0 run h
  index_pathed-IsDone tg none run h =
      index_sized-IsDone tg (select_size d.readers d.select tg.path tg.size) run h

  -- Unless a collaborator fails, one step of the loop leaves of the path what is wanted of it.
  pub index_target-IsDone :
      (tg : Target) (run : Run V S)
      → Ready run
      → Outcome
          (¬ CanRun d repo)
          (IsDone tg.path (wanted d repo sha tg) run)
          (index_target d repo sha tg run)
  unfolding index_target index_one wanted
  index_target-IsDone tg run h = elim (Bool-cases (d.cancelled tg.path)) [
    | inl t ↦ rw t (λ can. true≢false (sym t ∙ can.0.goes_on tg.path))
    | inr n ↦ rw n (elim (Bool-cases (is_gone tg)) [
      | inl t ↦
          let k = delete_file_lem repo tg.path (run.0) h.0 in
          rw (wanted, t) (record { step = k.0; good = h.1; entry = none; says = refl; views = k.1 })
      | inr n ↦
          rw (wanted, n) (index_pathed-IsDone tg (select_path d.readers d.select tg.path) run h)
    ])
  ]
