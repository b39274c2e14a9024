-- ===== src/Indexer/Write/Skips.antt =====
-- backend/internal/indexer/write.go: RecordSkipped and the deletes, as changes of what the index says of
-- each path.
use rongo.Prelude.{
  ℕ, ◌≡◌, ◌≢◌, refl, sym, ap, ◌∙◌, inl, inr, true, false, Option, none, some, [], Text, text_eq_iff,
  ◌==◌, ==_iff, Bool-cases, arith, if◌then◌else◌,
}
use rongo.Prelude.Fallible.{Outcome, Outcome-bind}
use rongo.Indexer.Write.Schema.{FileRow, FileInfo, Tables, Limits, find_file}
use rongo.Indexer.Write.{upsert_file, file_id, clear_files, clear_file_content, record_skipped}
use rongo.Indexer.Write.InStep.{IsInStep, clear_files_step}
use rongo.Indexer.Write.Files.{same_key, ids_apart}
use rongo.Indexer.Write.Upsert.{IsRow, IsUpsert, IsAccepted, upsert_file_lem}
use rongo.Indexer.Write.View.{rows_of, symbols_of, tokens_of, Entry, view}
use rongo.Indexer.Write.Kept.{
  IsKept, IsBare, kept_then, clear-IsKept, clear-IsBare, view_kept, view_row, entry_for,
}

pub ≢→==_false : (m n : ℕ) → m ≢ n → (m == n) ≡ false
≢→==_false m n h = elim (Bool-cases (m == n)) [ inl t ↦ absurd (h ((==_iff m n).0 t)) | inr f ↦ f ]

same_key_eq : (r p r' p' : Text) → same_key r p r' p' ≡ true → (r ≡ r') × (p ≡ p')
same_key_eq r p r' p' h =
    let a = text_eq_iff r r' in let b = text_eq_iff p p' in ground (arith, h, a, b)

module _ {V : Type 0} where
  -- What is said of a path when one path gets the entry `o`.
  abbrev pub with_entry : Text → Text → Option (Entry V) → Tables V → Text → Text → Option (Entry V)
  with_entry repo path o db r p = if same_key repo path r p then o else view db r p

  -- A row is set, and nothing is stored under it.
  pub record IsCleared (i : FileInfo) (z : Text) (db db' : Tables V) (h : IsInStep db)
      : Type 0 where
    pub step : IsInStep db'
    pub row : FileRow
    pub found : find_file i.repo i.path db'.files ≡ some row
    pub said : IsRow i z row
    pub others :
        (r p : Text)
        → same_key i.repo i.path r p ≡ false
        → find_file r p db'.files ≡ find_file r p db.files
    pub bare : IsBare db' step row.id
    pub kept : (id : ℕ) → (id == row.id) ≡ false → IsKept db db' h step id

  upsert-IsKept :
      (i : FileInfo) (z : Text) (db db' : Tables V) (h : IsInStep db) (u : IsUpsert i z db db' h)
      (id : ℕ)
      → IsKept db db' h u.step id
  upsert-IsKept i z db db' h u id = record {
    rows = ap (rows_of id) u.rows;
    symbols = ap (symbols_of id) u.symbols;
    tokens = ap (tokens_of id) u.tokens;
  }

  row-IsCleared :
      (i : FileInfo) (z : Text) (db db' : Tables V) (h : IsInStep db) (u : IsUpsert i z db db' h)
      → IsCleared i z db (clear_file_content u.row.id db') h
  unfolding clear_file_content clear_files
  row-IsCleared i z db db' h u =
      let mine = λ (n : ℕ). n == u.row.id in
      let step = (clear_files_step mine db' u.step).0 in
      record {
        step = step;
        row = u.row;
        found = u.found;
        said = u.said;
        others = u.others;
        bare = clear-IsBare mine db' u.step u.row.id ((==_iff u.row.id u.row.id).1 refl);
        kept = λ id n.
            kept_then db db' _ h u.step step id (upsert-IsKept i z db db' h u id)
              (clear-IsKept mine db' u.step id n);
      }

  pub file_id_found :
      (i : FileInfo) (db : Tables V) (f : FileRow)
      → find_file i.repo i.path db.files ≡ some f
      → file_id i db ≡ f.id
  unfolding file_id
  file_id_found i db f e = ap (λ (o : Option FileRow). elim o [ none ↦ 0 | some g ↦ g.id ]) e

  pub clear_file_content_lem :
      (i : FileInfo) (z : Text) (db db' : Tables V) (h : IsInStep db)
      → IsUpsert i z db db' h
      → IsCleared i z db (clear_file_content (file_id i db') db') h
  clear_file_content_lem i z db db' h u =
      rw (file_id_found i db' u.row u.found) (row-IsCleared i z db db' h u)

  -- Another file has another id.
  pub apart :
      (i : FileInfo) (z : Text) (db db' : Tables V) (h : IsInStep db) (c : IsCleared i z db db' h)
      (r p : Text) (f : FileRow)
      → same_key i.repo i.path r p ≡ false
      → find_file r p db.files ≡ some f
      → c.row.id ≢ f.id
  apart i z db db' h c r p f d found =
      ids_apart i.repo i.path r p db'.files c.row f c.step.unique d c.found (c.others r p d ∙ found)

  -- A path is the one that is written, or not.
  pub view_split :
      (repo path : Text) (o : Option (Entry V)) (db db' : Tables V) (r p : Text)
      → view db' repo path ≡ o
      → (same_key repo path r p ≡ false → view db' r p ≡ view db r p)
      → view db' r p ≡ with_entry repo path o db r p
  view_split repo path o db db' r p h k = elim (Bool-cases (same_key repo path r p)) [
    | inl t ↦
        let (e, e') = same_key_eq repo path r p t in
        rw t (sym (ap (λ x. view db' x p) e) ∙ sym (ap (view db' repo) e') ∙ h)
    | inr d ↦ rw d (k d)
  ]

  pub clear-file_id :
      (i : FileInfo) (n : ℕ) (db : Tables V) → file_id i (clear_file_content n db) ≡ file_id i db
  unfolding file_id clear_file_content clear_files
  clear-file_id i n db = refl

  -- The entry of a cleared file has the row and nothing else; the other entries are as they were.
  pub cleared_view :
      (i : FileInfo) (z : Text) (db db' : Tables V) (h : IsInStep db) (c : IsCleared i z db db' h)
      (r p : Text)
      → view db' r p ≡ with_entry i.repo i.path (some (entry_for i z [] [] [])) db r p
  cleared_view i z db db' h c r p =
      view_split i.repo i.path (some (entry_for i z [] [] [])) db db' r p
        (view_row i z db' c.step c.row i.repo i.path c.found c.said
          ∙ rw (c.bare.rows, c.bare.symbols, c.bare.tokens) refl)
        (λ d. view_kept db db' h c.step r p (c.others r p d) (λ f found.
          c.kept f.id (≢→==_false f.id c.row.id (λ e. apart i z db db' h c r p f d found (sym e)))))

  -- In an index in step, RecordSkipped fails only if neither the path nor its repository has a row. Else the
  -- index stays in step. Of the path it then says the given row with the reason, and no chunk, symbol or token;
  -- of every other path it says what it said.
  pub record_skipped_lem :
      (lim : Limits V) (i : FileInfo) (reason : Text) (db : Tables V)
      → IsInStep db
      → Outcome
          (¬ IsAccepted lim i db)
          (λ db'.
            IsInStep db'
            × ((r p : Text)
                → view db' r p
                  ≡ with_entry i.repo i.path (some (entry_for i reason [] [] [])) db r p))
          (record_skipped lim i reason db)
  unfolding record_skipped
  record_skipped_lem lim i reason db h =
      Outcome-bind (¬ IsAccepted lim i db) _ _ (upsert_file lim i reason db) _
        (upsert_file_lem lim i reason db h)
        (λ db1 u.
          let c = clear_file_content_lem i reason db db1 h u.1 in
          (c.step, cleared_view i reason db (clear_file_content (file_id i db1) db1) h c))
