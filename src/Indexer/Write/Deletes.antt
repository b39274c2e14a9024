-- ===== src/Indexer/Write/Deletes.antt =====
-- backend/internal/indexer/write.go: DeleteFile, as a change of what the index says of
-- each path.
use rongo.Prelude.{
  ℕ, ◌≡◌, ◌≢◌, refl, sym, ap, ◌∙◌, inl, inr, true, false, none, some, List, [], ◌∷◌, Text,
  text_eq_iff, Bool-cases, All, arith, if◌then◌else◌,
}
use mathlib.Core.Path.{subst}
use mathlib.Core.Option.{some-injective}
use rongo.Prelude.Filters.{All-filter, All-map}
use rongo.Indexer.Write.Schema.{FileRow, Tables, at_key, find_file, is_file_of}
use rongo.Indexer.Write.{clear_files, delete_file}
use rongo.Indexer.Write.InStep.{IsInStep, IsUnique, clear_files_step}
use rongo.Indexer.Write.Files.{
  same_key, same_key_comm, at_key_same, find_all, find_without, filter-IsUnique,
}
use rongo.Indexer.Write.View.{view, entry_at}
use rongo.Indexer.Write.Kept.{IsKept, clear-IsKept, view_kept}
use rongo.Indexer.Write.Skips.{with_entry, view_split, ≢→==_false}

other_ids :
    (repo path : Text) (n : ℕ) (fs : List FileRow)
    → All (λ (g : FileRow). n ≢ g.id) fs
    → is_file_of repo path fs n ≡ false
unfolding is_file_of
other_ids repo path n [] h = refl
other_ids repo path n (g ∷ fs) h =
    rw (≢→==_false n g.id h.0) (ground (arith, other_ids repo path n fs h.1))

-- The rows of a path have not the id of another path's row.
spared_id :
    (repo path r p : Text) (fs : List FileRow) (f : FileRow)
    → IsUnique fs
    → same_key repo path r p ≡ false
    → find_file r p fs ≡ some f
    → is_file_of repo path fs f.id ≡ false
unfolding find_file is_file_of
spared_id repo path r p [] f u d h = absurd (cc h)
spared_id repo path r p (x ∷ fs) f u d h = elim (Bool-cases (at_key r p x)) [
  | inl t ↦
      let n : at_key repo path x ≡ false =
        at_key_same r p repo path x t ∙ same_key_comm r p repo path ∙ d in
      let rest = other_ids repo path x.id fs (All-map fs (λ g k. k.0) u.0) in
      subst (λ (y : FileRow). is_file_of repo path (x ∷ fs) y.id ≡ false)
        (some-injective x f (rw (find_file, t) at h)) (rw n rest)
  | inr n ↦
      let found : find_file r p fs ≡ some f = rw (find_file, n) at h in
      let other =
        find_all (λ (y : FileRow). (x.id ≢ y.id) × (at_key x.repo x.path y ≡ false)) r p fs f u.0
          found in
      rw (spared_id repo path r p fs f u.1 d found, ≢→==_false f.id x.id (λ e. other.0 (sym e)))
        (ground arith)
]

key_true : (repo path : Text) → same_key repo path repo path ≡ true
key_true repo path =
    let a = (text_eq_iff repo repo).1 refl in
    let b = (text_eq_iff path path).1 refl in rw (a, b) refl

module _ {V : Type 0} where
  delete_step :
      (repo path : Text) (db : Tables V) → IsInStep db → IsInStep (delete_file repo path db)
  unfolding delete_file clear_files
  delete_step repo path db h =
      let s = (clear_files_step (is_file_of repo path db.files) db h).0 in
      record {
        rows = s.rows;
        chunks = s.chunks;
        vec = s.vec;
        fts = s.fts;
        keyed = s.keyed;
        within = s.within;
        unique = filter-IsUnique _ db.files h.unique;
        files_within = All-filter _ _ db.files h.files_within;
      }

  delete-IsKept :
      (repo path : Text) (db : Tables V) (h : IsInStep db) (id : ℕ)
      → is_file_of repo path db.files id ≡ false
      → IsKept db (delete_file repo path db) h (delete_step repo path db h) id
  unfolding delete_file delete_step clear_files
  delete-IsKept repo path db h id n =
      let k = clear-IsKept (is_file_of repo path db.files) db h id n in
      record { rows = k.rows; symbols = k.symbols; tokens = k.tokens }

  delete_found :
      (repo path : Text) (db : Tables V) (r p : Text)
      → find_file r p (delete_file repo path db).files
        ≡ (if same_key repo path r p then none else find_file r p db.files)
  unfolding delete_file
  delete_found repo path db r p = find_without repo path r p db.files

  -- DeleteFile keeps an index in step. Of the path the index then says nothing; of every other path it says
  -- what it said.
  pub delete_file_lem :
      (repo path : Text) (db : Tables V)
      → IsInStep db
      → IsInStep (delete_file repo path db)
        × ((r p : Text) → view (delete_file repo path db) r p ≡ with_entry repo path none db r p)
  unfolding view entry_at
  delete_file_lem repo path db h = (
    delete_step repo path db h,
    λ r p.
        view_split repo path none db (delete_file repo path db) r p
          (ap (entry_at (delete_file repo path db)) {y = none}
            (delete_found repo path db repo path ∙ rw (key_true repo path) refl))
          (λ d.
            view_kept db (delete_file repo path db) h (delete_step repo path db h) r p
              (delete_found repo path db r p ∙ rw d refl)
              (λ f found.
                delete-IsKept repo path db h f.id
                  (spared_id repo path r p db.files f h.unique d found))),
  )
