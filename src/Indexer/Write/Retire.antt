-- ===== src/Indexer/Write/Retire.antt =====
-- backend/internal/indexer/write.go: DeleteFilesNotIn, as a change of what the index says of each path.
use rongo.Prelude.{
  ◌≡◌, refl, sym, ap, ◌∙◌, inl, inr, Bool, true, false, not, ◌&&◌, ◌||◌, none, List, [], ◌∷◌, Text,
  text_eq, text_eq_iff, text_in, Bool-cases, arith, if◌then◌else◌,
}
use mathlib.Core.Bool.{true≢false}
use rongo.Indexer.Write.Schema.{FileRow, Tables, at_key, find_file, gone_paths}
use rongo.Indexer.Write.{delete_file, delete_paths, delete_files_not_in}
use rongo.Indexer.Write.InStep.{IsInStep}
use rongo.Indexer.Write.Files.{text_eq_comm, at_key_iff}
use rongo.Indexer.Write.View.{view, entry_at}
use rongo.Indexer.Write.Deletes.{delete_file_lem}

if_neither {ℓ} : {A : Type ℓ} (a : Bool) (x y : A) → y ≡ (if a && false then x else y)
if_neither true x y = refl
if_neither false x y = refl

if_either {ℓ} :
    {A : Type ℓ} (a b c : Bool) (x y : A)
    → (if a && c then x else (if a && b then x else y)) ≡ (if a && (b || c) then x else y)
if_either false b c x y = refl
if_either true true true x y = refl
if_either true true false x y = refl
if_either true false c x y = refl

-- A path of the repository is gone if it has a row and is not to be kept.
gone_in :
    (repo : Text) (keep : List Text) (p : Text) (fs : List FileRow)
    → text_in p (gone_paths repo keep fs) ≡ true
    → text_in p keep ≡ false
unfolding gone_paths text_in
gone_in repo keep p [] h = absurd (true≢false (sym h))
gone_in repo keep p (f ∷ fs) h =
    elim (Bool-cases (text_eq f.repo repo && not (text_in f.path keep))) [
      | inl t ↦ elim (Bool-cases (text_eq p f.path)) [
        | inl e ↦
            let kept : (text_eq f.repo repo && not (text_in p keep)) ≡ true =
              rw ((text_eq_iff p f.path).0 e) t in
            ground (arith, kept)
        | inr d ↦ gone_in repo keep p fs (rw (gone_paths, t, text_in, d) at h)
      ]
      | inr n ↦ gone_in repo keep p fs (rw (gone_paths, n) at h)
    ]

gone_later :
    (repo : Text) (keep : List Text) (p : Text) (f : FileRow) (fs : List FileRow)
    → text_in p (gone_paths repo keep (f ∷ fs)) ≡ false
    → text_in p (gone_paths repo keep fs) ≡ false
unfolding gone_paths text_in
gone_later repo keep p f fs h =
    elim (Bool-cases (text_eq f.repo repo && not (text_in f.path keep))) [
      | inl t ↦
          let e : (text_eq p f.path || text_in p (gone_paths repo keep fs)) ≡ false =
            rw (gone_paths, t, text_in) at h in
          ground (arith, e)
      | inr n ↦ rw (gone_paths, n) at h
    ]

gone_out :
    (repo : Text) (keep : List Text) (p : Text) (fs : List FileRow)
    → text_in p (gone_paths repo keep fs) ≡ false
    → text_in p keep ≡ false
    → find_file repo p fs ≡ none
unfolding gone_paths text_in find_file
gone_out repo keep p [] h k = refl
gone_out repo keep p (f ∷ fs) h k = elim (Bool-cases (at_key repo p f)) [
  | inl t ↦
      let (e, e') = (at_key_iff repo p f).0 t in
      let at_repo = (text_eq_iff f.repo repo).1 e in
      let here = (text_eq_iff p f.path).1 (sym e') in
      let unkept : text_in f.path keep ≡ false = rw e' k in
      absurd (true≢false (rw (gone_paths, at_repo, unkept, text_in, here) at h))
  | inr n ↦ rw (find_file, n) (gone_out repo keep p fs (gone_later repo keep p f fs h) k)
]

module _ {V : Type 0} where
  delete_paths_lem :
      (repo : Text) (ps : List Text) (db : Tables V)
      → IsInStep db
      → IsInStep (delete_paths repo ps db)
        × ((r p : Text)
            → view (delete_paths repo ps db) r p
              ≡ (if text_eq repo r && text_in p ps then none else view db r p))
  unfolding delete_paths text_in
  delete_paths_lem repo [] db h = (h, λ r p. if_neither (text_eq repo r) none (view db r p))
  delete_paths_lem repo (q ∷ ps) db h =
      let d = delete_file_lem repo q db h in
      let rest = delete_paths_lem repo ps (delete_file repo q db) d.0 in
      (
        rest.0,
        λ r p.
            rest.1 r p
            ∙ rw (d.1 r p, text_eq_comm q p)
                (if_either (text_eq repo r) (text_eq p q) (text_in p ps) none (view db r p)),
      )

  unseen :
      (repo : Text) (keep : List Text) (db : Tables V) (p : Text)
      → (if text_in p (gone_paths repo keep db.files) then none else view db repo p)
        ≡ (if not (text_in p keep) then none else view db repo p)
  unfolding view entry_at
  unseen repo keep db p = elim (Bool-cases (text_in p (gone_paths repo keep db.files))) [
    | inl t ↦ rw (t, gone_in repo keep p db.files t) refl
    | inr f ↦ elim (Bool-cases (text_in p keep)) [
      | inl k ↦ rw (f, k) refl
      | inr k ↦ rw (f, k) (ap (entry_at db) {y = none} (gone_out repo keep p db.files f k))
    ]
  ]

  -- DeleteFilesNotIn keeps an index in step. It then says nothing of the paths of the repository that are not
  -- to be kept, and of every other path what it said.
  pub delete_files_not_in_lem :
      (repo : Text) (keep : List Text) (db : Tables V)
      → IsInStep db
      → IsInStep (delete_files_not_in repo keep db)
        × ((r p : Text)
            → view (delete_files_not_in repo keep db) r p
              ≡ (if text_eq repo r && not (text_in p keep) then none else view db r p))
  unfolding delete_files_not_in
  delete_files_not_in_lem repo keep db h =
      let d = delete_paths_lem repo (gone_paths repo keep db.files) db h in
      (
        d.0,
        λ r p. d.1 r p ∙ elim (Bool-cases (text_eq repo r)) [
          | inl t ↦ rw (t, ← (text_eq_iff repo r).0 t) (unseen repo keep db p)
          | inr f ↦ rw f refl
        ],
      )
