-- ===== src/Indexer/Pipeline/Swept.antt =====
-- backend/internal/indexer/index.go: Sweep, as what it changes of what the index says.
use rongo.Prelude.{
  ℕ, ◌≡◌, ◌≢◌, refl, sym, ap, ◌∙◌, inl, inr, Bool, true, false, not, ◌&&◌, Option, none, some, List,
  [], ◌∷◌, Text, text_eq, text_eq_iff, length, if◌then◌else◌, Bool-cases, ◌==◌, ==_iff, arith, All,
}
use mathlib.Core.Bool.{true≢false}
use rongo.Prelude.Fallible.{
  ◌>>=◌, Outcome, Outcome-bind, Outcome-map, Outcome-imp, Option-cases, none_or_some,
}
use rongo.Prelude.Filters.{All-map}
use rongo.Indexer.State.{Counts}
use rongo.Indexer.Select.{Decision, is_include, select_by_path}
use rongo.Indexer.Write.Schema.{FileRow, FileInfo, Tables, at_key, find_file, is_stored}
use rongo.Indexer.Write.{record_skipped}
use rongo.Indexer.Write.InStep.{IsInStep, IsUnique}
use rongo.Indexer.Write.Files.{same_key, at_key_iff, find_key, find_all}
use rongo.Indexer.Write.View.{Entry, view, entry_at, entry_of}
use rongo.Indexer.Write.Kept.{entry_for}
use rongo.Indexer.Write.Skips.{with_entry, record_skipped_lem}
use rongo.Indexer.Pipeline.Sources.{Deps, decision_text, totals}
use rongo.Indexer.Pipeline.{sweep_hits, sweep_rows, sweep}

and_right : (a b : Bool) → (a && b) ≡ true → b ≡ true
and_right true b h = h
and_right false b h = absurd (true≢false (sym h))

and_left : (a b c : Bool) → (a && b && c) ≡ true → a ≡ true
and_left true b c h = refl
and_left false b c h = absurd (true≢false (sym h))

key_right :
    (repo p : Text) (f : FileRow)
    → text_eq f.repo repo ≡ true
    → at_key repo p f ≡ false
    → text_eq f.path p ≡ false
key_right repo p f t n = rw t at n

not_later :
    (repo p : Text) (f : FileRow) (fs : List FileRow)
    → IsUnique (f ∷ fs)
    → at_key repo p f ≡ true
    → find_file repo p fs ≡ none
not_later repo p f fs u e = elim (Option-cases (find_file repo p fs)) [
  | inl n ↦ n
  | inr (g, found) ↦
      let other =
        find_all (λ (y : FileRow). (f.id ≢ y.id) × (at_key f.repo f.path y ≡ false)) repo p fs g u.0
          found in
      let (a, b) = (at_key_iff repo p f).0 e in
      let there : at_key f.repo f.path g ≡ true = rw (a, b) (find_key repo p fs g found) in
      absurd (true≢false (sym there ∙ other.1))
]

module _ {V S : Type 0} (d : Deps V S) (repo : Text) where
  -- The verdict that the rules have now of a path and a size.
  abbrev pub rule : Text → ℕ → Decision
  rule path size = (select_by_path d.readers d.select path size).0

  abbrev pub row_info : FileRow → FileInfo
  row_info f = record { repo = repo; path = f.path; sha = f.sha; lang = f.lang; size = f.size }

  abbrev is_hit : FileRow → Bool
  is_hit f =
      text_eq f.repo repo && text_eq f.skip_reason [] && not (is_include (rule f.path f.size))

  abbrev row_entry : FileRow → Entry V
  row_entry f = entry_for (row_info f) (decision_text (rule f.path f.size)) [] [] []

  abbrev swept_row : Option FileRow → Option (Entry V) → Option (Entry V)
  swept_row none o = o
  swept_row (some f) o = if is_hit f then some (row_entry f) else o

  -- The index says something of the path.
  abbrev Has : Tables V → Text → Type 0
  Has db p = (e : Entry V) × (view db repo p ≡ some e)

  Has-is_stored : (db : Tables V) (p : Text) → Has db p → is_stored repo p db.files ≡ true
  unfolding view entry_at
  Has-is_stored db p (e, h) = elim (Option-cases (find_file repo p db.files)) [
    | inl n ↦ absurd (none_or_some (view db repo p) e (rw (view, n) refl) h)
    | inr (f, found) ↦ rw (is_stored, found) refl
  ]

  is_stored-Has : (db : Tables V) (p : Text) → is_stored repo p db.files ≡ true → Has db p
  unfolding view entry_at
  is_stored-Has db p t = elim (Option-cases (find_file repo p db.files)) [
    | inl n ↦ absurd (true≢false (sym t ∙ rw (is_stored, n) refl))
    | inr (f, found) ↦ (entry_of db f, rw (view, found) refl)
  ]

  -- The rows of the repository are in the table.
  abbrev AreStored : List FileRow → List FileRow → Type 0
  AreStored table fs =
      All (λ (f : FileRow). text_eq f.repo repo ≡ true → is_stored repo f.path table ≡ true) fs

  still_stored :
      (f : FileRow) (p : Text) (fs : List FileRow)
      → is_stored repo p fs ≡ true
      → is_stored repo p (f ∷ fs) ≡ true
  unfolding find_file
  still_stored f p fs h = elim (Bool-cases (at_key repo p f)) [
    | inl t ↦ rw (is_stored, find_file, t) refl
    | inr n ↦ rw (is_stored, find_file, n) h
  ]

  own_rows-AreStored : (fs : List FileRow) → AreStored fs fs
  unfolding find_file
  own_rows-AreStored [] = tt
  own_rows-AreStored (f ∷ fs) = (
    λ t.
        let key : at_key repo f.path f ≡ true = rw (t, (text_eq_iff f.path f.path).1 refl) refl in
        rw (is_stored, find_file, key) refl,
    All-map fs (λ g k t. still_stored f g.path fs (k t)) (own_rows-AreStored fs),
  )

  abbrev Skipped : FileRow → Tables V → Tables V → Type 0
  Skipped f db db1 =
      IsInStep db1
      × ((r p : Text) → view db1 r p ≡ with_entry repo f.path (some (row_entry f)) db r p)

  Skipped-is_stored :
      (f : FileRow) (p : Text) (db db1 : Tables V)
      → Skipped f db db1
      → is_stored repo p db.files ≡ true
      → is_stored repo p db1.files ≡ true
  Skipped-is_stored f p db db1 k t =
      Has-is_stored db1 p (elim (Bool-cases (same_key repo f.path repo p)) [
        | inl e ↦ (row_entry f, k.1 repo p ∙ rw e refl)
        | inr n ↦ let (e, has) = is_stored-Has db p t in (e, k.1 repo p ∙ rw n has)
      ])

  -- What the rows of `fs` make of the index.
  record IsSwept (fs : List FileRow) (db db' : Tables V) : Type 0 where
    step : IsInStep db'
    here : (p : Text) → view db' repo p ≡ swept_row (find_file repo p fs) (view db repo p)
    others : (r p : Text) → text_eq repo r ≡ false → view db' r p ≡ view db r p

  more-IsSwept :
      (f : FileRow) (fs : List FileRow) (db db1 db' : Tables V)
      → is_hit f ≡ true
      → IsUnique (f ∷ fs)
      → Skipped f db db1
      → IsSwept fs db1 db'
      → IsSwept (f ∷ fs) db db'
  unfolding find_file
  more-IsSwept f fs db db1 db' t u k rest =
      let self = (text_eq_iff repo repo).1 refl in
      record {
        step = rest.step;
        here = λ p. rest.here p ∙ elim (Bool-cases (at_key repo p f)) [
          | inl e ↦
              rw (not_later repo p f fs u e, find_file, e, t)
                (let q = and_right (text_eq f.repo repo) (text_eq f.path p) e in
                  k.1 repo p ∙ rw (self, q) refl)
          | inr n ↦
              rw (find_file, n)
                (ap (swept_row (find_file repo p fs)) (
                  let q = key_right repo p f (and_left (text_eq f.repo repo) _ _ t) n in
                  k.1 repo p ∙ rw (self, q) refl))
        ];
        others = λ r p e. rest.others r p e ∙ k.1 r p ∙ rw e refl;
      }

  spared-IsSwept :
      (f : FileRow) (fs : List FileRow) (db db' : Tables V)
      → is_hit f ≡ false
      → IsUnique (f ∷ fs)
      → IsSwept fs db db'
      → IsSwept (f ∷ fs) db db'
  unfolding find_file
  spared-IsSwept f fs db db' n u rest = record {
    step = rest.step;
    here = λ p. rest.here p ∙ elim (Bool-cases (at_key repo p f)) [
      | inl e ↦ rw (not_later repo p f fs u e, find_file, e, n) refl
      | inr m ↦ rw (find_file, m) refl
    ];
    others = rest.others;
  }

  skip_hit :
      (f : FileRow) (db : Tables V)
      → IsInStep db
      → is_stored repo f.path db.files ≡ true
      → Outcome ⊥
          (Skipped f db)
          (record_skipped d.limits (row_info f) (decision_text (rule f.path f.size)) db)
  skip_hit f db h s =
      Outcome-imp (record_skipped d.limits (row_info f) (decision_text (rule f.path f.size)) db)
        (λ n. n (inl s)) (λ db1 k. k)
        (record_skipped_lem d.limits (row_info f) (decision_text (rule f.path f.size)) db h)

  sweep_rows-IsSwept :
      (fs : List FileRow) (db : Tables V)
      → IsInStep db
      → IsUnique fs
      → AreStored db.files fs
      → Outcome ⊥ (IsSwept fs db) (sweep_rows d.limits repo (sweep_hits d repo fs) db)
  unfolding sweep_rows sweep_hits find_file
  sweep_rows-IsSwept [] db h u s = record { step = h; here = λ p. refl; others = λ r p e. refl }
  sweep_rows-IsSwept (f ∷ fs) db h u s = elim (Bool-cases (is_hit f)) [
    | inl t ↦
        rw (sweep_hits, t)
          (Outcome-bind ⊥ (Skipped f db) (IsSwept (f ∷ fs) db)
            (record_skipped d.limits (row_info f) (decision_text (rule f.path f.size)) db) _
            (skip_hit f db h (s.0 (and_left (text_eq f.repo repo) _ _ t)))
            (λ db1 k.
              Outcome-map ⊥ (sweep_rows d.limits repo (sweep_hits d repo fs) db1)
                (λ db' rest. more-IsSwept f fs db db1 db' t u k rest)
                (sweep_rows-IsSwept fs db1 k.0 u.1
                  (All-map fs (λ g has e. Skipped-is_stored f g.path db db1 k (has e)) s.1))))
    | inr n ↦
        rw (sweep_hits, n)
          (Outcome-map ⊥ (sweep_rows d.limits repo (sweep_hits d repo fs) db)
            (λ db' rest. spared-IsSwept f fs db db' n u rest) (sweep_rows-IsSwept fs db h u.1 s.1))
  ]

  -- What a sweep makes of the entry of a path.
  abbrev pub swept_entry : Text → Option (Entry V) → Option (Entry V)
  swept_entry p none = none
  swept_entry p (some e) =
      if text_eq e.skip_reason [] && not (is_include (rule p e.size))
      then some (
          entry_for (record { repo = repo; path = p; sha = e.sha; lang = e.lang; size = e.size })
            (decision_text (rule p e.size)) [] [] [])
      else some e

  row_or_entry :
      (p : Text) (db : Tables V)
      → swept_row (find_file repo p db.files) (view db repo p) ≡ swept_entry p (view db repo p)
  unfolding view entry_at entry_of
  row_or_entry p db = elim (Option-cases (find_file repo p db.files)) [
    | inl n ↦ rw (view, n) refl
    | inr (f, e) ↦
        let (a, b) = (at_key_iff repo p f).0 (find_key repo p db.files f e) in
        let self = (text_eq_iff repo repo).1 refl in rw (view, e, entry_of, a, b, self) refl
  ]

  -- No file to change, or the rows and the totals.
  counted_lem :
      (P : Tables V → Type 0) (hits : List (FileRow × Decision)) (db : Tables V)
      → Outcome ⊥ P (sweep_rows d.limits repo hits db)
      → Outcome ⊥
          (λ (r : Tables V × ℕ × Counts). P r.0)
          (if length hits == 0
            then some (db, 0, record { files = 0; chunks = 0 })
            else (sweep_rows d.limits repo hits db >>= λ db1.
                some (db1, length hits, totals repo db1)))
  unfolding sweep_rows
  counted_lem P [] db h = h
  counted_lem P (x ∷ hits) db h = elim (Bool-cases (length (x ∷ hits) == 0)) [
    | inl t ↦ absurd (omega (arith, (==_iff (length (x ∷ hits)) 0).0 t))
    | inr n ↦ rw n (
        Outcome-bind ⊥ P (λ (r : Tables V × ℕ × Counts). P r.0)
          (sweep_rows d.limits repo (x ∷ hits) db) _ h (λ db1 k. k))
  ]

  -- Sweep of an index in step fails by no constraint, and keeps the index in step. A file of the repository that
  -- was indexed, and that the rules on its path and size now refuse, is then a row with the rule's decision and
  -- nothing stored; every other path of the repository, and every other repository, is as it was.
  pub sweep_lem :
      (db : Tables V)
      → IsInStep db
      → Outcome ⊥
          (λ r.
            IsInStep r.0
            × ((p : Text) → view (r.0) repo p ≡ swept_entry p (view db repo p))
            × ((r' p : Text) → text_eq repo r' ≡ false → view (r.0) r' p ≡ view db r' p))
          (sweep d repo db)
  unfolding sweep
  sweep_lem db h =
      Outcome-map ⊥ (sweep d repo db)
        (λ r k. (k.step, (λ p. k.here p ∙ row_or_entry p db), k.others))
        (counted_lem (IsSwept db.files db) (sweep_hits d repo db.files) db
          (sweep_rows-IsSwept db.files db h h.unique (own_rows-AreStored db.files)))
