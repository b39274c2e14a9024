-- ===== src/Indexer/Write/Upsert.antt =====
-- backend/internal/indexer/write.go: upsertFile, and the rows of files before and after it.
use rongo.Prelude.{
  ℕ, suc, ◌≤◌, ◌≡◌, ◌≢◌, refl, sym, ap, ◌∙◌, inl, inr, true, false, Option, none, some, List, [],
  ◌∷◌, ◌++◌, map, Bool, Text, text_eq_iff, ◌⊎◌, Bool-cases, All, All-append, arith, if◌then◌else◌,
}
use mathlib.Core.Path.{subst}
use rongo.Prelude.Filters.{All-map}
use rongo.Prelude.Fallible.{Outcome}
use mathlib.Core.Bool.{true≢false}
use rongo.Indexer.Write.Schema.{
  FileRow, FileInfo, Tables, Limits, at_key, find_file, is_stored, set_row, new_row,
}
use rongo.Indexer.Write.InStep.{IsUnique, IsInStep}
use rongo.Indexer.Write.Files.{
  same_key, same_key_comm, at_key_same, find_key, find_append, find_append_some, find_set,
  set_row_key, set_row_id,
}
use rongo.Indexer.Write.{upsert_file}

-- The row says what the caller said.
pub record IsRow (i : FileInfo) (z : Text) (g : FileRow) : Type 0 where
  pub sha : g.sha ≡ i.sha
  pub lang : g.lang ≡ i.lang
  pub size : g.size ≡ i.size
  pub reason : g.skip_reason ≡ z

pub find_cases : (o : Option FileRow) → (o ≡ none) ⊎ ((f : FileRow) × (o ≡ some f))
find_cases none = inl refl
find_cases (some f) = inr (f, refl)

set_row-IsRow :
    (i : FileInfo) (z : Text) (f : FileRow)
    → at_key i.repo i.path f ≡ true
    → IsRow i z (set_row i z f)
unfolding set_row
set_row-IsRow i z f t =
    rw (set_row, t) (record { sha = refl; lang = refl; size = refl; reason = refl })

set_row_other :
    (i : FileInfo) (z : Text) (f : FileRow) → at_key i.repo i.path f ≡ false → set_row i z f ≡ f
unfolding set_row
set_row_other i z f n = rw n refl

key_self : (i : FileInfo) (z : Text) (n : ℕ) → at_key i.repo i.path (new_row i z n) ≡ true
key_self i z n =
    let a = (text_eq_iff i.repo i.repo).1 refl in
    let b = (text_eq_iff i.path i.path).1 refl in rw (a, b) refl

not_found :
    (r p : Text) (fs : List FileRow)
    → find_file r p fs ≡ none
    → All (λ (f : FileRow). at_key r p f ≡ false) fs
unfolding find_file
not_found r p [] h = tt
not_found r p (x ∷ fs) h = elim (Bool-cases (at_key r p x)) [
  | inl t ↦ absurd (cc (rw (find_file, t) at h))
  | inr n ↦ (n, not_found r p fs (rw (find_file, n) at h))
]

set_row_repo : (i : FileInfo) (z : Text) (f : FileRow) → (set_row i z f).repo ≡ f.repo
unfolding set_row
set_row_repo i z f = elim (Bool-cases (at_key i.repo i.path f)) [
  | inl t ↦ rw t refl
  | inr n ↦ rw n refl
]

set_row_path : (i : FileInfo) (z : Text) (f : FileRow) → (set_row i z f).path ≡ f.path
unfolding set_row
set_row_path i z f = elim (Bool-cases (at_key i.repo i.path f)) [
  | inl t ↦ rw t refl
  | inr n ↦ rw n refl
]

-- The ids and the keys of two rows differ.
abbrev AreApart : FileRow → FileRow → Type 0
AreApart f g = (f.id ≢ g.id) × (at_key f.repo f.path g ≡ false)

set_others :
    (i : FileInfo) (z : Text) (x : FileRow) (fs : List FileRow)
    → All (AreApart x) fs
    → All (AreApart (set_row i z x)) (map (set_row i z) fs)
set_others i z x [] h = tt
set_others i z x (g ∷ fs) h = (
  (
    rw (set_row_id i z x, set_row_id i z g) h.0.0,
    rw (set_row_repo i z x, set_row_path i z x) (set_row_key i z x.repo x.path g ∙ h.0.1),
  ),
  set_others i z x fs h.1,
)

set-IsUnique :
    (i : FileInfo) (z : Text) (fs : List FileRow) → IsUnique fs → IsUnique (map (set_row i z) fs)
set-IsUnique i z [] u = tt
set-IsUnique i z (x ∷ fs) u = (set_others i z x fs u.0, set-IsUnique i z fs u.1)

set-within :
    (i : FileInfo) (z : Text) (n : ℕ) (fs : List FileRow)
    → All (λ (f : FileRow). f.id ≤ n) fs
    → All (λ (f : FileRow). f.id ≤ n) (map (set_row i z) fs)
set-within i z n [] h = tt
set-within i z n (x ∷ fs) h = (rw (set_row_id i z x) h.0, set-within i z n fs h.1)

append-IsUnique :
    (fs : List FileRow) (new : FileRow)
    → IsUnique fs
    → All (λ (f : FileRow). f.id ≢ new.id) fs
    → All (λ (f : FileRow). at_key new.repo new.path f ≡ false) fs
    → IsUnique (fs ++ new ∷ [])
append-IsUnique [] new u h k = (tt, tt)
append-IsUnique (x ∷ fs) new u h k = (
  All-append (AreApart x) fs (new ∷ []) u.0
      ((h.0, same_key_comm new.repo new.path x.repo x.path ∙ k.0), tt),
  append-IsUnique fs new u.1 h.1 k.1,
)

set_found :
    (i : FileInfo) (z r p : Text) (fs : List FileRow)
    → same_key i.repo i.path r p ≡ false
    → find_file r p (map (set_row i z) fs) ≡ find_file r p fs
set_found i z r p fs d = elim (find_cases (find_file r p fs)) [
  | inl n ↦ find_set i z r p fs ∙ rw n refl
  | inr (f, e) ↦
      let other =
        at_key_same r p i.repo i.path f (find_key r p fs f e)
        ∙ same_key_comm r p i.repo i.path
        ∙ d in
      find_set i z r p fs ∙ rw e (ap some (set_row_other i z f other))
]

new_found :
    (i : FileInfo) (z r p : Text) (n : ℕ) (fs : List FileRow)
    → same_key i.repo i.path r p ≡ false
    → find_file r p (fs ++ new_row i z n ∷ []) ≡ find_file r p fs
new_found i z r p n fs d = elim (find_cases (find_file r p fs)) [
  | inl e ↦
      let other = at_key_same i.repo i.path r p (new_row i z n) (key_self i z n) ∙ d in
      find_append r p fs (new_row i z n) e ∙ rw (other, e) refl
  | inr (f, e) ↦ find_append_some r p fs (new_row i z n) f e ∙ sym e
]

fresh_file :
    (n : ℕ) (fs : List FileRow)
    → All (λ (f : FileRow). f.id ≤ n) fs
    → All (λ (f : FileRow). f.id ≢ suc n) fs
fresh_file n fs h = All-map fs (λ f k e. omega (arith, e, k)) h

module _ {V : Type 0} where
  -- One row of the tables is set, or is new.
  pub record IsUpsert (i : FileInfo) (z : Text) (db db' : Tables V) (h : IsInStep db) : Type 0 where
    pub step : IsInStep db'
    pub rows : step.rows ≡ h.rows
    pub row : FileRow
    pub found : find_file i.repo i.path db'.files ≡ some row
    pub said : IsRow i z row
    pub others :
        (r p : Text)
        → same_key i.repo i.path r p ≡ false
        → find_file r p db'.files ≡ find_file r p db.files
    pub symbols : db'.symbols ≡ db.symbols
    pub tokens : db'.tokens ≡ db.tokens

  old-IsUpsert :
      (i : FileInfo) (z : Text) (db : Tables V) (h : IsInStep db) (f : FileRow)
      → find_file i.repo i.path db.files ≡ some f
      → IsUpsert i z db (record db { files = map (set_row i z) db.files }) h
  old-IsUpsert i z db h f e = record {
    step = record {
      rows = h.rows;
      chunks = h.chunks;
      vec = h.vec;
      fts = h.fts;
      keyed = h.keyed;
      within = h.within;
      unique = set-IsUnique i z db.files h.unique;
      files_within = set-within i z db.last_file db.files h.files_within;
    };
    rows = refl;
    row = set_row i z f;
    found = find_set i z i.repo i.path db.files ∙ rw e refl;
    said = set_row-IsRow i z f (find_key i.repo i.path db.files f e);
    others = λ r p d. set_found i z r p db.files d;
    symbols = refl;
    tokens = refl;
  }

  new-IsUpsert :
      (i : FileInfo) (z : Text) (db : Tables V) (h : IsInStep db)
      → find_file i.repo i.path db.files ≡ none
      → IsUpsert i z db
          (record db {
            files = db.files ++ new_row i z (suc db.last_file) ∷ [];
            last_file = suc db.last_file;
          })
          h
  new-IsUpsert i z db h e =
      let new = new_row i z (suc db.last_file) in
      record {
        step = record {
          rows = h.rows;
          chunks = h.chunks;
          vec = h.vec;
          fts = h.fts;
          keyed = h.keyed;
          within = h.within;
          unique =
              append-IsUnique db.files new h.unique
                (fresh_file db.last_file db.files h.files_within)
                (not_found i.repo i.path db.files e);
          files_within =
              All-append (λ (f : FileRow). f.id ≤ suc db.last_file) db.files (new ∷ [])
                (All-map db.files (λ f k. omega (arith, k)) h.files_within) (omega arith, tt);
        };
        rows = refl;
        row = new;
        found =
            find_append i.repo i.path db.files new e ∙ rw (key_self i z (suc db.last_file)) refl;
        said = record { sha = refl; lang = refl; size = refl; reason = refl };
        others = λ r p d. new_found i z r p (suc db.last_file) db.files d;
        symbols = refl;
        tokens = refl;
      }

  -- The path has a row, or its repository has one.
  abbrev pub IsAccepted : Limits V → FileInfo → Tables V → Type 0
  IsAccepted lim i db =
      (is_stored i.repo i.path db.files ≡ true) ⊎ (lim.is_registered i.repo ≡ true)

  pub upsert_file_lem :
      (lim : Limits V) (i : FileInfo) (z : Text) (db : Tables V) (h : IsInStep db)
      → Outcome
          (¬ IsAccepted lim i db)
          (λ db'. IsAccepted lim i db × IsUpsert i z db db' h)
          (upsert_file lim i z db)
  unfolding upsert_file
  upsert_file_lem lim i z db h = elim (find_cases (find_file i.repo i.path db.files)) [
    | inl e ↦ elim (Bool-cases (lim.is_registered i.repo)) [
      | inl t ↦
          subst
            (Outcome (¬ IsAccepted lim i db) (λ db'. IsAccepted lim i db × IsUpsert i z db db' h))
            (sym (ap (λ o. chosen o (lim.is_registered i.repo)) e ∙ ap (chosen none) t))
            (inr t, new-IsUpsert i z db h e)
      | inr f ↦
          subst
            (Outcome (¬ IsAccepted lim i db) (λ db'. IsAccepted lim i db × IsUpsert i z db db' h))
            (sym (ap (λ o. chosen o (lim.is_registered i.repo)) e ∙ ap (chosen none) f))
            (λ k. elim k [
              | inl s ↦ true≢false (sym s ∙ ap stored e)
              | inr r ↦ true≢false (sym r ∙ f)
            ])
    ]
    | inr (g, e) ↦
        subst (Outcome (¬ IsAccepted lim i db) (λ db'. IsAccepted lim i db × IsUpsert i z db db' h))
          (sym (ap (λ o. chosen o (lim.is_registered i.repo)) e))
          (inl (ap stored e), old-IsUpsert i z db h g e)
  ]
    where
      stored : Option FileRow → Bool
      stored o = elim o [ none ↦ false | some f ↦ true ]

      chosen : Option FileRow → Bool → Option (Tables V)
      chosen o known =
          if elim o [ none ↦ false | some f ↦ true ]
          then some (record db { files = map (set_row i z) db.files })
          else if known
          then some (record db {
            files = db.files ++ new_row i z (suc db.last_file) ∷ [];
            last_file = suc db.last_file;
          })
          else none
