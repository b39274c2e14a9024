-- ===== src/Indexer/Write/Files.antt =====
-- backend/internal/indexer/write.go: the rows of files, found by repository and path.
use rongo.Prelude.{
  ◌≡◌, ◌≢◌, refl, sym, ap, ◌∙◌, ◌↔◌, inl, inr, Bool, true, false, not, ◌&&◌, none, some, List, [],
  ◌∷◌, ◌++◌, map, Text, text_eq, text_eq_iff, filter, Bool-cases, All, arith, if◌then◌else◌,
}
use mathlib.Core.Bool.{true≢false}
use mathlib.Core.Path.{subst}
use mathlib.Core.Option.{some-injective}
use mathlib.Core.Option
use rongo.Prelude.Filters.{All-filter}
use rongo.Indexer.Write.Schema.{FileRow, FileInfo, at_key, find_file, set_row}
use rongo.Indexer.Write.InStep.{IsUnique}

-- Two repositories and two paths are the same.
abbrev pub same_key : Text → Text → Text → Text → Bool
same_key r p r' p' = text_eq r r' && text_eq p p'

pub text_eq_comm : (s t : Text) → text_eq s t ≡ text_eq t s
text_eq_comm s t = elim (Bool-cases (text_eq s t)) [
  | inl e ↦ rw ((text_eq_iff s t).0 e) refl
  | inr f ↦ elim (Bool-cases (text_eq t s)) [
    | inl e ↦ absurd (true≢false (sym ((text_eq_iff s t).1 (sym ((text_eq_iff t s).0 e))) ∙ f))
    | inr g ↦ f ∙ sym g
  ]
]

pub same_key_comm : (r p r' p' : Text) → same_key r p r' p' ≡ same_key r' p' r p
same_key_comm r p r' p' = rw (text_eq_comm r r', text_eq_comm p p') refl

pub at_key_iff : (r p : Text) (f : FileRow) → (at_key r p f ≡ true) ↔ ((f.repo ≡ r) × (f.path ≡ p))
at_key_iff r p f =
    let a = text_eq_iff f.repo r in let b = text_eq_iff f.path p in ground (arith, a, b)

-- A row under one key is under another one if the keys are the same.
pub at_key_same :
    (r p r' p' : Text) (f : FileRow) → at_key r p f ≡ true → at_key r' p' f ≡ same_key r p r' p'
at_key_same r p r' p' f h = let (e, e') = (at_key_iff r p f).0 h in rw (e, e') refl

pub find_key :
    (r p : Text) (fs : List FileRow) (f : FileRow) → find_file r p fs ≡ some f → at_key r p f ≡ true
unfolding find_file
find_key r p [] f h = absurd (cc h)
find_key r p (g ∷ fs) f h = elim (Bool-cases (at_key r p g)) [
  | inl t ↦ let e : some g ≡ some f = rw (find_file, t) at h in ground (arith, e, t)
  | inr n ↦ find_key r p fs f (rw (find_file, n) at h)
]

-- What holds of every row holds of the one that is found.
pub find_all :
    (P : FileRow → Type 0) (r p : Text) (fs : List FileRow) (f : FileRow)
    → All P fs
    → find_file r p fs ≡ some f
    → P f
unfolding find_file
find_all P r p [] f a h = absurd (cc h)
find_all P r p (g ∷ fs) f a h = elim (Bool-cases (at_key r p g)) [
  | inl t ↦ subst P (some-injective g f (rw (find_file, t) at h)) a.0
  | inr n ↦ find_all P r p fs f a.1 (rw (find_file, n) at h)
]

-- Files that are found under different keys have different ids.
pub ids_apart :
    (r p r' p' : Text) (fs : List FileRow) (f g : FileRow)
    → IsUnique fs
    → same_key r p r' p' ≡ false
    → find_file r p fs ≡ some f
    → find_file r' p' fs ≡ some g
    → f.id ≢ g.id
unfolding find_file
ids_apart r p r' p' [] f g u d h k = absurd (cc h)
ids_apart r p r' p' (x ∷ fs) f g u d h k = elim (Bool-cases (at_key r p x)) [
  | inl t ↦
      let n = at_key_same r p r' p' x t ∙ d in
      let found =
        find_all (λ (y : FileRow). (x.id ≢ y.id) × (at_key x.repo x.path y ≡ false)) r' p' fs g u.0
          (rw (find_file, n) at k) in
      subst (λ (y : FileRow). y.id ≢ g.id) (some-injective x f (rw (find_file, t) at h)) found.0
  | inr n ↦ elim (Bool-cases (at_key r' p' x)) [
    | inl t ↦
        let found =
          find_all (λ (y : FileRow). (x.id ≢ y.id) × (at_key x.repo x.path y ≡ false)) r p fs f u.0
            (rw (find_file, n) at h) in
        λ e.
          found.0 (ap (λ (y : FileRow). y.id) (some-injective x g (rw (find_file, t) at k)) ∙ sym e)
    | inr m ↦ ids_apart r p r' p' fs f g u.1 d (rw (find_file, n) at h) (rw (find_file, m) at k)
  ]
]

-- The rows but those under a key.
abbrev pub without : Text → Text → List FileRow → List FileRow
without r p fs = filter (λ (f : FileRow). not (at_key r p f)) fs

pub find_without :
    (r p r' p' : Text) (fs : List FileRow)
    → find_file r' p' (without r p fs) ≡ (if same_key r p r' p' then none else find_file r' p' fs)
unfolding find_file
find_without r p r' p' [] = elim (Bool-cases (same_key r p r' p')) [
  | inl t ↦ rw t refl
  | inr f ↦ rw f refl
]
find_without r p r' p' (x ∷ fs) = elim (Bool-cases (at_key r p x)) [
  | inl t ↦
      let same = at_key_same r p r' p' x t in
      elim (Bool-cases (same_key r p r' p')) [
        | inl s ↦ rw (t, s) (find_without r p r' p' fs ∙ rw s refl)
        | inr d ↦ rw (t, d, find_file, same ∙ d) (find_without r p r' p' fs ∙ rw d refl)
      ]
  | inr n ↦ elim (Bool-cases (at_key r' p' x)) [
    | inl t ↦
        let d : same_key r p r' p' ≡ false =
          same_key_comm r p r' p' ∙ (sym (at_key_same r' p' r p x t) ∙ n) in
        rw (n, d, find_file, t) refl
    | inr m ↦ rw (n, find_file, m) (find_without r p r' p' fs)
  ]
]

pub filter-IsUnique :
    (q : FileRow → Bool) (fs : List FileRow) → IsUnique fs → IsUnique (filter q fs)
filter-IsUnique q [] h = tt
filter-IsUnique q (x ∷ fs) h = elim (Bool-cases (q x)) [
  | inl t ↦ rw t (All-filter _ q fs h.0, filter-IsUnique q fs h.1)
  | inr f ↦ rw f (filter-IsUnique q fs h.1)
]

pub find_append :
    (r p : Text) (fs : List FileRow) (new : FileRow)
    → find_file r p fs ≡ none
    → find_file r p (fs ++ new ∷ []) ≡ (if at_key r p new then some new else none)
unfolding find_file
find_append r p [] new h = refl
find_append r p (x ∷ fs) new h = elim (Bool-cases (at_key r p x)) [
  | inl t ↦ absurd (cc (rw (find_file, t) at h))
  | inr n ↦ rw (find_file, n) (find_append r p fs new (rw (find_file, n) at h))
]

pub find_append_some :
    (r p : Text) (fs : List FileRow) (new f : FileRow)
    → find_file r p fs ≡ some f
    → find_file r p (fs ++ new ∷ []) ≡ some f
unfolding find_file
find_append_some r p [] new f h = absurd (cc h)
find_append_some r p (x ∷ fs) new f h = elim (Bool-cases (at_key r p x)) [
  | inl t ↦ rw (find_file, t) (rw (find_file, t) at h)
  | inr n ↦ rw (find_file, n) (find_append_some r p fs new f (rw (find_file, n) at h))
]

pub set_row_key :
    (i : FileInfo) (z r p : Text) (f : FileRow) → at_key r p (set_row i z f) ≡ at_key r p f
unfolding set_row
set_row_key i z r p f = elim (Bool-cases (at_key i.repo i.path f)) [
  | inl t ↦ rw t refl
  | inr n ↦ rw n refl
]

pub set_row_id : (i : FileInfo) (z : Text) (f : FileRow) → (set_row i z f).id ≡ f.id
unfolding set_row
set_row_id i z f = elim (Bool-cases (at_key i.repo i.path f)) [
  | inl t ↦ rw t refl
  | inr n ↦ rw n refl
]

pub find_set :
    (i : FileInfo) (z r p : Text) (fs : List FileRow)
    → find_file r p (map (set_row i z) fs) ≡ Option.map (set_row i z) (find_file r p fs)
unfolding find_file Option.map
find_set i z r p [] = refl
find_set i z r p (x ∷ fs) = elim (Bool-cases (at_key r p x)) [
  | inl t ↦ rw (find_file, set_row_key i z r p x, t) refl
  | inr n ↦ rw (find_file, set_row_key i z r p x, n) (find_set i z r p fs)
]
