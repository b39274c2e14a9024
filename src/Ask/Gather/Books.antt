-- ===== src/Ask/Gather/Books.antt =====
-- backend/internal/ask/gather.go: the books of the admitter, and how the hits and the seeds are taken.
use rongo.Prelude.{
  id_in, ℕ, ◌+◌, ◌≡◌, ◌≢◌, refl, sym, ap, ◌∙◌, inl, inr, Bool, true, false, ◌||◌, List, [], ◌∷◌,
  ◌++◌, codes, ◌==◌, Bool-cases, All, All-append, arith, if◌then◌else◌,
}
use mathlib.Core.Bool.{true≢false}
use rongo.Retrieve.Hits.{Hit}
use rongo.Ask.Gather.Admit.{Source, Admitter, push}
use rongo.Ask.Gather.Given.{hit_source, admit_hits, admit_seeds, total_tokens}

-- No chunk stands twice in the list.
abbrev pub IsDistinct : List Source → Type 0
IsDistinct [] = Unit
IsDistinct (s ∷ ss) = All (λ (t : Source). s.chunk_id ≢ t.chunk_id) ss × IsDistinct ss

-- The chunk with this id is in the list.
unfoldable pub has_chunk : List Source → ℕ → Bool
has_chunk [] n = false
has_chunk (s ∷ ss) n = n == s.chunk_id || has_chunk ss n

IsDistinct-append :
    (ss : List Source) (s : Source)
    → IsDistinct ss
    → All (λ (t : Source). t.chunk_id ≢ s.chunk_id) ss
    → IsDistinct (ss ++ s ∷ [])
IsDistinct-append [] s d h = (tt, tt)
IsDistinct-append (t ∷ ss) s d h = (
  All-append (λ (x : Source). t.chunk_id ≢ x.chunk_id) ss (s ∷ []) d.0 (h.0, tt),
  IsDistinct-append ss s d.1 h.1,
)

pub total_tokens-append :
    (ss ts : List Source) → total_tokens (ss ++ ts) ≡ total_tokens ss + total_tokens ts
unfolding total_tokens
total_tokens-append [] ts = omega arith
total_tokens-append (s ∷ ss) ts = omega (arith, total_tokens-append ss ts)

has_chunk-append :
    (ss ts : List Source) (n : ℕ) → has_chunk (ss ++ ts) n ≡ (has_chunk ss n || has_chunk ts n)
unfolding has_chunk
has_chunk-append [] ts n = refl
has_chunk-append (s ∷ ss) ts n = ground (arith, has_chunk-append ss ts n)

abbrev pub IsIn : List ℕ → Source → Type 0
IsIn seen s = id_in s.chunk_id seen ≡ true

others :
    (seen : List ℕ) (s : Source) (ss : List Source)
    → id_in s.chunk_id seen ≡ false
    → All (IsIn seen) ss
    → All (λ (t : Source). t.chunk_id ≢ s.chunk_id) ss
others seen s [] f h = tt
others seen s (t ∷ ss) f h =
    ((λ e. true≢false (sym h.0 ∙ (ap (λ n. id_in n seen) e ∙ f))), others seen s ss f h.1)

seen_more :
    (n : ℕ) (seen : List ℕ) (ss : List Source) → All (IsIn seen) ss → All (IsIn (n ∷ seen)) ss
unfolding id_in
seen_more n seen [] h = tt
seen_more n seen (s ∷ ss) h = (ground (arith, h.0), seen_more n seen ss h.1)

seen_self : (n : ℕ) (seen : List ℕ) → id_in n (n ∷ seen) ≡ true
unfolding id_in
seen_self n seen = ground arith

-- The admitter's books.
pub record IsCounted (a : Admitter) : Type 0 where
  pub distinct : IsDistinct a.out
  pub seen : All (IsIn a.seen) a.out
  pub books : (n : ℕ) → id_in n a.seen ≡ has_chunk a.out n
  pub total : a.spent ≡ total_tokens a.out

pub push-IsCounted :
    (s : Source) (a : Admitter)
    → id_in s.chunk_id a.seen ≡ false
    → IsCounted a
    → IsCounted (push s a)
unfolding push total_tokens has_chunk id_in
push-IsCounted s a f c = record {
  distinct = IsDistinct-append a.out s c.distinct (others a.seen s a.out f c.seen);
  seen =
      All-append (IsIn (s.chunk_id ∷ a.seen)) a.out (s ∷ [])
        (seen_more s.chunk_id a.seen a.out c.seen) (seen_self s.chunk_id a.seen, tt);
  books = λ n. ground (arith, c.books n, has_chunk-append a.out (s ∷ []) n);
  total = omega (arith, c.total, total_tokens-append a.out (s ∷ []));
}

-- One admitter holds every chunk that another one holds.
abbrev pub Holds : Admitter → Admitter → Type 0
Holds a b = (n : ℕ) → has_chunk a.out n ≡ true → has_chunk b.out n ≡ true

push-Holds : (s : Source) (a : Admitter) → Holds a (push s a)
unfolding push has_chunk
push-Holds s a n h = ground (arith, h, has_chunk-append a.out (s ∷ []) n)

push-has_chunk : (s : Source) (a : Admitter) → has_chunk ((push s a).out) s.chunk_id ≡ true
unfolding push has_chunk
push-has_chunk s a = ground (arith, has_chunk-append a.out (s ∷ []) s.chunk_id)

-- A source is taken, unless its chunk is there.
abbrev give : Source → Admitter → Admitter
give s a = if id_in s.chunk_id a.seen then a else push s a

give_lem :
    (s : Source) (a : Admitter)
    → IsCounted a
    → IsCounted (give s a)
      × Holds a (give s a)
      × (has_chunk ((give s a).out) s.chunk_id ≡ true)
      × ((give s a).allowed ≡ a.allowed)
unfolding push
give_lem s a c = elim (Bool-cases (id_in s.chunk_id a.seen)) [
  | inl t ↦ rw t (c, (λ n h. h), sym (c.books s.chunk_id) ∙ t, refl)
  | inr f ↦ rw f (push-IsCounted s a f c, push-Holds s a, push-has_chunk s a, refl)
]

pub record IsGiven {A : Type 0} (id : A → ℕ) (xs : List A) (a b : Admitter) : Type 0 where
  pub counted : IsCounted b
  pub holds : Holds a b
  pub same : b.allowed ≡ a.allowed
  pub taken : All (λ x. has_chunk b.out (id x) ≡ true) xs

pub hits-IsGiven :
    {F : Type 0} (hits : List (Hit F)) (a : Admitter)
    → IsCounted a
    → IsGiven (λ (h : Hit F). h.chunk_id) hits a (admit_hits hits a)
unfolding admit_hits hit_source
hits-IsGiven [] a c = record { counted = c; holds = λ n h. h; same = refl; taken = tt }
hits-IsGiven (h ∷ hits) a c =
    let (counted, holds, there, same) = give_lem (hit_source h (codes "hit")) a c in
    let rest = hits-IsGiven hits (give (hit_source h (codes "hit")) a) counted in
    record {
      counted = rest.counted;
      holds = λ n k. rest.holds n (holds n k);
      same = rest.same ∙ same;
      taken = (rest.holds h.chunk_id there, rest.taken);
    }

pub seeds-IsGiven :
    (seeds : List Source) (a : Admitter)
    → IsCounted a
    → IsGiven (λ (s : Source). s.chunk_id) seeds a (admit_seeds seeds a)
unfolding admit_seeds
seeds-IsGiven [] a c = record { counted = c; holds = λ n h. h; same = refl; taken = tt }
seeds-IsGiven (s ∷ seeds) a c =
    let (counted, holds, there, same) = give_lem (record s { hop = 0 }) a c in
    let rest = seeds-IsGiven seeds (give (record s { hop = 0 }) a) counted in
    record {
      counted = rest.counted;
      holds = λ n k. rest.holds n (holds n k);
      same = rest.same ∙ same;
      taken = (rest.holds s.chunk_id there, rest.taken);
    }
