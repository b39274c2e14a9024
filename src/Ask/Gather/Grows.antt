-- ===== src/Ask/Gather/Grows.antt =====
-- backend/internal/ask/gather.go: what is gathered is what was given and more, no chunk twice, inside
-- the turn's repositories and under the budget.
use rongo.Prelude.{
  id_in, ℕ, ◌+◌, ◌≤◌, ◌≡◌, refl, sym, ap, ◌∙◌, inl, inr, true, false, ◌&&◌, Option, List, [], ◌∷◌,
  ◌++◌, Text, length, ltb, ◌==◌, ltb_false→le, Bool-cases, All, All-append, arith,
}
use Prim.Native.Nat.{max}
use mathlib.Core.List.{append_assoc, append-nil}
use rongo.Prelude.Fallible.{Outcome, Outcome-map}
use rongo.Retrieve.Hits.{Hit}
use rongo.Ask.Gather.Admit.{Source, Admitter, in_ceiling, permits, push, admit, estimate_tokens}
use rongo.Ask.Gather.Walk.{Runes, Reads, Gatherer}
use rongo.Ask.Gather.Answers.{Failed}
use rongo.Ask.Gather.Kept.{gather_seeded-keeps}
use rongo.Ask.Gather.Books.{
  IsDistinct, has_chunk, IsCounted, push-IsCounted, hits-IsGiven, seeds-IsGiven,
}
use rongo.Ask.Gather.Given.{
  allowed, empty_handed, admit_hits, admit_seeds, crossing_budget, symbol_budget, total_tokens,
  given,
}
use rongo.Ask.Gather.{gather_seeded}

All-map {ℓ} :
    {A : Type ℓ} {P Q : A → Type 0} (xs : List A) → ((x : A) → P x → Q x) → All P xs → All Q xs
All-map [] f h = tt
All-map (x ∷ xs) f h = (f x h.0, All-map xs f h.1)

record IsGathered (base : List Source) (ceiling : Option (List Text)) (bound : ℕ) (a : Admitter)
    : Type 0 where
  counted : IsCounted a
  reached : List Source
  grown : a.out ≡ base ++ reached
  inside : All (λ (s : Source). in_ceiling ceiling s.repo ≡ true) reached
  under : a.spent ≤ max (total_tokens base) bound
  capped : a.budget ≤ bound
  same : a.allowed ≡ ceiling

admitted_more :
    (base : List Source) (ceiling : Option (List Text)) (bound : ℕ) (s : Source) (a : Admitter)
    → IsGathered base ceiling bound a
    → id_in s.chunk_id a.seen ≡ false
    → permits a s ≡ true
    → ltb a.budget (a.spent + estimate_tokens s.text) ≡ false
    → IsGathered base ceiling bound (push s a)
unfolding push permits
admitted_more base ceiling bound s a g unseen permitted fits = record {
  counted = push-IsCounted s a unseen g.counted;
  reached = g.reached ++ s ∷ [];
  grown = ap (λ t. t ++ s ∷ []) g.grown ∙ append_assoc base g.reached (s ∷ []);
  inside =
      All-append (λ (t : Source). in_ceiling ceiling t.repo ≡ true) g.reached (s ∷ []) g.inside
        (rw g.same at permitted, tt);
  under = omega (arith, g.capped, ltb_false→le a.budget (a.spent + estimate_tokens s.text) fits);
  capped = g.capped;
  same = g.same;
}

admit-IsGathered :
    (base : List Source) (ceiling : Option (List Text)) (bound : ℕ) (s : Source) (hop : ℕ)
    (a : Admitter)
    → IsGathered base ceiling bound a
    → IsGathered base ceiling bound ((admit s hop a).0)
unfolding admit
admit-IsGathered base ceiling bound s hop a g = elim (Bool-cases (id_in s.chunk_id a.seen)) [
  | inl t ↦ rw (admit, t) g
  | inr unseen ↦ elim (Bool-cases (permits a s)) [
    | inr f ↦ rw (admit, unseen, f) g
    | inl permitted ↦ elim (Bool-cases (ltb a.budget (a.spent + estimate_tokens s.text))) [
      | inl t ↦ rw (admit, unseen, permitted, t) g
      | inr fits ↦
          rw (admit, unseen, permitted, fits)
            (admitted_more base ceiling bound (record s { hop = hop }) a g unseen permitted fits)
    ]
  ]
]

symbol-le-crossing : (g : Gatherer) → symbol_budget g ≤ crossing_budget g
unfolding symbol_budget crossing_budget
symbol-le-crossing g = ground arith

nothing : (g : Gatherer) → IsCounted (empty_handed g)
unfolding id_in has_chunk total_tokens
nothing g = record { distinct = tt; seen = tt; books = λ n. refl; total = refl }

rebudget :
    (base : List Source) (ceiling : Option (List Text)) (bound : ℕ) (a : Admitter)
    → IsGathered base ceiling bound a
    → IsGathered base ceiling bound (record a { budget = bound })
rebudget base ceiling bound a p = record {
  counted = record {
    distinct = p.counted.distinct;
    seen = p.counted.seen;
    books = p.counted.books;
    total = p.counted.total;
  };
  reached = p.reached;
  grown = p.grown;
  inside = p.inside;
  under = p.under;
  capped = omega arith;
  same = p.same;
}

given-IsGathered :
    {F : Type 0} (g : Gatherer) (hits : List (Hit F)) (seeds : List Source)
    → IsGathered ((given g hits seeds).out) (allowed g) (crossing_budget g) (given g hits seeds)
      × All (λ (h : Hit F). has_chunk ((given g hits seeds).out) h.chunk_id ≡ true) hits
      × All (λ (s : Source). has_chunk ((given g hits seeds).out) s.chunk_id ≡ true) seeds
unfolding given
given-IsGathered g hits seeds =
    let first = hits-IsGiven hits (empty_handed g) (nothing g) in
    let a = admit_hits hits (empty_handed g) in
    let all = seeds-IsGiven seeds a first.counted in
    (
      record {
        counted = record {
          distinct = all.counted.distinct;
          seen = all.counted.seen;
          books = all.counted.books;
          total = all.counted.total;
        };
        reached = [];
        grown = sym (append-nil _);
        inside = tt;
        under = omega (arith, all.counted.total);
        capped = symbol-le-crossing g;
        same = all.same ∙ first.same;
      },
      All-map hits (λ (h : Hit _). all.holds h.chunk_id) first.taken,
      all.taken,
    )

-- The list begins with the given sources, every hit and every seed among them, and has no chunk
-- twice; the rest lies inside the ceiling; the whole is within the budget, or costs what was given.
abbrev pub Gathers : {F : Type 0} → Gatherer → List (Hit F) → List Source → List Source → Type 0
Gathers g hits seeds out =
    let first = (given g hits seeds).out in
    (reached : List Source) × (out ≡ first ++ reached)
    × All (λ (h : Hit _). has_chunk first h.chunk_id ≡ true) hits
    × All (λ (s : Source). has_chunk first s.chunk_id ≡ true) seeds
    × IsDistinct out
    × All (λ (s : Source). in_ceiling (allowed g) s.repo ≡ true) reached
    × (total_tokens out ≤ max (total_tokens first) (crossing_budget g))

nothing_given : (F : Type 0) (g : Gatherer) → Gathers {F = F} g [] [] []
unfolding given admit_hits admit_seeds total_tokens
nothing_given F g = ([], refl, tt, tt, tt, tt, omega arith)

something_given :
    {F : Type 0} (db : Reads) (u : Runes) (g : Gatherer) (hits : List (Hit F)) (seeds : List Source)
    (stage : List (Text × Text))
    → (length hits == 0 && length seeds == 0) ≡ false
    → Outcome (Failed db) (Gathers g hits seeds) (gather_seeded db u g hits seeds stage)
something_given db u g hits seeds stage f =
    let first = (given g hits seeds).out in
    let start = given-IsGathered g hits seeds in
    Outcome-map (Failed db) (gather_seeded db u g hits seeds stage)
      (λ out l.
        let (a, same, p) = l in
        rw (← same) (
          p.reached,
          p.grown,
          start.1,
          start.2,
          p.counted.distinct,
          p.inside,
          omega (arith, p.under, p.counted.total),
        ))
      (gather_seeded-keeps db u g (IsGathered first (allowed g) (crossing_budget g))
        (admit-IsGathered first (allowed g) (crossing_budget g)) hits seeds stage
        (λ a p. rebudget first (allowed g) (crossing_budget g) a p) f start.0)

-- GatherSeeded returns, unless a read fails, and what it returns begins with the hits and the seeds,
-- each of which has its chunk there, none lost to the budget. No chunk stands there twice, the
-- sources after them lie in the turn's repositories, and all together they cost no more than the
-- token budget less what is reserved for the gap pass and the locate loop, or, if the hits and the
-- seeds cost more, no more than they do.
pub gather_seeded-Gathers :
    {F : Type 0} (db : Reads) (u : Runes) (g : Gatherer) (hits : List (Hit F)) (seeds : List Source)
    (stage : List (Text × Text))
    → Outcome (Failed db) (Gathers g hits seeds) (gather_seeded db u g hits seeds stage)
unfolding gather_seeded
gather_seeded-Gathers db u g [] [] stage = nothing_given _ g
gather_seeded-Gathers db u g [] (s ∷ seeds) stage =
    something_given db u g [] (s ∷ seeds) stage (ground arith)
gather_seeded-Gathers db u g (h ∷ hits) seeds stage =
    something_given db u g (h ∷ hits) seeds stage (ground arith)
