-- ===== src/Ask/Gather/Answers.antt =====
-- backend/internal/ask/gather.go: a walk's reads end with an answer unless the database fails one.
use rongo.Prelude.{
  ℕ, ◌≡◌, inl, inr, Bool, Option, none, some, List, [], ◌∷◌, Text, length, ◌==◌, Bool-cases,
}
use rongo.Prelude.Fallible.{Outcome, Outcome-bind}
use rongo.Retrieve.Hits.{Hit}
use rongo.Ask.Gather.Admit.{Source}
use rongo.Ask.Gather.Walk.{
  Runes, Reads, Neighbour, Gatherer, landed, landings, crossings, referenced, identifiers,
  cross_reason,
}
use rongo.Ask.Gather.{whole_file, hop_refs}

-- Every read succeeds.
pub record IsReadable (db : Reads) : Type 0 where
  pub files : (repo path : Text) → (r : List Source) × (db.chunks_of repo path ≡ some r)
  pub names :
      (ns : List Text) (home repo path : Text)
      → (r : List Source) × (db.definers ns home repo path ≡ some r)
  pub far :
      (suffix : Bool) (repo path : Text)
      → (r : List Neighbour) × (db.neighbours suffix repo path ≡ some r)
  pub lines :
      (repo path : Text) (line : ℕ) → (r : Option Source) × (db.chunk_at repo path line ≡ some r)

abbrev pub Failed : Reads → Type 0
Failed db = ¬ (IsReadable db)

module _ (db : Reads) (u : Runes) (g : Gatherer) where
  pub read_answers :
      {A : Type 0} (m : Option A)
      → (IsReadable db → (r : A) × (m ≡ some r))
      → Outcome (Failed db) (λ (_ : A). Unit {0}) m
  read_answers none h = λ r. cc (h r).1
  read_answers (some a) h = tt

  pub referenced_answers :
      (from : Source) → Outcome (Failed db) (λ (_ : List Source). Unit {0}) (referenced u db g from)
  unfolding referenced
  referenced_answers from = elim (Bool-cases (length (identifiers u from.text) == 0)) [
    | inl e ↦ rw (referenced, e) tt
    | inr e ↦ rw (referenced, e) (read_answers _ (λ r. r.names _ from.repo from.repo from.path))
  ]

  pub whole_file_answers :
      {F : Type 0} (h : Hit F)
      → Outcome (Failed db) (λ (_ : List Source). Unit {0}) (whole_file db u g h)
  unfolding whole_file
  whole_file_answers h =
      Outcome-bind (Failed db) (λ _. Unit {0}) (λ _. Unit {0}) (db.chunks_of h.repo h.path) _
        (read_answers (db.chunks_of h.repo h.path) (λ r. r.files h.repo h.path)) (λ _ _. tt)

  pub hop_refs_answers :
      (frontier : List Source)
      → Outcome (Failed db) (λ (_ : List Source). Unit {0}) (hop_refs db u g frontier)
  unfolding hop_refs
  hop_refs_answers [] = tt
  hop_refs_answers (from ∷ frontier) =
      Outcome-bind (Failed db) (λ _. Unit {0}) (λ _. Unit {0}) (referenced u db g from) _
        (referenced_answers from)
        (λ r _.
          Outcome-bind (Failed db) (λ _. Unit {0}) (λ _. Unit {0}) (hop_refs db u g frontier) _
            (hop_refs_answers frontier) (λ _ _. tt))

  landed_answers :
      (n : Neighbour) (from : Source) (found : Option Source) (rest : Option (List Source))
      → Outcome (Failed db) (λ (_ : List Source). Unit {0}) rest
      → Outcome (Failed db) (λ (_ : List Source). Unit {0}) (landed u db g n from found rest)
  unfolding landed
  landed_answers n from none rest h = h
  landed_answers n from (some s) none h = h
  landed_answers n from (some s) (some ss) h = tt

  pub landings_answers :
      (from : Source) (ns : List Neighbour)
      → Outcome (Failed db) (λ (_ : List Source). Unit {0}) (landings u db g from ns)
  unfolding landings
  landings_answers from [] = tt
  landings_answers from (n ∷ ns) = elim (Bool-cases (cross_reason u g n from)) [
    | inr f ↦ rw (landings, f) (landings_answers from ns)
    | inl t ↦
        rw (landings, t)
          (Outcome-bind (Failed db) (λ _. Unit {0}) (λ _. Unit {0})
            (db.chunk_at n.repo n.path n.line) _
            (read_answers (db.chunk_at n.repo n.path n.line) (λ r. r.lines n.repo n.path n.line))
            (λ found _.
              landed_answers n from found (landings u db g from ns) (landings_answers from ns)))
  ]

  pub crossings_answers :
      (from : Source) → Outcome (Failed db) (λ (_ : List Source). Unit {0}) (crossings u db g from)
  unfolding crossings
  crossings_answers from =
      Outcome-bind (Failed db) (λ _. Unit {0}) (λ _. Unit {0})
        (db.neighbours (g.opts.route_suffix) from.repo from.path) _
        (read_answers _ (λ r. r.far (g.opts.route_suffix) from.repo from.path))
        (λ ns _. landings_answers from _)
