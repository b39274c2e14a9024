-- ===== src/Ask/Gather/Kept.antt =====
-- backend/internal/ask/gather.go: what one admission keeps, the whole gathering keeps, and it comes to
-- an end with a result unless a read fails.
use rongo.Prelude.{
  id_in, ℕ, zero, suc, ◌+◌, ◌/◌, ◌≡◌, refl, inl, inr, false, not, ◌&&◌, ◌||◌, some, List, [], ◌∷◌,
  Text, text_in, length, ltb, ◌==◌, Bool-cases, if◌then◌else◌,
}
use rongo.Prelude.Fallible.{Outcome, Outcome-bind, Outcome-if}
use rongo.Retrieve.Hits.{Hit}
use rongo.Ask.Gather.Admit.{
  Source, Admitter, permits, admit, admit_all, admit_refs, estimate_tokens,
}
use rongo.Ask.Gather.Walk.{
  Runes, Reads, Gatherer, is_property_edge, mechanism_first, crossings, referenced, within,
}
use rongo.Ask.Gather.Given.{crossing_reserve, given, crossing_budget}
use rongo.Ask.Gather.{
  Crossing, whole_file, whole_files, hop_refs, symbol_hops, land, land_all, cross_all,
  config_to_config, land_later, cross, file_key, gather_seeded,
}
use rongo.Ask.Gather.Answers.{
  Failed, referenced_answers, whole_file_answers, hop_refs_answers, crossings_answers,
}

module _ (db : Reads) (u : Runes) (g : Gatherer) where
  module _ (P : Admitter → Type 0)
      (keep : (s : Source) (hop : ℕ) (a : Admitter) → P a → P ((admit s hop a).0)) where
    admit_all-keeps : (ss : List Source) (hop : ℕ) (a : Admitter) → P a → P ((admit_all ss hop a).0)
    unfolding admit_all
    admit_all-keeps [] hop a p = p
    admit_all-keeps (s ∷ ss) hop a p = elim (Bool-cases ((admit s hop a).1)) [
      | inl t ↦ rw (admit_all, t) (admit_all-keeps ss hop ((admit s hop a).0) (keep s hop a p))
      | inr f ↦ rw (admit_all, f) (keep s hop a p)
    ]

    admit_refs-keeps :
        (refs : List Source) (hop : ℕ) (a : Admitter) → P a → P ((admit_refs refs hop a).0)
    unfolding admit_refs
    admit_refs-keeps [] hop a p = p
    admit_refs-keeps (ref ∷ refs) hop a p =
        elim (Bool-cases (id_in ref.chunk_id a.seen || not (permits a ref))) [
          | inl t ↦ rw (admit_refs, t) (admit_refs-keeps refs hop a p)
          | inr f ↦ elim (Bool-cases ((admit ref hop a).1)) [
            | inl t ↦
                rw (admit_refs, f, t)
                  (admit_refs-keeps refs hop ((admit ref hop a).0) (keep ref hop a p))
            | inr n ↦ rw (admit_refs, f, n) (keep ref hop a p)
          ]
        ]

    whole_files-keeps :
        {F : Type 0} (hits : List (Hit F)) (filed : List Text) (a : Admitter)
        → P a
        → Outcome (Failed db) P (whole_files db u g hits filed a)
    unfolding whole_files
    whole_files-keeps [] filed a p = p
    whole_files-keeps (h ∷ hits) filed a p =
        elim (Bool-cases (text_in (file_key h.repo h.path) filed)) [
          | inl t ↦ rw (whole_files, t) (whole_files-keeps hits filed a p)
          | inr f ↦
              rw (whole_files, f)
                (Outcome-bind (Failed db) (λ _. Unit) P (whole_file db u g h) _
                  (whole_file_answers db u g h)
                  λ more _.
                    whole_files-keeps hits (file_key h.repo h.path ∷ filed) ((admit_all more 0 a).0)
                      (admit_all-keeps more 0 a p))
        ]

    symbol_hops-keeps :
        (left hop : ℕ) (frontier : List Source) (a : Admitter)
        → P a
        → Outcome (Failed db) P (symbol_hops db u g left hop frontier a)
    unfolding symbol_hops
    symbol_hops-keeps zero hop frontier a p = p
    symbol_hops-keeps (suc left) hop frontier a p =
        Outcome-bind (Failed db) (λ _. Unit {0}) P (hop_refs db u g frontier) _
          (hop_refs_answers db u g frontier)
          (λ refs _.
            let r = admit_refs (mechanism_first refs) hop a in
            let kept = admit_refs-keeps (mechanism_first refs) hop a p in
            elim (Bool-cases (not r.2 || length (r.1) == 0)) [
              | inl t ↦ rw t kept
              | inr f ↦ rw f (symbol_hops-keeps left (suc hop) (r.1) (r.0) kept)
            ])

    land-keeps :
        (landing from : Source) (a : Admitter)
        → P a
        → Outcome (Failed db) (λ r. P (r.0)) (land db u g landing from a)
    unfolding land
    land-keeps landing from a p =
        elim (Bool-cases (id_in landing.chunk_id a.seen || not (permits a landing))) [
          | inl t ↦ rw (land, t) p
          | inr f ↦
              let kept = keep landing (from.hop + 1) a p in
              elim (Bool-cases ((admit landing (from.hop + 1) a).1)) [
                | inr n ↦ rw (land, f, n) kept
                | inl y ↦ elim (Bool-cases (is_property_edge landing.reason)) [
                  | inl t ↦ rw (land, f, y, t) kept
                  | inr n ↦
                      rw (land, f, y, n)
                        (Outcome-bind (Failed db) (λ _. Unit {0}) (λ r. P (r.0))
                          (referenced u db g landing) _ (referenced_answers db u g landing)
                          (λ inland _.
                            admit_all-keeps (mechanism_first inland) (from.hop + 2)
                              ((admit landing (from.hop + 1) a).0) kept))
                ]
              ]
        ]

    land_all-keeps :
        (ss : List Source) (from : Source) (a : Admitter) (later : List Crossing)
        → P a
        → Outcome (Failed db) (λ r. P (r.0)) (land_all db u g ss from a later)
    unfolding land_all
    land_all-keeps [] from a later p = p
    land_all-keeps (landing ∷ rest) from a later p =
        elim (Bool-cases (is_property_edge landing.reason)) [
          | inl t ↦ rw (land_all, t) (land_all-keeps rest from a _ p)
          | inr f ↦
              rw (land_all, f)
                (Outcome-bind (Failed db) (λ r. P (r.0)) (λ r. P (r.0)) (land db u g landing from a)
                  _ (land-keeps landing from a p)
                  (λ r kept. elim (Bool-cases (r.1)) [
                    | inl t ↦ rw t (land_all-keeps rest from (r.0) later kept)
                    | inr n ↦ rw n kept
                  ]))
        ]

    cross_all-keeps :
        (starts : List Source) (crossed : List Text) (stage : List (Text × Text)) (a : Admitter)
        (later : List Crossing)
        → P a
        → Outcome (Failed db) (λ r. P (r.0)) (cross_all db u g starts crossed stage a later)
    unfolding cross_all
    cross_all-keeps [] crossed stage a later p = p
    cross_all-keeps (from ∷ starts) crossed stage a later p =
        elim (Bool-cases (text_in (file_key from.repo from.path) crossed)) [
          | inl t ↦ rw (cross_all, t) (cross_all-keeps starts crossed stage a later p)
          | inr f ↦
              rw (cross_all, f)
                (Outcome-bind (Failed db) (λ _. Unit {0}) (λ r. P (r.0)) (crossings u db g from) _
                  (crossings_answers db u g from)
                  (λ far _.
                    Outcome-bind (Failed db) (λ r. P (r.0)) (λ r. P (r.0))
                      (land_all db u g (mechanism_first (within far stage)) from a later) _
                      (land_all-keeps (mechanism_first (within far stage)) from a later p)
                      (λ r kept. elim (Bool-cases (r.2)) [
                        | inl t ↦ rw t (
                            cross_all-keeps starts (file_key from.repo from.path ∷ crossed) stage
                              (r.0) (r.1) kept)
                        | inr n ↦ rw n kept
                      ])))
        ]

    land_later-keeps :
        (later : List Crossing) (spent : ℕ) (a : Admitter)
        → P a
        → Outcome (Failed db) P (land_later db u g later spent a)
    unfolding land_later
    land_later-keeps [] spent a p = p
    land_later-keeps (c ∷ later) spent a p =
        let cost = estimate_tokens c.landing.text in
        elim (Bool-cases (
          config_to_config db u g c
          && (id_in c.landing.chunk_id a.seen
              || ltb (g.opts.token_budget / crossing_reserve) (spent + cost)))) [
                | inl t ↦ rw (land_later, t) (land_later-keeps later spent a p)
                | inr f ↦
                    rw (land_later, f)
                      (Outcome-bind (Failed db) (λ r. P (r.0)) P (land db u g c.landing c.from a) _
                        (land-keeps c.landing c.from a p)
                        (λ r kept. elim (Bool-cases (r.1)) [
                          | inl t ↦ rw t (land_later-keeps later _ (r.0) kept)
                          | inr n ↦ rw n kept
                        ]))
              ]

    -- The sources of an admitter that `P` holds of.
    abbrev pub Listed : List Source → Type 0
    Listed out = (a : Admitter) × (a.out ≡ out) × P a

    pub cross-keeps :
        (stage : List (Text × Text)) (a : Admitter)
        → P a
        → Outcome (Failed db) Listed (cross db u g stage a)
    unfolding cross
    cross-keeps stage a p =
        Outcome-bind (Failed db) (λ r. P (r.0)) Listed (cross_all db u g a.out [] stage a []) _
          (cross_all-keeps a.out [] stage a [] p)
          (λ r kept. elim (Bool-cases (r.2)) [
            | inr n ↦ rw n (r.0, refl, kept)
            | inl t ↦ rw t (
                Outcome-bind (Failed db) P Listed (land_later db u g (r.1) 0 (r.0)) _
                  (land_later-keeps (r.1) 0 (r.0) kept) (λ last k. (last, refl, k)))
          ])

    -- From the hits and the seeds on; a new budget makes no difference to `P`.
    pub gather_seeded-keeps :
        {F : Type 0} (hits : List (Hit F)) (seeds : List Source) (stage : List (Text × Text))
        → ((a : Admitter) → P a → P (record a { budget = crossing_budget g }))
        → (length hits == 0 && length seeds == 0) ≡ false
        → P (given g hits seeds)
        → Outcome (Failed db) Listed (gather_seeded db u g hits seeds stage)
    unfolding gather_seeded
    gather_seeded-keeps hits seeds stage rebudget some_given p =
        rw (gather_seeded, some_given)
          (Outcome-bind (Failed db) P Listed
            (if ltb 0 g.opts.whole_file_tokens
              then whole_files db u g hits [] (given g hits seeds)
              else some (given g hits seeds))
            _ filed
            (λ a kept.
              Outcome-bind (Failed db) P Listed (symbol_hops db u g g.opts.max_hops 1 a.out a) _
                (symbol_hops-keeps g.opts.max_hops 1 a.out a kept)
                (λ walked k.
                  Outcome-if (Failed db) Listed g.opts.no_crossings _ _ (walked, refl, k)
                    (cross-keeps stage _ (rebudget walked k)))))
      where
        filed : Outcome (Failed db) P (
            if ltb 0 g.opts.whole_file_tokens
            then whole_files db u g hits [] (given g hits seeds)
            else some (given g hits seeds))
        filed =
            Outcome-if (Failed db) P (ltb 0 g.opts.whole_file_tokens) _ _
              (whole_files-keeps hits [] (given g hits seeds) p) p
