-- ===== src/Indexer/Chunk/Partition.antt =====
-- What `symbolRegions` of chunk.go promises: no line of the file is dropped or read twice, and each
-- anchor owns the region that holds its line.
use mathlib.Core.Path.{subst}
use rongo.Prelude.{
  ℕ, zero, suc, ◌+◌, ◌-◌, ◌≤◌, ◌<◌, ◌≡◌, refl, ap, Bool, true, ◌⊎◌, inl, inr, List, [], ◌∷◌, map,
  Text, arith, ltb, leb, leb→le, le→ltb_false, Bool-cases, length, All,
}
use rongo.Indexer.Chunk.Regions.{
  CodeSymbol, no_symbol, Region, doc_loop, doc_start, contains, structural, innermost, in_order,
  anchor_symbols, anchor_regions, regions_of, symbol_regions,
}

-- The regions follow one another without a gap from line `from` to line `hi`, and none is empty.
pub data IsPartition (hi : ℕ) : ℕ → List Region → Type 0 where
  done : {from : ℕ} → from ≡ hi + 1 → IsPartition hi from []
  next :
      {from end after : ℕ} {sym : CodeSymbol} {rs : List Region}
      → from ≤ end
      → after ≡ end + 1
      → IsPartition hi after rs
      → IsPartition hi from (record { start = from; end = end; sym = sym } ∷ rs)

abbrev LiesIn : ℕ → CodeSymbol → Type 0
LiesIn n s = (0 < s.line) × (s.line ≤ n)

module _ (lines : List Text) where
  doc_loop_bounds :
      (l floor start : ℕ)
      → floor ≤ start
      → l ≤ start
      → (floor ≤ doc_loop l lines floor start) × (doc_loop l lines floor start ≤ start)
  unfolding doc_loop
  doc_loop_bounds zero floor start h k = omega arith
  doc_loop_bounds (suc l) floor start h k = elim (Bool-cases (leb floor (suc l))) [
    | inl t ↦
        let (low, high) = doc_loop_bounds l floor (suc l) (leb→le floor (suc l) t) (omega arith) in
        ground (arith, low, high)
    | inr f ↦ rw f (omega arith)
  ]

  pub doc_start_bounds :
      (line floor : ℕ)
      → floor ≤ line
      → (floor ≤ doc_start lines line floor) × (doc_start lines line floor ≤ line)
  unfolding doc_start
  doc_start_bounds line floor h = doc_loop_bounds (line - 1) floor line h (omega arith)

structural-LiesIn :
    (kinds : Text → Bool) (n : ℕ) (syms : List CodeSymbol)
    → All (LiesIn n) (structural kinds n syms)
unfolding structural
structural-LiesIn kinds n [] = tt
structural-LiesIn kinds n (s ∷ syms) =
    let rest = structural-LiesIn kinds n syms in ground (arith, rest)

innermost-All :
    (P : CodeSymbol → Type 0) (all syms : List CodeSymbol) → All P syms → All P (innermost all syms)
unfolding innermost
innermost-All P all [] h = tt
innermost-All P all (s ∷ syms) h = elim (Bool-cases (contains s all)) [
  | inl t ↦ rw t (innermost-All P all syms h.1)
  | inr f ↦ rw f (h.0, innermost-All P all syms h.1)
]

anchors-LiesIn :
    (syms : List CodeSymbol) (n : ℕ) (kinds : Text → Bool)
    → All (LiesIn n) (anchor_symbols syms n kinds)
unfolding anchor_symbols
anchors-LiesIn syms n kinds =
    let all = structural kinds n syms in
    elim (Bool-cases (in_order (innermost all all))) [
      | inl t ↦ rw t (innermost-All (LiesIn n) all all (structural-LiesIn kinds n syms))
      | inr f ↦ rw f tt
    ]

anchors_in_order :
    (syms : List CodeSymbol) (n : ℕ) (kinds : Text → Bool)
    → in_order (anchor_symbols syms n kinds) ≡ true
unfolding anchor_symbols in_order
anchors_in_order syms n kinds =
    let all = structural kinds n syms in
    elim (Bool-cases (in_order (innermost all all))) [ inl t ↦ rw t t | inr f ↦ rw f refl ]

-- A region that an anchor owns holds the anchor's line.
abbrev pub HoldsLine : Region → Type 0
HoldsLine r = (r.start ≤ r.sym.line) × (r.sym.line ≤ r.end)

-- A region is owned by no symbol, or it holds its owner's line.
abbrev pub OwnedOrFree : Region → Type 0
OwnedOrFree r = (r.sym ≡ no_symbol) ⊎ HoldsLine r

module _ (lines : List Text) where
  -- What is proved of the regions together, by one induction over the anchors.
  record Laid (from : ℕ) (anchors : List CodeSymbol) (rs : List Region) : Type 0 where
    parts : IsPartition (length lines) from rs
    owners : map (λ (r : Region). r.sym) rs ≡ anchors
    hold : All HoldsLine rs

  anchor_regions-Laid :
      (start : ℕ) (a : CodeSymbol) (anchors : List CodeSymbol)
      → start ≤ a.line
      → All (LiesIn (length lines)) (a ∷ anchors)
      → in_order (a ∷ anchors) ≡ true
      → Laid start (a ∷ anchors) (anchor_regions lines start a anchors)
  unfolding anchor_regions in_order
  anchor_regions-Laid start a [] h l o =
      rw (le→ltb_false (length lines) start (omega arith)) (record {
        parts = next (omega arith) refl (done refl);
        owners = refl;
        hold = ((h, l.0.1), tt);
      })
  anchor_regions-Laid start a (b ∷ anchors) h l o =
      let later : a.line < b.line = ground arith in
      let rest_in_order : in_order (b ∷ anchors) ≡ true = ground arith in
      let after = doc_start lines b.line (a.line + 1) in
      let (low, high) = doc_start_bounds lines b.line (a.line + 1) (omega arith) in
      let rest = anchor_regions-Laid after b anchors high l.1 rest_in_order in
      rw (le→ltb_false (after - 1) start (omega arith)) (record {
        parts = next (omega arith) (omega arith) rest.parts;
        owners = ap (λ t. a ∷ t) rest.owners;
        hold = ((h, omega arith), rest.hold);
      })

  regions_of-parts :
      (anchors : List CodeSymbol)
      → 0 < length lines
      → All (LiesIn (length lines)) anchors
      → in_order anchors ≡ true
      → IsPartition (length lines) 1 (regions_of lines anchors)
  unfolding regions_of
  regions_of-parts [] n l o = next n refl (done refl)
  regions_of-parts (a ∷ anchors) n l o =
      let start = doc_start lines a.line 1 in
      let (low, high) = doc_start_bounds lines a.line 1 l.0.0 in
      let rest = anchor_regions-Laid start a anchors high l o in
      elim (Bool-cases (ltb 1 start)) [
        | inl t ↦ rw t (next (ground arith) (omega arith) rest.parts)
        | inr f ↦
            let e : start ≡ 1 = ground arith in
            rw f (
              subst (λ k. IsPartition (length lines) k (anchor_regions lines start a anchors)) e
                rest.parts)
      ]

  All-owned : (rs : List Region) → All HoldsLine rs → All OwnedOrFree rs
  All-owned [] h = tt
  All-owned (r ∷ rs) h = (inr h.0, All-owned rs h.1)

  regions_of-owners :
      (anchors : List CodeSymbol)
      → All (LiesIn (length lines)) anchors
      → in_order anchors ≡ true
      → ((map (λ (r : Region). r.sym) (regions_of lines anchors) ≡ anchors)
          ⊎ (map (λ (r : Region). r.sym) (regions_of lines anchors) ≡ no_symbol ∷ anchors))
        × All OwnedOrFree (regions_of lines anchors)
  unfolding regions_of
  regions_of-owners [] l o = (inr refl, (inl refl, tt))
  regions_of-owners (a ∷ anchors) l o =
      let start = doc_start lines a.line 1 in
      let rest =
        anchor_regions-Laid start a anchors (doc_start_bounds lines a.line 1 l.0.0).1 l o in
      elim (Bool-cases (ltb 1 start)) [
        | inl t ↦
            rw t (inr (ap (λ t. no_symbol ∷ t) rest.owners), (inl refl, All-owned _ rest.hold))
        | inr f ↦ rw f (inl rest.owners, All-owned _ rest.hold)
      ]

module _ (lines : List Text) (syms : List CodeSymbol) (kinds : Text → Bool) where
  -- The regions of a file of one line or more partition its lines: the first begins at line 1, each
  -- later one begins on the line after the one before it ends, the last ends at the last line, and
  -- none is empty.
  pub symbol_regions-IsPartition :
      0 < length lines → IsPartition (length lines) 1 (symbol_regions lines syms kinds)
  unfolding symbol_regions
  symbol_regions-IsPartition h =
      regions_of-parts lines (anchor_symbols syms (length lines) kinds) h
        (anchors-LiesIn syms (length lines) kinds) (anchors_in_order syms (length lines) kinds)

  -- The regions belong to the anchors, one each and in their order, after at most one leading region
  -- that no symbol owns; a region that a symbol owns holds that symbol's line.
  pub symbol_regions-owners :
      ((map (λ (r : Region). r.sym) (symbol_regions lines syms kinds)
          ≡ anchor_symbols syms (length lines) kinds)
        ⊎ (map (λ (r : Region). r.sym) (symbol_regions lines syms kinds)
            ≡ no_symbol ∷ anchor_symbols syms (length lines) kinds))
      × All OwnedOrFree (symbol_regions lines syms kinds)
  unfolding symbol_regions
  symbol_regions-owners =
      regions_of-owners lines (anchor_symbols syms (length lines) kinds)
        (anchors-LiesIn syms (length lines) kinds) (anchors_in_order syms (length lines) kinds)
