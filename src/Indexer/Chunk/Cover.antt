-- ===== src/Indexer/Chunk/Cover.antt =====
-- What `windows` of chunk.go promises: no line is lost, every window moves on, and a window is
-- over the budget only if it is a single line.
use rongo.Prelude.{
  ℕ, zero, suc, ◌+◌, ◌-◌, ◌≤◌, ◌<◌, ◌≡◌, refl, ◌⊎◌, inl, inr, List, [], ◌∷◌, Text, arith, leb, ltb,
  leb→le, le→leb, leb_false→lt, le→ltb_false, Bool-cases, All,
}
use rongo.Indexer.Chunk.Windows.{
  ChunkOptions, Span, line_tokens, fill, step_back, next_start, window_end, windows_from, windows,
}

-- The tokens of `n` lines from line `start`.
pub total : List Text → ℕ → ℕ → ℕ
total lines start zero = 0
total lines start (suc n) = total lines start n + line_tokens lines (start + n)

module _ (lines : List Text) (opts : ChunkOptions) where
  fill_bounds :
      (rounds to start end tokens : ℕ)
      → end + rounds ≡ to + 1
      → (end ≤ fill rounds lines opts to start end tokens)
        × (fill rounds lines opts to start end tokens ≤ to + 1)
  unfolding fill
  fill_bounds zero to start end tokens e = omega arith
  fill_bounds (suc rounds) to start end tokens e =
      ground (arith, fill_bounds rounds to start (end + 1) (tokens + line_tokens lines end))

  fill_moves :
      (rounds to start tokens : ℕ)
      → start + suc rounds ≡ to + 1
      → start < fill (suc rounds) lines opts to start start tokens
  unfolding fill
  fill_moves rounds to start tokens e =
      ground (arith, fill_bounds rounds to start (start + 1) (tokens + line_tokens lines start))

  total-suc :
      (start end : ℕ)
      → start ≤ end
      → total lines start (end + 1 - start)
        ≡ total lines start (end - start) + line_tokens lines end
  unfolding total
  total-suc start end h =
      let n = end - start in
      let e : end + 1 - start ≡ suc n = omega arith in
      let f : start + n ≡ end = omega arith in rw (e, f) refl

  total_self : (start : ℕ) → total lines start (start - start) ≡ 0
  unfolding total
  total_self start = let e : start - start ≡ 0 = omega arith in rw e refl

  -- Greedy within the budget: what was taken fits, unless it is one line, and one line more would
  -- not have fitted.
  fill_budget :
      (rounds to start end tokens : ℕ)
      → end + rounds ≡ to + 1
      → start ≤ end
      → tokens ≡ total lines start (end - start)
      → (end ≤ start + 1) ⊎ (tokens ≤ opts.target_tokens)
      → let e = fill rounds lines opts to start end tokens in
        ((e ≤ start + 1) ⊎ (total lines start (e - start) ≤ opts.target_tokens))
        × ((e ≡ to + 1) ⊎ (opts.target_tokens < total lines start (e + 1 - start)))
  unfolding fill
  fill_budget zero to start end tokens e h t b = ground arith
  fill_budget (suc rounds) to start end tokens e h t b = ground (
    arith,
    total-suc start end h,
    fill_budget rounds to start (end + 1) (tokens + line_tokens lines end),
  )

  step_back_bounds :
      (start back ov : ℕ)
      → start ≤ back
      → (start ≤ step_back lines opts start back ov) × (step_back lines opts start back ov ≤ back)
  unfolding step_back
  step_back_bounds start zero ov h = omega arith
  step_back_bounds start (suc back) ov h =
      ground (arith, step_back_bounds start back (ov + line_tokens lines (suc back)))

  next_start_bounds :
      (start end : ℕ)
      → start ≤ end
      → (start < next_start lines opts start end) × (next_start lines opts start end ≤ end + 1)
  unfolding next_start
  next_start_bounds start end h = ground (arith, step_back_bounds start end 0)

  window_end_bounds :
      (start to : ℕ)
      → start ≤ to
      → (start ≤ window_end lines opts start to) × (window_end lines opts start to ≤ to)
  unfolding window_end
  window_end_bounds start to h =
      let e : to + 1 - start ≡ suc (to - start) = omega arith in
      rw e (
        omega (
          arith,
          fill_moves (to - start) to start 0 (omega arith),
          fill_bounds (suc (to - start)) to start start 0 (omega arith),
        ))

-- The windows of `from .. to`: each begins at or before the line after its predecessor's last, and
-- after its predecessor's first, and the last one ends at `to`.
pub data IsCover (to : ℕ) : ℕ → List Span → Type 0 where
  last :
      {from end : ℕ}
      → from ≤ end
      → end ≡ to
      → IsCover to from (record { start = from; end = end } ∷ [])
  more :
      {from end next : ℕ} {ws : List Span}
      → from ≤ end
      → end < to
      → from < next
      → next ≤ end + 1
      → IsCover to next ws
      → IsCover to from (record { start = from; end = end } ∷ ws)

module _ (lines : List Text) (opts : ChunkOptions) where
  windows_from-IsCover :
      (rounds start to : ℕ)
      → start ≤ to
      → to < start + rounds
      → IsCover to start (windows_from rounds lines opts start to)
  unfolding windows_from
  windows_from-IsCover zero start to h r = absurd (omega arith)
  windows_from-IsCover (suc rounds) start to h r =
      let end = window_end lines opts start to in
      let (low, high) = window_end_bounds lines opts start to h in
      let (moves, joins) = next_start_bounds lines opts start end low in
      rw (le→leb start to h) (elim (Bool-cases (leb to end)) [
        | inl t ↦ rw t (last low (ground arith))
        | inr f ↦
            let before : end < to = leb_false→lt to end f in
            rw f (
              more low before moves joins (
                windows_from-IsCover rounds (next_start lines opts start end) to (omega arith)
                  (omega arith)))
      ])

  -- For a range of lines `from .. to` that is not empty, the windows cover it: the first begins at
  -- `from`, the last ends at `to`, each later one begins strictly after its predecessor began and
  -- leaves no line between the two, and no window is empty.
  pub windows-IsCover : (from to : ℕ) → from ≤ to → IsCover to from (windows lines from to opts)
  unfolding windows
  windows-IsCover from to h =
      rw (le→ltb_false to from h) (windows_from-IsCover (to + 1 - from) from to h (omega arith))

  -- Why a window ends where it does.
  abbrev pub FitsBudget : ℕ → Span → Type 0
  FitsBudget to w =
      ((w.end ≤ w.start) ⊎ (total lines w.start (w.end + 1 - w.start) ≤ opts.target_tokens))
      × ((w.end ≡ to) ⊎ (opts.target_tokens < total lines w.start (w.end + 2 - w.start)))

  FitsBudget-past :
      (start to e : ℕ)
      → start < e
      → (e ≤ start + 1) ⊎ (total lines start (e - start) ≤ opts.target_tokens)
      → (e ≡ to + 1) ⊎ (opts.target_tokens < total lines start (e + 1 - start))
      → FitsBudget to (record { start = start; end = e - 1 })
  FitsBudget-past start to e h small full =
      let p : e - 1 + 1 ≡ e = omega arith in
      let q : e - 1 + 2 ≡ e + 1 = omega arith in rw (p, q) (ground arith, ground arith)

  window_end-FitsBudget :
      (start to : ℕ)
      → start ≤ to
      → FitsBudget to (record { start = start; end = window_end lines opts start to })
  unfolding window_end
  window_end-FitsBudget start to h =
      let rounds : ℕ = to + 1 - start in
      let e = fill rounds lines opts to start start 0 in
      let fits =
        fill_budget lines opts rounds to start start 0 (omega arith) (omega arith)
          (omega (arith, total_self lines opts start)) (inl (omega arith)) in
      FitsBudget-past start to e
        (let r : rounds ≡ suc (to - start) = omega arith in
          rw r (fill_moves lines opts (to - start) to start 0 (omega arith)))
        fits.0 fits.1

  windows_from-fit :
      (rounds start to : ℕ) → All (FitsBudget to) (windows_from rounds lines opts start to)
  unfolding windows_from
  windows_from-fit zero start to = tt
  windows_from-fit (suc rounds) start to = elim (Bool-cases (leb start to)) [
    | inr f ↦ rw f tt
    | inl t ↦
        let end = window_end lines opts start to in
        let fits = window_end-FitsBudget start to (leb→le start to t) in
        rw t (elim (Bool-cases (leb to end)) [
          | inl stop ↦ rw stop (fits, tt)
          | inr go ↦ rw go (fits, windows_from-fit rounds (next_start lines opts start end) to)
        ])
  ]

  -- Every window is a single line or is within the target, and it stops only at the last line of
  -- the range or where the next line would have taken it over the target.
  pub windows-FitsBudget : (from to : ℕ) → All (FitsBudget to) (windows lines from to opts)
  unfolding windows
  windows-FitsBudget from to = elim (Bool-cases (ltb to from)) [
    | inl t ↦ rw t tt
    | inr f ↦ rw f (windows_from-fit (to + 1 - from) from to)
  ]
