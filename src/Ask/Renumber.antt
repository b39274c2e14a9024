-- ===== src/Ask/Renumber.antt =====
-- backend/internal/ask/renumber.go: the renumberer, between the model and the reader. A text is the
-- list of its runes, so no token ends inside one.
pub mod Progress
pub mod Chains
pub mod Grown
pub mod Extend
pub mod Fenced
pub mod Follow
pub mod Stream
pub mod Whole
pub mod Ends
mod Tests
use rongo.Prelude.{
  ℕ, zero, suc, ◌+◌, ◌-◌, Bool, true, false, not, ◌&&◌, ◌||◌, Option, none, some, List, [], ◌∷◌,
  ◌++◌, Text, length, take, drop, ltb, ◌==◌, if◌then◌else◌, codes, has_prefix, is_space,
}
use rongo.Ask.Markers.{open_bracket, chain_at_start, chain_more, marker_prefix, Numbering, all_of}
use rongo.Ask.Rewriting.{rewrite_chain}

abbrev pub tick : ℕ
tick = 96

abbrev pub fence : Text
fence = tick ∷ tick ∷ tick ∷ []

-- `trailingBackticks`
unfoldable pub trailing_backticks : Text → ℕ → ℕ
trailing_backticks [] max = 0
trailing_backticks (c ∷ s) max =
    let n = trailing_backticks s max in if c == tick && n == length s && ltb n max then suc n else n

-- `trailingWord`, in runes.
unfoldable pub trailing_word : Text → ℕ
trailing_word [] = 0
trailing_word (c ∷ s) =
    let n = trailing_word s in if not (is_space c) && n == length s then suc n else n

abbrev pub cons_first : ℕ → Option (Text × Text) → Option (Text × Text)
cons_first c none = none
cons_first c (some (before, after)) = some (c ∷ before, after)

-- What is before the first fence, and what is behind it.
unfoldable pub find_fence : Text → Option (Text × Text)
find_fence [] = none
find_fence (c ∷ s) =
    let later = find_fence s in
    if has_prefix (c ∷ s) fence then some ([], drop 3 (c ∷ s)) else cons_first c later

-- The prose before the first backtick or bracket, and the rest from it on.
unfoldable pub split_prose : Text → Text × Text
split_prose [] = ([], [])
split_prose (c ∷ s) =
    let (before, after) = split_prose s in
    if c == tick || c == open_bracket then ([], c ∷ s) else (c ∷ before, after)

-- A line and, if it ends, what is behind its newline.
unfoldable pub split_line : Text → Text × Option Text
split_line [] = ([], none)
split_line (c ∷ s) =
    let (line, after) = split_line s in if c == 10 then ([], some s) else (c ∷ line, after)

-- What is before the first backtick or newline, whether it is a backtick, and what is behind it.
unfoldable pub find_close : Text → Option (Text × Bool × Text)
find_close [] = none
find_close (c ∷ s) =
    let later = find_close s in
    if c == tick
    then some ([], true, s)
    else if c == 10
    then some ([], false, s)
    else elim later [ none ↦ none | some (span, ticked, after) ↦ some (c ∷ span, ticked, after) ]

-- One round of the loop of `decide`: some text is written and the loop goes on with the rest, or it
-- ends and the rest is held back.
pub data Turn : Type 0 where
  goes : (out rest : Text) → Numbering → Turn
  stops : (out rest : Text) → Turn

abbrev pub write_before : Text → Turn → Turn
write_before p (goes out rest r) = goes (p ++ out) rest r
write_before p (stops out rest) = stops (p ++ out) rest

-- `n` is how many sources the prompt numbered, `spell` is set for a German answer.
module _ (n : ℕ) (spell : Option (Text → Text)) where
  abbrev pub prose : Text → Text
  prose s = elim spell [ none ↦ s | some f ↦ f s ]

  unfoldable pub turn_in_fence : Bool → Numbering → Text → Turn
  unfolding find_fence trailing_backticks
  turn_in_fence at_end r s = elim (find_fence s) [
    | some (before, after) ↦ goes (before ++ fence) after (record r { in_fence = false })
    | none ↦
        if at_end
        then stops s []
        else (let cut = length s - trailing_backticks s 2 in stops (take cut s) (drop cut s))
  ]

  -- The rest of a text without a backtick or a bracket.
  unfoldable pub turn_last : Bool → Text → Turn
  unfolding trailing_word
  turn_last at_end s = elim spell [
    | none ↦ stops s []
    | some f ↦
        if at_end
        then stops (f s) []
        else (let cut = length s - trailing_word s in stops (f (take cut s)) (drop cut s))
  ]

  -- `s` begins with three backticks.
  unfoldable pub turn_header : Bool → Numbering → Text → Turn
  unfolding find_fence split_line
  turn_header at_end r s =
      let (line, after) = split_line s in
      let opened = record r { in_fence = true } in
      elim (find_fence (drop 3 line)) [
        | some _ ↦ goes fence (drop 3 s) opened
        | none ↦ elim after [
          | some later ↦ goes (line ++ 10 ∷ []) later opened
          | none ↦ if at_end then goes line [] opened else stops [] s
        ]
      ]

  -- `tick ∷ s`, an inline span or a backtick.
  unfoldable pub turn_span : Bool → Numbering → Text → Turn
  unfolding find_close
  turn_span at_end r s = elim (find_close s) [
    | some (span, true, after) ↦ goes (tick ∷ span ++ tick ∷ []) after r
    | some (span, false, after) ↦ goes (tick ∷ []) s r
    | none ↦ if at_end then goes (tick ∷ []) s r else stops [] (tick ∷ s)
  ]

  -- `open_bracket ∷ s`, a run of markers, the start of one, or a bracket.
  unfoldable pub turn_marker : Bool → Numbering → Text → Turn
  unfolding chain_at_start chain_more marker_prefix rewrite_chain
  turn_marker at_end r s =
      let all = open_bracket ∷ s in
      elim (chain_at_start all) [
        | some k ↦
            if not at_end && chain_more (drop k all)
            then stops [] all
            else (let (out, r') = rewrite_chain n (take k all) r in goes out (drop k all) r')
        | none ↦
            if not at_end && marker_prefix all then stops [] all else goes (open_bracket ∷ []) s r
      ]

  unfoldable pub is_ticks : Text → Bool
  unfolding all_of
  is_ticks s = all_of (λ c. c == tick) s

  -- The text from the first backtick or bracket on.
  unfoldable pub turn_special : Bool → Numbering → Text → Turn
  unfolding turn_header turn_span turn_marker is_ticks
  turn_special at_end r [] = turn_last at_end []
  turn_special at_end r (c ∷ s) =
      if c == tick
      then if not at_end && (ltb (length (c ∷ s)) 3 && is_ticks (c ∷ s))
        then stops [] (c ∷ s)
        else if has_prefix (c ∷ s) fence
        then turn_header at_end r (c ∷ s)
        else turn_span at_end r s
      else turn_marker at_end r s

  unfoldable pub turn : Bool → Numbering → Text → Turn
  unfolding turn_in_fence turn_last turn_special split_prose
  turn at_end r s =
      if r.in_fence
      then turn_in_fence at_end r s
      else (let (before, after) = split_prose s in
          elim after [
            | [] ↦ turn_last at_end before
            | c ∷ later ↦ write_before (prose before) (turn_special at_end r (c ∷ later))
          ])

  -- The loop of `decide`. A round that goes on has read a character at least, so as many rounds as
  -- there are characters are enough.
  unfoldable pub rounds : ℕ → Bool → Numbering → Text → Text × Text × Numbering
  unfolding turn
  rounds zero at_end r s = ([], s, r)
  rounds (suc fuel) at_end r [] = ([], [], r)
  rounds (suc fuel) at_end r (c ∷ s) = elim (turn at_end r (c ∷ s)) [
    | stops out rest ↦ (out, rest, r)
    | goes out rest r' ↦
        let (later, held, r'') = rounds fuel at_end r' rest in (out ++ later, held, r'')
  ]

  unfoldable pub decide : Bool → Numbering → Text → Text × Text × Numbering
  unfolding rounds
  decide at_end r s = rounds (length s) at_end r s

  -- `feed`: what is written, and the state with what is pending.
  unfoldable pub feed : Text → Numbering → Text → Text × Text × Numbering
  unfolding decide
  feed pending r token = decide false r (pending ++ token)

  unfoldable pub flush : Text → Numbering → Text × Text × Numbering
  unfolding decide
  flush pending r = let (out, rest, r') = decide true r pending in (out, [], r')

  -- A whole answer, token by token.
  unfoldable pub stream : Text → Numbering → List Text → Text × Numbering
  unfolding feed flush
  stream pending r [] = let (out, rest, r') = flush pending r in (out, r')
  stream pending r (token ∷ tokens) =
      let (out, pending', r') = feed pending r token in
      let (later, r'') = stream pending' r' tokens in (out ++ later, r'')
