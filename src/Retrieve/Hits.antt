-- ===== src/Retrieve/Hits.antt =====
-- backend/internal/retrieve: a hit of a search, and the floating-point operations that ranking uses.
-- The arithmetic is not looked into: a theorem that needs a law of it has the law as a hypothesis.
use rongo.Prelude.{ℕ, Bool, List, Text, text_eq, text_lt, ltb, ◌==◌, if◌then◌else◌}

-- float64. `lt` and `le` are Go's `<` and `<=`, false on NaN.
pub record Floats (F : Type 0) : Type 0 where
  pub zero : F
  pub one : F
  pub of_nat : ℕ → F
  pub add : F → F → F
  pub times : F → F → F
  pub over : F → F → F
  pub power : F → F → F
  pub log1p : F → F
  pub lt : F → F → Bool
  pub le : F → F → Bool
  pub eq : F → F → Bool

pub record Hit (F : Type 0) : Type 0 where
  pub chunk_id : ℕ
  pub repo : Text
  pub branch : Text
  pub path : Text
  pub symbol : Text
  pub raw_text : Text
  pub start_line : ℕ
  pub end_line : ℕ
  pub ordinal : ℕ
  pub sha : Text
  pub distance : F
  pub score : F
  pub lanes : List Text

-- `lessByAddress`
unfoldable pub less_by_address : {F : Type 0} → Hit F → Hit F → Bool
less_by_address a b =
    if text_eq a.repo b.repo
    then if text_eq a.path b.path
      then if a.start_line == b.start_line
        then if a.ordinal == b.ordinal then ltb a.chunk_id b.chunk_id else ltb a.ordinal b.ordinal
        else ltb a.start_line b.start_line
      else text_lt a.path b.path
    else text_lt a.repo b.repo
