-- ===== src/Ask/Renumber/Tests.antt =====
-- An answer over nine sources, in two tokenisations.
use rongo.Prelude.{◌≡◌, refl, true, none, List, [], ◌∷◌, Text, codes, arith}
use rongo.Ask.Markers.{new_numbering}
use rongo.Ask.Rewriting.Order.{IsNumbered}
use rongo.Ask.Renumber.{decide, stream}
use rongo.Ask.Renumber.Stream.{stream_of-joined}
use rongo.Ask.Renumber.Whole.{stream-IsNumbered}
use rongo.Ask.Renumber.Ends.{decide_whole}

abbrev pieces : List Text
pieces = codes "sent [" ∷ codes "7]" ∷ codes "[2], `a[1]`" ∷ codes " [7]" ∷ []

abbrev other_pieces : List Text
other_pieces = codes "se" ∷ codes "nt [7][2], `a[1]` [7]" ∷ []

-- The run is sorted after its numbers are given, and the code is left alone.
sent : (stream 9 none [] new_numbering pieces).0 ≡ codes "sent [1][2], `a[1]` [1]"
unfolding stream
sent = refl

stream_of-joined_example :
    stream 9 none [] new_numbering pieces ≡ stream 9 none [] new_numbering other_pieces
stream_of-joined_example = stream_of-joined 9 [] new_numbering pieces other_pieces refl

none_yet : IsNumbered 9 new_numbering
none_yet = record {
  cited = tt;
  placed = λ k d e. absurd cc;
  known = λ i h. absurd (omega (arith, h));
}

stream-IsNumbered_example : IsNumbered 9 (stream 9 none [] new_numbering pieces).1
stream-IsNumbered_example = stream-IsNumbered 9 none [] new_numbering pieces none_yet

decide_whole_example : (decide 9 none true new_numbering (codes "see [1")).1 ≡ []
decide_whole_example = decide_whole 9 none new_numbering (codes "see [1")
