-- ===== src/Ask/Gather/Tests.antt =====
-- backend/internal/ask/gather.go on a corpus of two files: a hit, the chunk that its code mentions, and
-- a landing in another repository on a shared route.
use rongo.Prelude.{
  ℕ, ◌+◌, ◌≡◌, refl, false, Option, none, some, List, [], ◌∷◌, map, Text, codes, text_eq, leb, ◌&&◌,
  ◌||◌, if◌then◌else◌,
}
use rongo.Prelude.Fallible.{Outcome}
use rongo.Prelude.{text_lt}
use rongo.Retrieve.Hits.{Hit}
use rongo.Ask.Gather.Admit.{Source, admit, admit_all, admit_refs}
use rongo.Ask.Gather.Walk.{
  Runes, Reads, Gatherer, new_gatherer, words, identifiers, edge_via, crossings, referenced,
  landings, is_property_edge, mechanism_first, within, cross_reason,
}
use rongo.Ask.Gather.Answers.{Failed}
use rongo.Ask.Gather.Grows.{Gathers, gather_seeded-Gathers}
use rongo.Ask.Gather.Given.{given, crossing_budget}
use rongo.Ask.Gather.{
  gather_seeded, symbol_hops, hop_refs, cross, cross_all, land_all, land, land_later,
}

abbrev ascii : Runes
ascii = record {
  is_letter = λ c. (leb b'a' c && leb c b'z') || (leb b'A' c && leb c b'Z');
  is_digit = λ c. leb b'0' c && leb c b'9';
  is_upper = λ c. leb b'A' c && leb c b'Z';
  is_lower = λ c. leb b'a' c && leb c b'z';
  to_lower = λ c. if leb b'A' c && leb c b'Z' then c + 32 else c;
}

words_split : words ascii (codes "sendDigest a.Now") ≡ map codes ("send" ∷ "digest" ∷ "now" ∷ [])
unfolding words
words_split = refl

names_sorted : identifiers ascii (codes "run(run, a_b) x") ≡ map codes ("a_b" ∷ "run" ∷ [])
unfolding identifiers text_lt
names_sorted = refl

via_route :
    edge_via (codes "edge:route /orders from shop/a.go")
    ≡ some (codes "route", codes "/orders", codes "shop/a.go")
unfolding edge_via
via_route = refl

abbrev source : ℕ → Text → Text → Text → Source
source id repo path text = record {
  chunk_id = id;
  repo = repo;
  branch = codes "main";
  path = path;
  symbol = [];
  start_line = 1;
  end_line = 2;
  sha = [];
  text = text;
  reason = [];
  hop = 0;
  kind = [];
  commit_id = 0;
  subject = [];
  committed_at = 0;
  paths = [];
}

abbrev service : Source
service = source 2 (codes "shop") (codes "service.go") (codes "x")

abbrev landing : Source
landing = source 3 (codes "bank") (codes "pay.go") (codes "y")

abbrev corpus : Reads
corpus = record {
  chunks_of = λ repo path. some [];
  definers = λ names home repo path. some (service ∷ []);
  neighbours = λ suffix repo path.
      if text_eq path (codes "service.go")
      then some (
          record {
            repo = codes "bank";
            path = codes "pay.go";
            kind = codes "route";
            value = codes "/pay";
            line = 1;
          }
          ∷ [])
      else some [];
  chunk_at = λ repo path line. some (some landing);
}

abbrev gatherer : Gatherer
gatherer =
    record (new_gatherer (record {
      max_hops = 1;
      token_budget = 24;
      no_crossings = false;
      route_suffix = false;
      whole_file_tokens = 0;
    })) { ceiling = codes "shop" ∷ codes "bank" ∷ [] }

abbrev handler : Hit ℕ
handler = record {
  chunk_id = 1;
  repo = codes "shop";
  branch = codes "main";
  path = codes "handler.go";
  symbol = [];
  raw_text = codes "service.run";
  start_line = 1;
  end_line = 2;
  ordinal = 0;
  sha = [];
  distance = 0;
  score = 0;
  lanes = [];
}

gather_seeded-Gathers_example :
    Outcome
      (Failed corpus)
      (Gathers gatherer (handler ∷ []) [])
      (gather_seeded corpus ascii gatherer (handler ∷ []) [] [])
gather_seeded-Gathers_example = gather_seeded-Gathers corpus ascii gatherer (handler ∷ []) [] []

abbrev ids : Option (List Source) → List ℕ
ids none = []
ids (some ss) = map (λ (s : Source). s.chunk_id) ss

three_gathered : ids (gather_seeded corpus ascii gatherer (handler ∷ []) [] []) ≡ 1 ∷ 2 ∷ 3 ∷ []
unfolding gather_seeded given symbol_hops hop_refs admit_refs admit cross cross_all land_all land
    crossings referenced new_gatherer identifiers text_lt mechanism_first landings within
    cross_reason is_property_edge crossing_budget admit_all land_later
three_gathered = refl
