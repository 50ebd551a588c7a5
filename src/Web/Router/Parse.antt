-- ===== src/Web/Router/Parse.antt =====
-- sonnet-web/router.go: what `parsePattern` returns.
use sonnet_pro.Prelude.{
  ℕ, List, [], ◌∷◌, ◌++◌, ◌≢◌, arith, Text, split, split_from, All, Lacks, Lacks-append,
}
use sonnet_pro.Web.Trie.{is_star}
use sonnet_pro.Web.Trie.Shape.{HasLastStar}
use sonnet_pro.Web.Router.{parse_items, parse_pattern}

parse_items-HasLastStar : (items : List Text) → HasLastStar (parse_items items)
unfolding parse_items is_star
parse_items-HasLastStar [] = tt
parse_items-HasLastStar ([] ∷ items) = parse_items-HasLastStar items
parse_items-HasLastStar ((c ∷ item) ∷ items) = ground (arith, parse_items-HasLastStar items)

-- A part that starts with "*" is the last one.
pub parse_pattern-HasLastStar : (pattern : Text) → HasLastStar (parse_pattern pattern)
unfolding parse_pattern
parse_pattern-HasLastStar pattern = parse_items-HasLastStar (split pattern b'/')

-- A part is a non-empty text with no slash.
abbrev pub IsPart : Text → Type 0
IsPart part = (part ≢ []) × Lacks b'/' part

split_from-Lacks : (sep : ℕ) (cur s : Text) → Lacks sep cur → All (Lacks sep) (split_from sep cur s)
unfolding split_from
split_from-Lacks sep cur [] h = (h, tt)
split_from-Lacks sep cur (x ∷ s) h = ground (
  arith,
  split_from-Lacks sep [] s tt,
  split_from-Lacks sep (cur ++ x ∷ []) s,
  Lacks-append sep cur (x ∷ []) h,
)

parse_items-IsPart : (items : List Text) → All (Lacks b'/') items → All IsPart (parse_items items)
unfolding parse_items
parse_items-IsPart [] h = tt
parse_items-IsPart ([] ∷ items) h = parse_items-IsPart items h.1
parse_items-IsPart ((c ∷ item) ∷ items) h = ground (arith, parse_items-IsPart items h.1)

-- Every part of a pattern or of a path is a non-empty text with no slash.
pub parse_pattern-IsPart : (pattern : Text) → All IsPart (parse_pattern pattern)
unfolding parse_pattern split
parse_pattern-IsPart pattern =
    parse_items-IsPart (split_from b'/' [] pattern) (split_from-Lacks b'/' [] pattern tt)
