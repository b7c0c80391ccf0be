-- ===== src/Template/Tokens.antt =====
-- `tokensFor` of packages/core/src/template.ts: a template is cut at `{{{…}}}` and `{{…}}`.
use postbag.Common.{
  ℕ, zero, suc, Bool, true, false, Option, none, some, List, [], ◌∷◌, ◌++◌, Text, codes,
  if◌then◌else◌, starts_with, drop, length, trim,
}

pub data Token : Type 0 where
  text : (value : Text) → Token
  tag : (value : Text) (raw : Bool) → Token

-- What stands before the first `close`, and what stands behind it.
unfoldable pub cut : Text → Text → Option (Text × Text)
cut close [] = none
cut close (c ∷ s) =
    if starts_with close (c ∷ s)
    then some ([], drop (length close) (c ∷ s))
    else elim (cut close s) [ none ↦ none | some (inside, rest) ↦ some (c ∷ inside, rest) ]

-- `\{\{([\s\S]*?)\}\}` at this place
unfoldable pub double_tag : Text → Option (Token × Text)
unfolding cut
double_tag s =
    if starts_with (codes "{{") s
    then elim (cut (codes "}}") (drop 2 s)) [
      | none ↦ none
      | some (inside, rest) ↦ some (tag (trim inside) false, rest)
    ]
    else none

-- The pattern at this place: `{{{…}}}` is tried first.
unfoldable pub tag_at : Text → Option (Token × Text)
unfolding double_tag
tag_at s =
    if starts_with (codes "{{{") s
    then elim (cut (codes "}}}") (drop 3 s)) [
      | none ↦ double_tag s
      | some (inside, rest) ↦ some (tag (trim inside) true, rest)
    ]
    else double_tag s

-- `if (index > cursor) tokens.push(…)`
abbrev pub flush : Text → List Token
flush [] = []
flush (c ∷ s) = text (c ∷ s) ∷ []

-- The matches of `matchAll`, with `before` the text since the last one. A round takes a code unit
-- at least off the rest, so that the length of the rest is fuel enough.
unfoldable pub tokens_from : ℕ → Text → Text → List Token
unfolding tag_at
tokens_from fuel before [] = flush before
tokens_from zero before (c ∷ s) = flush (before ++ (c ∷ s))
tokens_from (suc fuel) before (c ∷ s) = elim (tag_at (c ∷ s)) [
  | none ↦ tokens_from fuel (before ++ (c ∷ [])) s
  | some (t, rest) ↦ flush before ++ (t ∷ tokens_from fuel [] rest)
]

unfoldable pub tokens_for : Text → List Token
unfolding tokens_from
tokens_for template = tokens_from (length template) [] template
