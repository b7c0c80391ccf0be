-- ===== src/Template/Spelling.antt =====
-- Tokens that are written out as a text are the tokens that `tokensFor` finds in it.
use mathlib.Core.List.{append_assoc, append-nil}
use postbag.Common.{
  ℕ, zero, suc, ◌+◌, ◌-◌, ◌≤◌, ◌<◌, ◌≡◌, refl, ap, sym, ◌∙◌, Bool, true, false, none, some, List,
  [], ◌∷◌, ◌++◌, ◌≢◌, ◌==◌, Text, codes, arith, length, length-append, trim, trim_start, trim_end,
}
use postbag.Template.Tokens.{
  Token, text, tag, cut, double_tag, tag_at, flush, tokens_from, tokens_for,
}
use postbag.Template.Escaping.{has_unit}

-- A tag with what follows it.
abbrev pub tag_text : Text → Bool → Text → Text
tag_text value false rest = b'{' ∷ b'{' ∷ (value ++ (b'}' ∷ b'}' ∷ rest))
tag_text value true rest = b'{' ∷ b'{' ∷ b'{' ∷ (value ++ (b'}' ∷ b'}' ∷ b'}' ∷ rest))

abbrev pub spell : List Token → Text
spell [] = []
spell (text value ∷ tokens) = value ++ spell tokens
spell (tag value raw ∷ tokens) = tag_text value raw (spell tokens)

abbrev pub IsTrimmed : Text → Type 0
IsTrimmed s = (trim_start s ≡ s) × (trim_end s ≡ s)

-- The value of a tag: no braces, no white space at its ends.
abbrev pub IsTagValue : Text → Type 0
IsTagValue s = (has_unit b'{' s ≡ false) × (has_unit b'}' s ≡ false) × IsTrimmed s

-- Tokens as `tokensFor` gives them: no text is empty, has a brace that opens, or follows a text.
abbrev pub Spelled : Bool → List Token → Type 0
Spelled after_text [] = Unit
Spelled after_text (text value ∷ tokens) =
    (after_text ≡ false) × (value ≢ []) × (has_unit b'{' value ≡ false) × Spelled true tokens
Spelled after_text (tag value raw ∷ tokens) = IsTagValue value × Spelled false tokens

cut-two :
    (value rest : Text)
    → has_unit b'}' value ≡ false
    → cut (codes "}}") (value ++ (b'}' ∷ b'}' ∷ rest)) ≡ some (value, rest)
unfolding cut
cut-two [] rest h = refl
cut-two (c ∷ value) rest h =
    let f : (c == b'}') ≡ false = ground arith in rw (f, cut-two value rest (ground arith)) refl

cut-three :
    (value rest : Text)
    → has_unit b'}' value ≡ false
    → cut (codes "}}}") (value ++ (b'}' ∷ b'}' ∷ b'}' ∷ rest)) ≡ some (value, rest)
unfolding cut
cut-three [] rest h = refl
cut-three (c ∷ value) rest h =
    let f : (c == b'}') ≡ false = ground arith in rw (f, cut-three value rest (ground arith)) refl

pub trim-IsTrimmed : (s : Text) → IsTrimmed s → trim s ≡ s
trim-IsTrimmed s h = ap trim_end h.0 ∙ h.1

tag_at-tag_text :
    (value : Text) (raw : Bool) (rest : Text)
    → IsTagValue value
    → tag_at (tag_text value raw rest) ≡ some (tag value raw, rest)
unfolding tag_at double_tag
tag_at-tag_text [] false rest h = refl
tag_at-tag_text (c ∷ value) false rest h =
    let f : (c == b'{') ≡ false = ground arith in
    rw (f, cut-two (c ∷ value) rest h.1)
      (ap (λ v. some (tag v false, rest)) (trim-IsTrimmed (c ∷ value) h.2))
tag_at-tag_text value true rest h =
    rw (cut-three value rest h.1) (ap (λ v. some (tag v true, rest)) (trim-IsTrimmed value h.2))

tag_at-other : (c : ℕ) (s : Text) → (c == b'{') ≡ false → tag_at (c ∷ s) ≡ none
unfolding tag_at double_tag
tag_at-other c s h = rw h refl

-- The loop over a text without braces that open.
tokens_from-text :
    (value before rest : Text) (fuel : ℕ)
    → has_unit b'{' value ≡ false
    → tokens_from (length value + fuel) before (value ++ rest)
      ≡ tokens_from fuel (before ++ value) rest
unfolding tokens_from
tokens_from-text [] before rest fuel h =
    rw (append-nil before) (ap (λ n. tokens_from n before rest) (omega arith))
tokens_from-text (c ∷ value) before rest fuel h =
    let f : (c == b'{') ≡ false = ground arith in
    let one : tokens_from (suc (length value + fuel)) before (c ∷ (value ++ rest))
        ≡ tokens_from (length value + fuel) (before ++ (c ∷ [])) (value ++ rest) =
      rw (tokens_from, tag_at-other c (value ++ rest) f) refl in
    let e : suc (length value) + fuel ≡ suc (length value + fuel) = omega arith in
    ap (λ n. tokens_from n before (c ∷ (value ++ rest))) e
    ∙ one
    ∙ tokens_from-text value (before ++ (c ∷ [])) rest fuel (ground arith)
    ∙ ap (λ b. tokens_from fuel b rest) (append_assoc before (c ∷ []) value)

flush_nonempty : (v : Text) → v ≢ [] → flush v ≡ text v ∷ []
flush_nonempty [] h = absurd (h refl)
flush_nonempty (c ∷ v) h = refl

length-tag_text :
    (value : Text) (raw : Bool) (rest : Text) → length rest < length (tag_text value raw rest)
length-tag_text value false rest = rw length-append (omega arith)
length-tag_text value true rest = rw length-append (omega arith)

tokens_from-tag :
    (fuel : ℕ) (before value : Text) (raw : Bool) (rest : Text)
    → IsTagValue value
    → tokens_from (suc fuel) before (tag_text value raw rest)
      ≡ flush before ++ (tag value raw ∷ tokens_from fuel [] rest)
unfolding tokens_from
tokens_from-tag fuel before value false rest h =
    rw (tokens_from, tag_at-tag_text value false rest h) refl
tokens_from-tag fuel before value true rest h =
    rw (tokens_from, tag_at-tag_text value true rest h) refl

tokens_from-spell :
    (tokens : List Token) (after_text : Bool) (fuel : ℕ) (before : Text)
    → Spelled after_text tokens
    → (after_text ≡ false → before ≡ [])
    → length (spell tokens) ≤ fuel
    → tokens_from fuel before (spell tokens) ≡ flush before ++ tokens
unfolding tokens_from
tokens_from-spell [] after zero before h k l = sym (append-nil (flush before))
tokens_from-spell [] after (suc fuel) before h k l = sym (append-nil (flush before))
tokens_from-spell (text value ∷ tokens) after fuel before h k l =
    let m : length (value ++ spell tokens) ≡ length value + length (spell tokens) =
      length-append value (spell tokens) in
    rw (k h.0) (
      ap (λ n. tokens_from n [] (value ++ spell tokens)) (omega (arith, l, m))
      ∙ tokens_from-text value [] (spell tokens) (fuel - length value) h.2
      ∙ tokens_from-spell tokens true (fuel - length value) value h.3 (λ e. cc)
          (omega (arith, l, m))
      ∙ ap (λ f. f ++ tokens) (flush_nonempty value h.1))
tokens_from-spell (tag value raw ∷ tokens) after zero before h k l =
    absurd (omega (arith, l, length-tag_text value raw (spell tokens)))
tokens_from-spell (tag value raw ∷ tokens) after (suc fuel) before h k l =
    tokens_from-tag fuel before value raw (spell tokens) h.0
    ∙ ap (λ r. flush before ++ (tag value raw ∷ r))
        (tokens_from-spell tokens false fuel [] h.1 (λ e. refl)
          (omega (arith, l, length-tag_text value raw (spell tokens))))

-- Tokens that are written out as a template are what `tokensFor` finds in it, where no text is empty,
-- holds `{` or stands behind a text, and no tag's value holds a brace or white space at its ends.
pub tokens_for-spell :
    (tokens : List Token) → Spelled false tokens → tokens_for (spell tokens) ≡ tokens
unfolding tokens_for
tokens_for-spell tokens h =
    tokens_from-spell tokens false (length (spell tokens)) [] h (λ e. refl) (omega arith)
