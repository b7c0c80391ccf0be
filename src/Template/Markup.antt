-- ===== src/Template/Markup.antt =====
-- From the text of a template to what `renderTemplate` gives: where its markup comes from.
use postbag.Common.{
  ℕ, zero, suc, ◌≡◌, refl, inl, inr, Bool, true, false, ◌||◌, not, Option, none, some, List, [],
  ◌∷◌, ◌++◌, Text, codes, any-append, Bool-cases, arith, drop, starts_with, trim, length, all,
}
use postbag.Json.Values.{Value}
use postbag.Template.Tokens.{
  Token, text, tag, cut, double_tag, tag_at, flush, tokens_from, tokens_for,
}
use postbag.Template.Parse.{
  Block, Node, Nodes, plain, variable, block, Parsed, stuck, syntax_error, parsed, parse, push,
  is_closing, push_block, parse_tag, TagKind, tag_kind, closes, opens, unknown, names,
}
use postbag.Template.Render.{render_nodes, render_template, render_parsed, given, rendered}
use postbag.Template.Escaping.{has_unit, is_markup, lacks_node, lacks_nodes, has_unit-render_nodes}

-- `s.includes(part)` for a part that is not empty
abbrev pub includes : Text → Text → Bool
includes part [] = false
includes part (c ∷ s) = starts_with part (c ∷ s) || includes part s

-- A text of a template without `m`, and without the braces of a raw tag.
abbrev Harmless : ℕ → Text → Type 0
Harmless m s = (has_unit m s ≡ false) × (includes (codes "{{{") s ≡ false)

Harmless-tail : (m c : ℕ) (s : Text) → Harmless m (c ∷ s) → Harmless m s
Harmless-tail m c s h = (ground arith, ground arith)

Harmless-drop : (m n : ℕ) (s : Text) → Harmless m s → Harmless m (drop n s)
Harmless-drop m zero s h = h
Harmless-drop m (suc n) [] h = h
Harmless-drop m (suc n) (c ∷ s) h = Harmless-drop m n s (Harmless-tail m c s h)

abbrev HarmlessRest {ℓ} : {A : Type ℓ} → ℕ → Option (A × Text) → Type 0
HarmlessRest m none = Unit
HarmlessRest m (some (a, rest)) = Harmless m rest

cut-Harmless : (m : ℕ) (close s : Text) → Harmless m s → HarmlessRest m (cut close s)
unfolding cut
cut-Harmless m close [] h = tt
cut-Harmless m close (c ∷ s) h = elim (Bool-cases (starts_with close (c ∷ s))) [
  | inl e ↦ rw e (Harmless-drop m (length close) (c ∷ s) h)
  | inr e ↦ rw e (later (cut close s) (cut-Harmless m close s (Harmless-tail m c s h)))
]
  where
    later :
        (found : Option (Text × Text))
        → HarmlessRest m found
        → HarmlessRest {A = Text} m
            (elim found [ none ↦ none | some (inside, rest) ↦ some (c ∷ inside, rest) ])
    later none k = tt
    later (some (inside, rest)) k = k

-- A token of such a text is no raw tag and has no `m` in its text.
abbrev is_harmless : ℕ → Token → Bool
is_harmless m (text v) = not (has_unit m v)
is_harmless m (tag v raw) = not raw

abbrev HarmlessTag : ℕ → Option (Token × Text) → Type 0
HarmlessTag m none = Unit
HarmlessTag m (some (t, rest)) = (is_harmless m t ≡ true) × Harmless m rest

double_tag-Harmless : (m : ℕ) (s : Text) → Harmless m s → HarmlessTag m (double_tag s)
unfolding double_tag
double_tag-Harmless m s h = elim (Bool-cases (starts_with (codes "{{") s)) [
  | inl e ↦ rw e (
      inside (cut (codes "}}") (drop 2 s))
        (cut-Harmless m (codes "}}") (drop 2 s) (Harmless-drop m 2 s h)))
  | inr e ↦ rw e tt
]
  where
    inside :
        (found : Option (Text × Text))
        → HarmlessRest m found
        → HarmlessTag m (elim found [
          | none ↦ none
          | some (inside, rest) ↦ some (tag (trim inside) false, rest)
        ])
    inside none k = tt
    inside (some (v, rest)) k = (refl, k)

tag_at-Harmless : (m c : ℕ) (s : Text) → Harmless m (c ∷ s) → HarmlessTag m (tag_at (c ∷ s))
unfolding tag_at
tag_at-Harmless m c s h =
    let e : starts_with (codes "{{{") (c ∷ s) ≡ false = ground arith in
    rw e (double_tag-Harmless m (c ∷ s) h)

all-flush : (m : ℕ) (s : Text) → has_unit m s ≡ false → all (is_harmless m) (flush s) ≡ true
all-flush m [] h = refl
all-flush m (c ∷ s) h = ground arith

all-append :
    (p : Token → Bool) (xs ys : List Token)
    → all p xs ≡ true
    → all p ys ≡ true
    → all p (xs ++ ys) ≡ true
all-append p [] ys h k = k
all-append p (x ∷ xs) ys h k = ground (arith, all-append p xs ys)

all-tokens_from :
    (m fuel : ℕ) (before s : Text)
    → has_unit m before ≡ false
    → Harmless m s
    → all (is_harmless m) (tokens_from fuel before s) ≡ true
unfolding tokens_from
all-tokens_from m zero before [] h k = all-flush m before h
all-tokens_from m (suc fuel) before [] h k = all-flush m before h
all-tokens_from m zero before (c ∷ s) h k = all-flush m (before ++ (c ∷ s)) (rw (any-append, h) k.0)
all-tokens_from m (suc fuel) before (c ∷ s) h k =
    step (tag_at (c ∷ s)) (tag_at-Harmless m c s k)
      (all-tokens_from m fuel (before ++ (c ∷ [])) s (rw (any-append, h) (ground arith))
        (Harmless-tail m c s k))
      (λ rest r. all-tokens_from m fuel [] rest refl r)
  where
    step :
        (found : Option (Token × Text))
        → HarmlessTag m found
        → all (is_harmless m) (tokens_from fuel (before ++ (c ∷ [])) s) ≡ true
        → ((rest : Text) → Harmless m rest → all (is_harmless m) (tokens_from fuel [] rest) ≡ true)
        → all (is_harmless m) (elim found [
          | none ↦ tokens_from fuel (before ++ (c ∷ [])) s
          | some (t, rest) ↦ flush before ++ (t ∷ tokens_from fuel [] rest)
        ])
          ≡ true
    step none q none_found go = none_found
    step (some (t, rest)) q none_found go =
        all-append (is_harmless m) (flush before) (t ∷ tokens_from fuel [] rest)
          (all-flush m before h) (let r = go rest q.1 in ground arith)

-- What `parse` gives for harmless tokens.
abbrev HarmlessParse : ℕ → Parsed → Type 0
HarmlessParse m stuck = Unit
HarmlessParse m syntax_error = Unit
HarmlessParse m (parsed ns rest) = (lacks_nodes m ns ≡ true) × (all (is_harmless m) rest ≡ true)

push-Harmless :
    (m : ℕ) (n : Node) (p : Parsed)
    → lacks_node m n ≡ true
    → HarmlessParse m p
    → HarmlessParse m (push n p)
unfolding lacks_nodes
push-Harmless m n stuck h k = tt
push-Harmless m n syntax_error h k = tt
push-Harmless m n (parsed ns rest) h k = (ground arith, k.1)

push_block-Harmless :
    (m : ℕ) (b : Block) (path : Text) (p : Parsed) (continue : List Token → Parsed)
    → HarmlessParse m p
    → ((rest : List Token) → all (is_harmless m) rest ≡ true → HarmlessParse m (continue rest))
    → HarmlessParse m (push_block b path continue p)
unfolding lacks_nodes
push_block-Harmless m b path stuck continue h go = tt
push_block-Harmless m b path syntax_error continue h go = tt
push_block-Harmless m b path (parsed children rest) continue h go =
    push-Harmless m (block b path children) (continue rest) h.0 (go rest h.1)

parse_tag-Harmless :
    (m : ℕ) (closing : Option Block) (tokens : List Token) (k : TagKind) (inside : Block → Parsed)
    (continue : List Token → Parsed)
    → all (is_harmless m) tokens ≡ true
    → ((b : Block) → HarmlessParse m (inside b))
    → ((rest : List Token) → all (is_harmless m) rest ≡ true → HarmlessParse m (continue rest))
    → HarmlessParse m (parse_tag inside continue closing tokens false k)
unfolding lacks_nodes
parse_tag-Harmless m closing tokens (closes close) inside continue h inner go =
    elim (Bool-cases (is_closing closing close)) [ inl e ↦ rw e (refl, h) | inr e ↦ rw e tt ]
parse_tag-Harmless m closing tokens (opens b path) inside continue h inner go =
    push_block-Harmless m b path (inside b) continue (inner b) go
parse_tag-Harmless m closing tokens unknown inside continue h inner go = tt
parse_tag-Harmless m closing tokens (names path) inside continue h inner go =
    push-Harmless m (variable path false) (continue tokens) refl (go tokens h)

parse-Harmless :
    (m fuel : ℕ) (tokens : List Token) (closing : Option Block)
    → all (is_harmless m) tokens ≡ true
    → HarmlessParse m (parse fuel tokens closing)
unfolding parse lacks_nodes
parse-Harmless m zero tokens closing h = tt
parse-Harmless m (suc fuel) [] none h = (refl, refl)
parse-Harmless m (suc fuel) [] (some b) h = tt
parse-Harmless m (suc fuel) (text value ∷ tokens) closing h =
    push-Harmless m (plain value) (parse fuel tokens closing) (ground arith)
      (parse-Harmless m fuel tokens closing (ground arith))
parse-Harmless m (suc fuel) (tag value true ∷ tokens) closing h = cc
parse-Harmless m (suc fuel) (tag value false ∷ tokens) closing h =
    parse_tag-Harmless m closing tokens (tag_kind value) _ _ h
      (λ b. parse-Harmless m fuel tokens (some b) h)
      (λ rest r. parse-Harmless m fuel rest closing r)

-- Where a template holds neither a markup character `m` (one of `<`, `>`, `"` and `'`) nor `{{{`, what
-- it renders to holds no `m`, whatever the values are that it is given.
pub has_unit-render_template :
    (m : ℕ) (template : Text) (root : Value) (out : Text)
    → is_markup m ≡ true
    → has_unit m template ≡ false
    → includes (codes "{{{") template ≡ false
    → render_template template root ≡ rendered out
    → has_unit m out ≡ false
unfolding render_template
has_unit-render_template m template root out h k l e =
    whole (parse (suc (length tokens)) tokens none)
      (parse-Harmless m (suc (length tokens)) tokens none
        (all-tokens_from m (length template) [] template refl (k, l)))
      e
  where
    tokens : List Token
    tokens = tokens_for template

    written :
        (ns : Nodes) (t : Option Text)
        → render_nodes ns (root ∷ []) ≡ t
        → lacks_nodes m ns ≡ true
        → given t ≡ rendered out
        → has_unit m out ≡ false
    written ns none e h g = cc
    written ns (some s) e q g = has_unit-render_nodes m ns (root ∷ []) out h q (cc)

    whole :
        (p : Parsed)
        → HarmlessParse m p
        → render_parsed root p ≡ rendered out
        → has_unit m out ≡ false
    whole stuck q e = cc
    whole syntax_error q e = cc
    whole (parsed ns rest) q e = written ns _ refl q.0 e
