-- ===== src/Template/Parse.antt =====
-- `parse` of packages/core/src/template.ts. The tokens that are left stand for `tokens` and `next`.
use postbag.Common.{
  ℕ, zero, suc, Bool, false, Option, none, some, List, [], ◌∷◌, Text, codes, teq, if◌then◌else◌,
  starts_with, drop, trim,
}
use postbag.Template.Tokens.{Token, text, tag}

pub data Block : Type 0 where
  when each : Block

mutual
  pub data Node : Type 0 where
    plain : (value : Text) → Node
    variable : (path : Text) (raw : Bool) → Node
    block : Block → (path : Text) → (children : Nodes) → Node

  pub data Nodes : Type 0 where
    nil : Nodes
    node : Node → Nodes → Nodes

-- `"if"` and `"each"`
abbrev pub block_name : Block → Text
block_name when = codes "if"
block_name each = codes "each"

abbrev pub opening : Block → Text
opening when = codes "#if "
opening each = codes "#each "

-- What the text of a tag is taken for, by the tests in the order of the code.
pub data TagKind : Type 0 where
  closes : (name : Text) → TagKind
  opens : Block → (path : Text) → TagKind
  unknown : TagKind
  names : (path : Text) → TagKind

unfoldable pub tag_kind : Text → TagKind
tag_kind value =
    if starts_with (codes "/") value
    then closes (trim (drop 1 value))
    else if starts_with (codes "#if ") value
    then opens when (trim (drop 4 value))
    else if starts_with (codes "#each ") value
    then opens each (trim (drop 6 value))
    else if starts_with (codes "#") value
    then unknown
    else names value

-- What `parse` gives: a `TemplateSyntaxError`, or the nodes with the tokens behind them. `stuck` is
-- the model's own answer where the fuel does not suffice.
pub data Parsed : Type 0 where
  stuck : Parsed
  syntax_error : Parsed
  parsed : Nodes → (rest : List Token) → Parsed

-- `nodes.push(…)` before the rest of the loop
abbrev pub push : Node → Parsed → Parsed
push n stuck = stuck
push n syntax_error = syntax_error
push n (parsed ns rest) = parsed (node n ns) rest

-- `closing === undefined || close !== closing`
abbrev pub is_closing : Option Block → Text → Bool
is_closing none close = false
is_closing (some b) close = teq close (block_name b)

abbrev pub at_end : Option Block → Parsed
at_end none = parsed nil []
at_end (some b) = syntax_error

-- `const children = parse(tokens, index + 1, …)`, the block, and the rest of the loop
abbrev pub push_block : Block → Text → (List Token → Parsed) → Parsed → Parsed
push_block b path continue stuck = stuck
push_block b path continue syntax_error = syntax_error
push_block b path continue (parsed children rest) = push (block b path children) (continue rest)

-- A tag, with the two calls that follow it: `parse(…, "if" | "each")`, and the loop.
abbrev pub parse_tag :
    (Block → Parsed) → (List Token → Parsed) → Option Block → List Token → Bool → TagKind → Parsed
parse_tag inside continue closing tokens raw (closes close) =
    if is_closing closing close then parsed nil tokens else syntax_error
parse_tag inside continue closing tokens raw (opens b path) = push_block b path continue (inside b)
parse_tag inside continue closing tokens raw unknown = syntax_error
parse_tag inside continue closing tokens raw (names path) =
    push (variable path raw) (continue tokens)

unfoldable pub parse : ℕ → List Token → Option Block → Parsed
unfolding tag_kind
parse zero tokens closing = stuck
parse (suc fuel) [] closing = at_end closing
parse (suc fuel) (text value ∷ tokens) closing = push (plain value) (parse fuel tokens closing)
parse (suc fuel) (tag value raw ∷ tokens) closing =
    parse_tag (λ b. parse fuel tokens (some b)) (λ rest. parse fuel rest closing) closing tokens raw
      (tag_kind value)
