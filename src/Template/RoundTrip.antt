-- ===== src/Template/RoundTrip.antt =====
-- Nodes that are written out as a template render as themselves: `tokensFor` and `parse` undo the
-- writing.
use postbag.Common.{
  ℕ, zero, suc, ◌≤◌, ◌<◌, ◌≡◌, refl, ap, subst, ◌∙◌, Bool, true, false, Option, none, some, List,
  [], ◌∷◌, ◌++◌, ◌≢◌, ◌==◌, Text, codes, arith, length, starts_with,
}
use postbag.Json.Values.{Value}
use postbag.Template.Tokens.{Token, text, tag, tokens_for}
use postbag.Template.Parse.{
  Block, Node, Nodes, when, each, plain, variable, block, block_name, opening, parsed, parse, push,
  push_block, parse_tag, tag_kind, opens, names,
}
use postbag.Template.Render.{render_nodes, render_template, given}
use postbag.Template.Escaping.{has_unit}
use postbag.Template.Spelling.{
  spell, Spelled, IsTrimmed, IsTagValue, trim-IsTrimmed, tokens_for-spell,
}

abbrev pub closing_tag : Block → Token
closing_tag b = tag (b'/' ∷ block_name b) false

-- The tokens of nodes, before `rest`.
unfoldable mutual
  pub write_node : Node → List Token → List Token
  write_node (plain s) rest = text s ∷ rest
  write_node (variable path raw) rest = tag path raw ∷ rest
  write_node (block b path children) rest =
      tag (opening b ++ path) false ∷ write_nodes children (closing_tag b ∷ rest)

  pub write_nodes : Nodes → List Token → List Token
  write_nodes Nodes.nil rest = rest
  write_nodes (Nodes.node n ns) rest = write_node n (write_nodes ns rest)

unfoldable pub write_template : Nodes → Text
unfolding write_nodes
write_template ns = spell (write_nodes ns [])

-- A path that is not taken for a block or a closing tag.
abbrev pub IsVariablePath : Text → Type 0
IsVariablePath path =
    IsTagValue path
    × (starts_with (codes "/") path ≡ false)
    × (starts_with (codes "#") path ≡ false)

abbrev pub is_text : Node → Bool
is_text (plain s) = true
is_text (variable path raw) = false
is_text (block b path children) = false

-- Nodes that a template can spell: texts as the tokens have them, and paths without braces.
unfoldable mutual
  pub WrittenNode : Bool → Node → Type 0
  WrittenNode after_text (plain s) = (after_text ≡ false) × (s ≢ []) × (has_unit b'{' s ≡ false)
  WrittenNode after_text (variable path raw) = IsVariablePath path
  WrittenNode after_text (block b path children) =
      IsTagValue path × (path ≢ []) × WrittenNodes false children

  pub WrittenNodes : Bool → Nodes → Type 0
  WrittenNodes after_text Nodes.nil = Unit
  WrittenNodes after_text (Nodes.node n ns) = WrittenNode after_text n × WrittenNodes (is_text n) ns

IsTagValue-opening :
    (b : Block) (path : Text) → IsTagValue path → path ≢ [] → IsTagValue (opening b ++ path)
IsTagValue-opening b [] h k = absurd (k refl)
IsTagValue-opening when (c ∷ path) h k = (ground arith, ground arith, (refl, rw h.2.1 refl))
IsTagValue-opening each (c ∷ path) h k = (ground arith, ground arith, (refl, rw h.2.1 refl))

IsTagValue-closing : (b : Block) → IsTagValue (b'/' ∷ block_name b)
IsTagValue-closing when = (refl, refl, (refl, refl))
IsTagValue-closing each = (refl, refl, (refl, refl))

mutual
  unfolding write_nodes WrittenNodes

  write_node-Spelled :
      (after : Bool) (n : Node) (rest : List Token)
      → WrittenNode after n
      → Spelled (is_text n) rest
      → Spelled after (write_node n rest)
  write_node-Spelled after (plain s) rest h k = (h.0, h.1, h.2, k)
  write_node-Spelled after (variable path raw) rest h k = (h.0, k)
  write_node-Spelled after (block b path children) rest h k = (
    IsTagValue-opening b path h.0 h.1,
    write_nodes-Spelled false children (closing_tag b ∷ rest) h.2 (λ a. (IsTagValue-closing b, k)),
  )

  write_nodes-Spelled :
      (after : Bool) (ns : Nodes) (rest : List Token)
      → WrittenNodes after ns
      → ((a : Bool) → Spelled a rest)
      → Spelled after (write_nodes ns rest)
  write_nodes-Spelled after Nodes.nil rest h k = k after
  write_nodes-Spelled after (Nodes.node n ns) rest h k =
      write_node-Spelled after n (write_nodes ns rest) h.0
        (write_nodes-Spelled (is_text n) ns rest h.1 k)

tag_kind-opening :
    (b : Block) (path : Text) → IsTrimmed path → tag_kind (opening b ++ path) ≡ opens b path
unfolding tag_kind
tag_kind-opening when path h = ap (opens when) (trim-IsTrimmed path h)
tag_kind-opening each path h = ap (opens each) (trim-IsTrimmed path h)

tag_kind-variable : (path : Text) → IsVariablePath path → tag_kind path ≡ names path
unfolding tag_kind
tag_kind-variable [] h = refl
tag_kind-variable (c ∷ path) h =
    let e : (c == b'/') ≡ false = ground arith in
    let f : (c == b'#') ≡ false = ground arith in rw (e, f) refl

abbrev nodes_append : Nodes → Nodes → Nodes
nodes_append Nodes.nil ms = ms
nodes_append (Nodes.node n ns) ms = Nodes.node n (nodes_append ns ms)

nodes_append-nil : (ns : Nodes) → nodes_append ns Nodes.nil ≡ ns
nodes_append-nil Nodes.nil = refl
nodes_append-nil (Nodes.node n ns) = ap (Nodes.node n) (nodes_append-nil ns)

-- With more fuel than tokens the loop gives these nodes, and leaves `rest`.
abbrev Reads : Option Block → List Token → Nodes → List Token → Type 0
Reads closing tokens ns rest =
    (fuel : ℕ) → length tokens < fuel → parse fuel tokens closing ≡ parsed ns rest

mutual
  unfolding write_nodes

  length-write_node : (n : Node) (rest : List Token) → length rest < length (write_node n rest)
  length-write_node (plain s) rest = omega arith
  length-write_node (variable path raw) rest = omega arith
  length-write_node (block b path children) rest =
      omega (arith, length-write_nodes children (closing_tag b ∷ rest))

  length-write_nodes : (ns : Nodes) (rest : List Token) → length rest ≤ length (write_nodes ns rest)
  length-write_nodes Nodes.nil rest = omega arith
  length-write_nodes (Nodes.node n ns) rest =
      omega (arith, length-write_node n (write_nodes ns rest), length-write_nodes ns rest)

text-Reads :
    (s : Text) (closing : Option Block) (tokens : List Token) (ms : Nodes) (rest : List Token)
    → Reads closing tokens ms rest
    → Reads closing (text s ∷ tokens) (Nodes.node (plain s) ms) rest
unfolding parse
text-Reads s closing tokens ms rest k zero l = absurd (omega (arith, l))
text-Reads s closing tokens ms rest k (suc fuel) l = ap (push (plain s)) (k fuel (omega (arith, l)))

variable-Reads :
    (path : Text) (raw : Bool) (closing : Option Block) (tokens : List Token) (ms : Nodes)
    (rest : List Token)
    → IsVariablePath path
    → Reads closing tokens ms rest
    → Reads closing (tag path raw ∷ tokens) (Nodes.node (variable path raw) ms) rest
unfolding parse
variable-Reads path raw closing tokens ms rest h k zero l = absurd (omega (arith, l))
variable-Reads path raw closing tokens ms rest h k (suc fuel) l =
    ap (parse_tag (λ b. parse fuel tokens (some b)) (λ r. parse fuel r closing) closing tokens raw)
      (tag_kind-variable path h)
    ∙ ap (push (variable path raw)) (k fuel (omega (arith, l)))

closing-Reads :
    (b : Block) (tokens : List Token) → Reads (some b) (closing_tag b ∷ tokens) Nodes.nil tokens
unfolding parse tag_kind
closing-Reads b tokens zero l = absurd (omega (arith, l))
closing-Reads when tokens (suc fuel) l = refl
closing-Reads each tokens (suc fuel) l = refl

ends-Reads : Reads none [] Nodes.nil []
unfolding parse
ends-Reads zero l = absurd (omega (arith, l))
ends-Reads (suc fuel) l = refl

block-Reads :
    (b : Block) (path : Text) (children : Nodes) (closing : Option Block)
    (inside tokens : List Token) (ms : Nodes) (rest : List Token)
    → IsTagValue path
    → length tokens ≤ length inside
    → Reads (some b) inside children tokens
    → Reads closing tokens ms rest
    → Reads closing
        (tag (opening b ++ path) false ∷ inside)
        (Nodes.node (block b path children) ms)
        rest
unfolding parse
block-Reads b path children closing inside tokens ms rest h q c k zero l = absurd (omega (arith, l))
block-Reads b path children closing inside tokens ms rest h q c k (suc fuel) l =
    ap
      (parse_tag (λ b. parse fuel inside (some b)) (λ r. parse fuel r closing) closing inside false)
      (tag_kind-opening b path h.2)
    ∙ ap (push_block b path (λ r. parse fuel r closing)) (c fuel (omega (arith, l)))
    ∙ ap (push (block b path children)) (k fuel (omega (arith, l, q)))

mutual
  unfolding write_nodes WrittenNodes

  write_node-Reads :
      (after : Bool) (n : Node) (closing : Option Block) (tokens : List Token) (ms : Nodes)
      (rest : List Token)
      → WrittenNode after n
      → Reads closing tokens ms rest
      → Reads closing (write_node n tokens) (Nodes.node n ms) rest
  write_node-Reads after (plain s) closing tokens ms rest h k =
      text-Reads s closing tokens ms rest k
  write_node-Reads after (variable path raw) closing tokens ms rest h k =
      variable-Reads path raw closing tokens ms rest h k
  write_node-Reads after (block b path children) closing tokens ms rest h k =
      block-Reads b path children closing (write_nodes children (closing_tag b ∷ tokens)) tokens ms
        rest h.0 (omega (arith, length-write_nodes children (closing_tag b ∷ tokens)))
        (subst (λ ns. Reads (some b) (write_nodes children (closing_tag b ∷ tokens)) ns tokens)
          (nodes_append-nil children)
          (write_nodes-Reads false children (some b) (closing_tag b ∷ tokens) Nodes.nil tokens h.2
            (closing-Reads b tokens)))
        k

  write_nodes-Reads :
      (after : Bool) (ns : Nodes) (closing : Option Block) (tokens : List Token) (ms : Nodes)
      (rest : List Token)
      → WrittenNodes after ns
      → Reads closing tokens ms rest
      → Reads closing (write_nodes ns tokens) (nodes_append ns ms) rest
  write_nodes-Reads after Nodes.nil closing tokens ms rest h k = k
  write_nodes-Reads after (Nodes.node n ns) closing tokens ms rest h k =
      write_node-Reads after n closing (write_nodes ns tokens) (nodes_append ns ms) rest h.0
        (write_nodes-Reads (is_text n) ns closing tokens ms rest h.1 k)

-- The loop gives back the nodes that a template was written from, and `renderTemplate` renders these
-- nodes, for nodes that a template can spell: no text is empty, holds `{` or stands behind a text; no
-- path holds a brace or white space at its ends; a variable's path begins with neither `/` nor `#`,
-- and a block's path is not empty.
pub render_template-write_template :
    (ns : Nodes) (root : Value)
    → WrittenNodes false ns
    → (parse (suc (length (write_nodes ns []))) (tokens_for (write_template ns)) none
        ≡ parsed ns [])
      × (render_template (write_template ns) root ≡ given (render_nodes ns (root ∷ [])))
unfolding render_template write_template
render_template-write_template ns root h =
    let t = tokens_for-spell (write_nodes ns []) (write_nodes-Spelled false ns [] h (λ a. tt)) in
    let r =
      subst (λ ms. Reads none (write_nodes ns []) ms []) (nodes_append-nil ns)
        (write_nodes-Reads false ns none [] Nodes.nil [] h ends-Reads) in
    let p = r (suc (length (write_nodes ns []))) (omega arith) in (rw t p, rw (t, p) refl)
