-- ===== src/Template/Render.antt =====
-- `renderNodes` of packages/core/src/template.ts with what it calls. The contexts stand innermost
-- first: `[...contexts, item]` is `item ∷ contexts`.
use postbag.Common.{
  ℕ, suc, Bool, true, false, ◌||◌, Option, none, some, List, [], ◌∷◌, ◌++◌, Text, codes, teq, not,
  if◌then◌else◌, ◌==◌, split, length,
}
use postbag.Json.Values.{Value, null, bool, num, str, arr, obj, nil, item, item_list}
use postbag.Json.Print.{stringify}
use postbag.Json.Read.{Found, missing, value, method, prototype, from_value}
use postbag.Template.Tokens.{tokens_for}
use postbag.Template.Parse.{
  Node, Nodes, when, each, plain, variable, block, Parsed, stuck, syntax_error, parsed, parse,
}

-- The innermost context in which the path is not `undefined`.
unfoldable pub search_contexts : List Text → List Value → Found
unfolding from_value
search_contexts path [] = missing
search_contexts path (c ∷ contexts) = elim (from_value (value c) path) [
  | missing ↦ search_contexts path contexts
  | value v ↦ value v
  | method ↦ method
  | prototype ↦ prototype
]

abbrev pub innermost : List Value → Found
innermost [] = missing
innermost (c ∷ contexts) = value c

unfoldable pub resolve : Text → List Value → Found
unfolding search_contexts
resolve path contexts =
    if teq path (codes "this") || teq path (codes ".")
    then innermost contexts
    else search_contexts (split b'.' path) contexts

-- `valueText`; a method has no JSON text, and `JSON.stringify` gives `undefined`.
unfoldable pub value_text : Found → Option Text
unfolding stringify
value_text missing = some []
value_text (value null) = some []
value_text (value (bool false)) = some []
value_text (value (bool true)) = some (codes "true")
value_text (value (str s)) = some s
value_text (value (num n)) = some n
value_text (value (arr xs)) = some (stringify (arr xs))
value_text (value (obj fs)) = some (stringify (obj fs))
value_text method = none
value_text prototype = some (codes "{}")

-- `s.replaceAll(c, by)` for one code unit
abbrev pub replace_all : ℕ → Text → Text → Text
replace_all c by [] = []
replace_all c by (x ∷ s) = (if x == c then by else x ∷ []) ++ replace_all c by s

unfoldable pub escape_html : Text → Text
escape_html s = replace_all 39 (codes "&#39;") (
    replace_all 34 (codes "&quot;") (
      replace_all 62 (codes "&gt;")
        (replace_all 60 (codes "&lt;") (replace_all 38 (codes "&amp;") s))))

-- `Boolean(value)`, and `value.length > 0` for an array
unfoldable pub truthy : Found → Bool
truthy missing = false
truthy (value null) = false
truthy (value (bool b)) = b
truthy (value (num n)) = not (teq n (codes "0"))
truthy (value (str [])) = false
truthy (value (str (c ∷ s))) = true
truthy (value (arr nil)) = false
truthy (value (arr (item x xs))) = true
truthy (value (obj fs)) = true
truthy method = true
truthy prototype = true

-- `result += raw ? text : escapeHtml(text)`: to add `undefined` adds its name, and its `replaceAll`
-- is a `TypeError`, which is `none`.
unfoldable pub variable_text : Bool → Option Text → Option Text
unfolding escape_html
variable_text true none = some (codes "undefined")
variable_text true (some s) = some s
variable_text false none = none
variable_text false (some s) = some (escape_html s)

abbrev pub plus : Option Text → Option Text → Option Text
plus none rest = none
plus (some s) none = none
plus (some s) (some t) = some (s ++ t)

-- `for (const item of items)`
abbrev pub for_each : (Value → Option Text) → List Value → Option Text
for_each body [] = some []
for_each body (x ∷ xs) = plus (body x) (for_each body xs)

-- `Array.isArray(items)`, and its items
abbrev pub items_of : Found → List Value
items_of (value (arr xs)) = item_list xs
items_of (value null) = []
items_of (value (bool b)) = []
items_of (value (num n)) = []
items_of (value (str s)) = []
items_of (value (obj fs)) = []
items_of missing = []
items_of method = []
items_of prototype = []

unfoldable mutual
  unfolding resolve value_text variable_text truthy

  pub render_node : Node → List Value → Option Text
  render_node (plain s) contexts = some s
  render_node (variable path raw) contexts = variable_text raw (value_text (resolve path contexts))
  render_node (block when path children) contexts =
      if truthy (resolve path contexts) then render_nodes children contexts else some []
  render_node (block each path children) contexts =
      for_each (λ x. render_nodes children (x ∷ contexts)) (items_of (resolve path contexts))

  pub render_nodes : Nodes → List Value → Option Text
  render_nodes Nodes.nil contexts = some []
  render_nodes (Nodes.node n ns) contexts = plus (render_node n contexts) (render_nodes ns contexts)

-- How a call of `renderTemplate` ends.
pub data Rendered : Type 0 where
  template_syntax_error : Rendered
  type_error : Rendered
  rendered : Text → Rendered

abbrev pub given : Option Text → Rendered
given none = type_error
given (some s) = rendered s

-- The nodes that `parse` gives for the whole of a text; the fuel is more than its tokens.
unfoldable pub render_parsed : Value → Parsed → Rendered
unfolding render_nodes
render_parsed root stuck = template_syntax_error
render_parsed root syntax_error = template_syntax_error
render_parsed root (parsed nodes rest) = given (render_nodes nodes (root ∷ []))

unfoldable pub render_template : Text → Value → Rendered
unfolding tokens_for parse render_parsed
render_template template root =
    let tokens = tokens_for template in render_parsed root (parse (suc (length tokens)) tokens none)
