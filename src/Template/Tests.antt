-- ===== src/Template/Tests.antt =====
-- Templates rendered at concrete data, and the theorems at examples.
use postbag.Common.{
  suc, ◌≡◌, ◌≢◌, ◌↔◌, refl, arith, none, List, [], ◌∷◌, true, false, codes, length, inl, inr,
}
use postbag.Json.Values.{Value, Items, num, str, arr, obj, item, end, field}
use postbag.Template.Tokens.{Token, text, tag, tokens_for}
use postbag.Template.Parse.{Nodes, nil, node, plain, variable, block, each, parse, parsed, stuck}
use postbag.Template.Render.{
  render_template, render_nodes, given, rendered, template_syntax_error, type_error,
}
use postbag.Template.Escaping.{has_unit}
use postbag.Template.Markup.{has_unit-render_template}
use postbag.Template.Balance.{balanced, parse_ends, render_template-syntax_error}
use postbag.Template.RoundTrip.{
  WrittenNodes, write_nodes, write_template, render_template-write_template,
}
use postbag.Template.Inherited.{shown, render_template-inherited}

abbrev sender : Value
sender = obj (
    field (codes "name") (str (codes "<b>Ann & Bo</b>")) (
      field (codes "tags") (arr (item (str (codes "a")) (item (str (codes "b")) Items.nil)))
        (field (codes "n") (num (codes "0")) end)))

escapes :
    render_template (codes "Hi {{ name }}!") sender
    ≡ rendered (codes "Hi &lt;b&gt;Ann &amp; Bo&lt;/b&gt;!")
unfolding render_template
escapes = refl

raw_text :
    render_template (codes "{{{name}}}{{missing}}") sender ≡ rendered (codes "<b>Ann & Bo</b>")
unfolding render_template
raw_text = refl

blocks :
    render_template
      (codes "{{#each tags}}{{#if this}}[{{this}}]{{/if}}{{/ each }}{{#if n}}n{{/if}}{{tags}}")
      sender
    ≡ rendered (codes "[a][b][&quot;a&quot;,&quot;b&quot;]")
unfolding render_template
blocks = refl

unclosed : render_template (codes "{{#if n}}n") sender ≡ template_syntax_error
unfolding render_template
unclosed = refl

constructor_read : render_template (codes "{{constructor}}") sender ≡ type_error
unfolding render_template
constructor_read = refl

triple_unclosed : render_template (codes "{{{n}} {{ n") sender ≡ rendered (codes " {{ n")
unfolding render_template
triple_unclosed = refl

has_unit-render_template_example :
    has_unit b'<' (codes "Hi &lt;b&gt;Ann &amp; Bo&lt;/b&gt;!") ≡ false
has_unit-render_template_example =
    has_unit-render_template b'<' (codes "Hi {{ name }}!") sender
      (codes "Hi &lt;b&gt;Ann &amp; Bo&lt;/b&gt;!") refl refl refl escapes

abbrev listing : Nodes
listing = node (plain (codes "Tags: ")) (
    node
      (block each (codes "tags")
        (node (variable (codes "this") false) (node (plain (codes ", ")) nil)))
      (node (variable (codes "name") true) nil))

render_template-write_template_example :
    (parse (suc (length (write_nodes listing []))) (tokens_for (write_template listing)) none
      ≡ parsed listing [])
    × (render_template (write_template listing) sender ≡ given (render_nodes listing (sender ∷ [])))
unfolding WrittenNodes
render_template-write_template_example = render_template-write_template listing sender (
  (refl, (λ e. cc), refl),
  (
    (
      (refl, refl, (refl, refl)),
      (λ e. cc),
      (((refl, refl, (refl, refl)), refl, refl), ((refl, (λ e. cc), refl), tt)),
    ),
    (((refl, refl, (refl, refl)), refl, refl), tt),
  ),
)

render_template-syntax_error_example :
    (render_template (codes "{{#if n}}n") sender ≡ template_syntax_error)
    ↔ (balanced (tokens_for (codes "{{#if n}}n")) [] ≡ false)
render_template-syntax_error_example = render_template-syntax_error (codes "{{#if n}}n") sender

abbrev an_opening : List Token
an_opening = tag (codes "#if n") false ∷ text (codes "n") ∷ []

parse_ends_example : parse 3 an_opening none ≢ stuck
parse_ends_example = parse_ends 3 an_opening none (omega arith)

render_template-inherited_example : render_template (shown (codes "toString")) sender ≡ type_error
render_template-inherited_example =
    render_template-inherited
      (field (codes "name") (str (codes "<b>Ann & Bo</b>")) (
        field (codes "tags") (arr (item (str (codes "a")) (item (str (codes "b")) Items.nil)))
          (field (codes "n") (num (codes "0")) end)))
      (codes "toString") (inr (inr (inr (inr (inr (inl refl)))))) refl
