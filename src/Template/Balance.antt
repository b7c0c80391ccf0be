-- ===== src/Template/Balance.antt =====
-- Which templates `parse` accepts: those that a scan with a stack of open blocks accepts.
use postbag.Common.{
  ℕ, zero, suc, ◌<◌, ◌≡◌, refl, subst, ◌∙◌, inl, inr, Bool, true, false, ◌&&◌, Option, none, some,
  List, [], ◌∷◌, ◌≢◌, ◌↔◌, Text, Bool-cases, arith, length, teq,
}
use postbag.Json.Values.{Value}
use postbag.Template.Tokens.{Token, text, tag, tokens_for}
use postbag.Template.Parse.{
  Block, Node, plain, variable, block, block_name, Parsed, stuck, syntax_error, parsed, parse, push,
  push_block, parse_tag, TagKind, tag_kind, closes, opens, unknown, names,
}
use postbag.Template.Render.{render_template, render_parsed, given, template_syntax_error}

abbrev pub is_empty : List Block → Bool
is_empty [] = true
is_empty (b ∷ stack) = false

-- The blocks that are open, innermost first; a closing tag must name the innermost.
abbrev pub balanced_tag : (List Block → Bool) → List Block → TagKind → Bool
balanced_tag continue [] (closes close) = false
balanced_tag continue (b ∷ stack) (closes close) = teq close (block_name b) && continue stack
balanced_tag continue stack (opens b path) = continue (b ∷ stack)
balanced_tag continue stack unknown = false
balanced_tag continue stack (names path) = continue stack

unfoldable pub balanced : List Token → List Block → Bool
unfolding tag_kind
balanced [] stack = is_empty stack
balanced (text value ∷ tokens) stack = balanced tokens stack
balanced (tag value raw ∷ tokens) stack =
    balanced_tag (λ s. balanced tokens s) stack (tag_kind value)

-- What a parse says of the scan. Inside a block it says it of the scan with any blocks around.
abbrev Agrees : Option Block → List Token → Parsed → Type 0
Agrees closing tokens stuck = ⊥
Agrees none tokens syntax_error = balanced tokens [] ≡ false
Agrees none tokens (parsed ns rest) = balanced tokens [] ≡ true
Agrees (some b) tokens syntax_error = (stack : List Block) → balanced tokens (b ∷ stack) ≡ false
Agrees (some b) tokens (parsed ns rest) =
    (length rest < length tokens)
    × ((stack : List Block) → balanced tokens (b ∷ stack) ≡ balanced rest stack)

-- A token that leaves the open blocks as they are.
push-Agrees :
    (closing : Option Block) (t : Token) (n : Node) (tokens : List Token) (p : Parsed)
    → ((stack : List Block) → balanced (t ∷ tokens) stack ≡ balanced tokens stack)
    → Agrees closing tokens p
    → Agrees closing (t ∷ tokens) (push n p)
push-Agrees closing t n tokens stuck same h = h
push-Agrees none t n tokens syntax_error same h = same [] ∙ h
push-Agrees none t n tokens (parsed ns rest) same h = same [] ∙ h
push-Agrees (some b) t n tokens syntax_error same h = λ stack. same (b ∷ stack) ∙ h stack
push-Agrees (some b) t n tokens (parsed ns rest) same h =
    (omega (arith, h.0), λ stack. same (b ∷ stack) ∙ h.1 stack)

-- A block: `children` to its closing tag, and the loop behind that.
push_block-Agrees :
    (closing : Option Block) (t : Token) (b : Block) (path : Text) (tokens : List Token)
    (p : Parsed) (continue : List Token → Parsed)
    → ((stack : List Block) → balanced (t ∷ tokens) stack ≡ balanced tokens (b ∷ stack))
    → Agrees (some b) tokens p
    → ((rest : List Token) → length rest < length tokens → Agrees closing rest (continue rest))
    → Agrees closing (t ∷ tokens) (push_block b path continue p)
push_block-Agrees closing t b path tokens stuck continue same h go = h
push_block-Agrees none t b path tokens syntax_error continue same h go = same [] ∙ h []
push_block-Agrees (some c) t b path tokens syntax_error continue same h go =
    λ stack. same (c ∷ stack) ∙ h (c ∷ stack)
push_block-Agrees closing t b path tokens (parsed children rest) continue same h go =
    behind closing (continue rest) (go rest h.0)
  where
    behind :
        (c : Option Block) (p : Parsed)
        → Agrees c rest p
        → Agrees c (t ∷ tokens) (push (block b path children) p)
    behind c stuck k = k
    behind none syntax_error k = same [] ∙ h.1 [] ∙ k
    behind none (parsed ns r) k = same [] ∙ h.1 [] ∙ k
    behind (some c) syntax_error k = λ stack. same (c ∷ stack) ∙ h.1 (c ∷ stack) ∙ k stack
    behind (some c) (parsed ns r) k =
        (omega (arith, h.0, k.0), λ stack. same (c ∷ stack) ∙ h.1 (c ∷ stack) ∙ k.1 stack)

parse_tag-Agrees :
    (closing : Option Block) (value : Text) (raw : Bool) (tokens : List Token) (k : TagKind)
    (inside : Block → Parsed) (continue : List Token → Parsed)
    → tag_kind value ≡ k
    → ((b : Block) → Agrees (some b) tokens (inside b))
    → ((rest : List Token)
        → length rest < suc (length tokens)
        → Agrees closing rest (continue rest))
    → Agrees closing (tag value raw ∷ tokens) (parse_tag inside continue closing tokens raw k)
unfolding balanced
parse_tag-Agrees none value raw tokens (closes close) inside continue e inner go = rw e refl
parse_tag-Agrees (some b) value raw tokens (closes close) inside continue e inner go =
    elim (Bool-cases (teq close (block_name b))) [
      | inl t ↦ rw t (omega arith, λ stack. rw (e, t) refl)
      | inr t ↦ rw t (λ stack. rw (e, t) refl)
    ]
parse_tag-Agrees closing value raw tokens (opens b path) inside continue e inner go =
    push_block-Agrees closing (tag value raw) b path tokens (inside b) continue (λ stack. rw e refl)
      (inner b) (λ rest l. go rest (omega (arith, l)))
parse_tag-Agrees none value raw tokens unknown inside continue e inner go = rw e refl
parse_tag-Agrees (some b) value raw tokens unknown inside continue e inner go = λ stack. rw e refl
parse_tag-Agrees closing value raw tokens (names path) inside continue e inner go =
    push-Agrees closing (tag value raw) (variable path raw) tokens (continue tokens)
      (λ stack. rw e refl) (go tokens (omega arith))

parse-Agrees :
    (fuel : ℕ) (tokens : List Token) (closing : Option Block)
    → length tokens < fuel
    → Agrees closing tokens (parse fuel tokens closing)
unfolding parse balanced
parse-Agrees zero tokens closing h = absurd (omega arith)
parse-Agrees (suc fuel) [] none h = refl
parse-Agrees (suc fuel) [] (some b) h = λ stack. refl
parse-Agrees (suc fuel) (text value ∷ tokens) closing h =
    push-Agrees closing (text value) (plain value) tokens (parse fuel tokens closing)
      (λ stack. refl) (parse-Agrees fuel tokens closing (omega arith))
parse-Agrees (suc fuel) (tag value raw ∷ tokens) closing h =
    parse_tag-Agrees closing value raw tokens (tag_kind value) _ _ refl
      (λ b. parse-Agrees fuel tokens (some b) (omega arith))
      (λ rest l. parse-Agrees fuel rest closing (omega (arith, l)))

-- The loop of `parse` ends: with more fuel than there are tokens it never runs out, whichever block it
-- is called for.
pub parse_ends :
    (fuel : ℕ) (tokens : List Token) (closing : Option Block)
    → length tokens < fuel
    → parse fuel tokens closing ≢ stuck
parse_ends fuel tokens closing h e =
    absurd (subst (Agrees closing tokens) e (parse-Agrees fuel tokens closing h))

-- `renderTemplate` throws a `TemplateSyntaxError` exactly when the scan with a stack refuses the tags:
-- at a closing tag that does not name the innermost open block, at an unknown `#` tag, or where a
-- block is open at the end. The data has no part in it.
pub render_template-syntax_error :
    (template : Text) (root : Value)
    → (render_template template root ≡ template_syntax_error)
      ↔ (balanced (tokens_for template) [] ≡ false)
unfolding render_template
render_template-syntax_error template root =
    decided (parse (suc (length (tokens_for template))) (tokens_for template) none)
      (parse-Agrees (suc (length (tokens_for template))) (tokens_for template) none (omega arith))
  where
    written : (t : Option Text) → given t ≡ template_syntax_error → ⊥
    written none e = cc
    written (some s) e = cc

    decided :
        (p : Parsed)
        → Agrees none (tokens_for template) p
        → (render_parsed root p ≡ template_syntax_error)
          ↔ (balanced (tokens_for template) [] ≡ false)
    decided stuck h = absurd h
    decided syntax_error h = (λ e. h, λ e. refl)
    decided (parsed ns rest) h = (λ e. absurd (written _ e), λ e. cc)
