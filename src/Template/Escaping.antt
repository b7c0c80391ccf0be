-- ===== src/Template/Escaping.antt =====
-- What a rendered template may hold of `<`, `>`, `"` and `'`: escaped values have none of them.
use postbag.Common.{
  ℕ, ◌≡◌, refl, subst, ◌⊎◌, inl, inr, Bool, true, false, ◌&&◌, ◌||◌, not, Option, none, some, List,
  [], ◌∷◌, Text, codes, any, any-append, Bool-cases, ◌==◌, arith,
}
use postbag.Json.Values.{Value}
use postbag.Template.Parse.{Node, Nodes, when, each, plain, variable, block}
use postbag.Template.Render.{
  resolve, replace_all, escape_html, truthy, variable_text, plus, for_each, items_of, render_node,
  render_nodes,
}

abbrev pub has_unit : ℕ → Text → Bool
has_unit m s = any (λ x. x == m) s

-- `<`, `>`, `"` and `'`
abbrev pub is_markup : ℕ → Bool
is_markup m = (m == 60) || (m == 62) || (m == 34) || (m == 39)

replace_all-removes :
    (c : ℕ) (by s : Text) → has_unit c by ≡ false → has_unit c (replace_all c by s) ≡ false
replace_all-removes c by [] h = refl
replace_all-removes c by (x ∷ s) h = elim (Bool-cases (x == c)) [
  | inl e ↦ rw (e, any-append, h) (replace_all-removes c by s h)
  | inr e ↦ rw (e, e) (replace_all-removes c by s h)
]

replace_all-adds_none :
    (m c : ℕ) (by s : Text)
    → has_unit m by ≡ false
    → has_unit m s ≡ false
    → has_unit m (replace_all c by s) ≡ false
replace_all-adds_none m c by [] h k = refl
replace_all-adds_none m c by (x ∷ s) h k = elim (Bool-cases (x == c)) [
  | inl e ↦ rw (e, any-append, h) (replace_all-adds_none m c by s h (ground arith))
  | inr e ↦
      rw (e, any-append) (let r = replace_all-adds_none m c by s h (ground arith) in ground arith)
]

markup-cases : (m : ℕ) → is_markup m ≡ true → (m ≡ 60) ⊎ ((m ≡ 62) ⊎ ((m ≡ 34) ⊎ (m ≡ 39)))
markup-cases m h = elim (Bool-cases (m == 60)) [
  | inl e ↦ inl (ground arith)
  | inr e ↦ elim (Bool-cases (m == 62)) [
    | inl f ↦ inr (inl (ground arith))
    | inr f ↦ elim (Bool-cases (m == 34)) [
      | inl g ↦ inr (inr (inl (ground arith)))
      | inr g ↦ inr (inr (inr (ground arith)))
    ]
  ]
]

pub has_unit-escape_html :
    (m : ℕ) (s : Text) → is_markup m ≡ true → has_unit m (escape_html s) ≡ false
unfolding escape_html
has_unit-escape_html m s h =
    let a = replace_all 38 (codes "&amp;") s in
    let b = replace_all 60 (codes "&lt;") a in
    let c = replace_all 62 (codes "&gt;") b in
    let d = replace_all 34 (codes "&quot;") c in
    let spared = λ (n : ℕ) (q : has_unit n (codes "&#39;") ≡ false) (r : has_unit n d ≡ false).
      replace_all-adds_none n 39 (codes "&#39;") d q r in
    elim (markup-cases m h) [
      | inl e ↦
          let u = replace_all-removes 60 (codes "&lt;") a refl in
          let v = replace_all-adds_none 60 62 (codes "&gt;") b refl u in
          rw e (spared 60 refl (replace_all-adds_none 60 34 (codes "&quot;") c refl v))
      | inr (inl e) ↦
          let u = replace_all-removes 62 (codes "&gt;") b refl in
          rw e (spared 62 refl (replace_all-adds_none 62 34 (codes "&quot;") c refl u))
      | inr (inr (inl e)) ↦ rw e (spared 34 refl (replace_all-removes 34 (codes "&quot;") c refl))
      | inr (inr (inr e)) ↦ rw e (replace_all-removes 39 (codes "&#39;") d refl)
    ]

-- No text of the template holds `m`, and every variable is escaped.
unfoldable mutual
  pub lacks_node : ℕ → Node → Bool
  lacks_node m (plain s) = not (has_unit m s)
  lacks_node m (variable path raw) = not raw
  lacks_node m (block b path children) = lacks_nodes m children

  pub lacks_nodes : ℕ → Nodes → Bool
  lacks_nodes m Nodes.nil = true
  lacks_nodes m (Nodes.node n ns) = lacks_node m n && lacks_nodes m ns

-- What is written, where anything is, holds no `m`.
abbrev Clean : ℕ → Option Text → Type 0
Clean m none = Unit
Clean m (some s) = has_unit m s ≡ false

plus-Clean : (m : ℕ) (a b : Option Text) → Clean m a → Clean m b → Clean m (plus a b)
plus-Clean m none b h k = tt
plus-Clean m (some s) none h k = tt
plus-Clean m (some s) (some t) h k = rw (any-append, h) k

for_each-Clean :
    (m : ℕ) (body : Value → Option Text) (xs : List Value)
    → ((x : Value) → Clean m (body x))
    → Clean m (for_each body xs)
for_each-Clean m body [] h = refl
for_each-Clean m body (x ∷ xs) h = plus-Clean m (body x) _ (h x) (for_each-Clean m body xs h)

variable_text-Clean :
    (m : ℕ) (t : Option Text) → is_markup m ≡ true → Clean m (variable_text false t)
unfolding variable_text
variable_text-Clean m none h = tt
variable_text-Clean m (some s) h = has_unit-escape_html m s h

mutual
  unfolding render_nodes lacks_nodes

  render_node-Clean :
      (m : ℕ) (n : Node) (contexts : List Value)
      → is_markup m ≡ true
      → lacks_node m n ≡ true
      → Clean m (render_node n contexts)
  render_node-Clean m (plain s) contexts h k = ground arith
  render_node-Clean m (variable path true) contexts h k = cc
  render_node-Clean m (variable path false) contexts h k = variable_text-Clean m _ h
  render_node-Clean m (block when path children) contexts h k =
      let inside = render_nodes-Clean m children contexts h k in
      elim (Bool-cases (truthy (resolve path contexts))) [ inl e ↦ rw e inside | inr e ↦ rw e refl ]
  render_node-Clean m (block each path children) contexts h k =
      for_each-Clean m _ (items_of (resolve path contexts))
        (λ x. render_nodes-Clean m children (x ∷ contexts) h k)

  render_nodes-Clean :
      (m : ℕ) (ns : Nodes) (contexts : List Value)
      → is_markup m ≡ true
      → lacks_nodes m ns ≡ true
      → Clean m (render_nodes ns contexts)
  render_nodes-Clean m Nodes.nil contexts h k = refl
  render_nodes-Clean m (Nodes.node n ns) contexts h k =
      plus-Clean m (render_node n contexts) _ (render_node-Clean m n contexts h (ground arith))
        (render_nodes-Clean m ns contexts h (ground arith))

-- Whatever the contexts hold, nodes without raw variables write `<`, `>`, `"` or `'` only where one of
-- their own texts has it.
pub has_unit-render_nodes :
    (m : ℕ) (ns : Nodes) (contexts : List Value) (out : Text)
    → is_markup m ≡ true
    → lacks_nodes m ns ≡ true
    → render_nodes ns contexts ≡ some out
    → has_unit m out ≡ false
has_unit-render_nodes m ns contexts out h k e =
    subst (Clean m) e (render_nodes-Clean m ns contexts h k)
