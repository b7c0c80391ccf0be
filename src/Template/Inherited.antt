-- ===== src/Template/Inherited.antt =====
-- Paths that read what every JavaScript object inherits.
use postbag.Common.{
  ◌≡◌, refl, none, codes, ap, sym, subst, [], ◌∷◌, ◌++◌, some, false, true, Text, Has, inl, inr,
  List, any, teq, if◌then◌else◌,
}
use postbag.Json.Values.{Fields, obj, own}
use postbag.Json.Read.{Found, value, method, missing, prototype, read}
use postbag.Template.Render.{
  Rendered, render_template, type_error, resolve, value_text, variable_text, plus, given,
}

-- The template that shows a variable.
abbrev pub shown : Text → Text
shown name = codes "{{" ++ (name ++ codes "}}")

-- The methods of `Object.prototype`, as the language lists them.
abbrev pub methods : List Text
methods =
    codes "constructor"
    ∷ codes "hasOwnProperty"
    ∷ codes "isPrototypeOf"
    ∷ codes "propertyIsEnumerable"
    ∷ codes "toLocaleString"
    ∷ codes "toString"
    ∷ codes "valueOf"
    ∷ codes "__defineGetter__"
    ∷ codes "__defineSetter__"
    ∷ codes "__lookupGetter__"
    ∷ codes "__lookupSetter__"
    ∷ []

read_method :
    (fs : Fields) (name : Text)
    → any (teq name) methods ≡ true
    → own name fs ≡ none
    → read (value (obj fs)) name ≡ method
unfolding read
read_method fs name m h =
    rw (read, h)
      (ap (λ b. if b then method else if teq name (codes "__proto__") then prototype else missing)
        m)

-- Of the contexts, the only one gives what it reads.
found_method :
    (f : Found)
    → f ≡ method
    → (elim f as (λ x. Found) [
      | missing ↦ missing
      | value v ↦ value v
      | method ↦ method
      | prototype ↦ prototype
    ])
      ≡ method
found_method f e =
    ap
      (λ (z : Found). elim z as (λ x. Found) [
        | missing ↦ missing
        | value v ↦ value v
        | method ↦ method
        | prototype ↦ prototype
      ])
      e

abbrev text_given : Found → Rendered
text_given f = given (plus (variable_text false (value_text f)) (some []))

moved :
    (fs : Fields) (n name : Text)
    → n ≡ name
    → own name fs ≡ none
    → (own n fs ≡ none → render_template (shown n) (obj fs) ≡ type_error)
    → render_template (shown name) (obj fs) ≡ type_error
moved fs n name e h r =
    subst (λ z. render_template (shown z) (obj fs) ≡ type_error) e
      (r (subst (λ z. own z fs ≡ none) (sym e) h))

-- A template that shows a variable with the name of a method that every object inherits is not rendered
-- where the data has no field of that name: the read gives the inherited function, which has no JSON text,
-- and escaping throws a TypeError.
pub render_template-inherited :
    (fs : Fields) (name : Text)
    → Has name methods
    → own name fs ≡ none
    → render_template (shown name) (obj fs) ≡ type_error
unfolding render_template resolve value_text variable_text
render_template-inherited fs name (inl e) h =
    moved fs (codes "constructor") name e h
      (λ k. ap text_given (found_method _ (read_method fs (codes "constructor") refl k)))
render_template-inherited fs name (inr (inl e)) h =
    moved fs (codes "hasOwnProperty") name e h
      (λ k. ap text_given (found_method _ (read_method fs (codes "hasOwnProperty") refl k)))
render_template-inherited fs name (inr (inr (inl e))) h =
    moved fs (codes "isPrototypeOf") name e h
      (λ k. ap text_given (found_method _ (read_method fs (codes "isPrototypeOf") refl k)))
render_template-inherited fs name (inr (inr (inr (inl e)))) h =
    moved fs (codes "propertyIsEnumerable") name e h
      (λ k. ap text_given (found_method _ (read_method fs (codes "propertyIsEnumerable") refl k)))
render_template-inherited fs name (inr (inr (inr (inr (inl e))))) h =
    moved fs (codes "toLocaleString") name e h
      (λ k. ap text_given (found_method _ (read_method fs (codes "toLocaleString") refl k)))
render_template-inherited fs name (inr (inr (inr (inr (inr (inl e)))))) h =
    moved fs (codes "toString") name e h
      (λ k. ap text_given (found_method _ (read_method fs (codes "toString") refl k)))
render_template-inherited fs name (inr (inr (inr (inr (inr (inr (inl e))))))) h =
    moved fs (codes "valueOf") name e h
      (λ k. ap text_given (found_method _ (read_method fs (codes "valueOf") refl k)))
render_template-inherited fs name (inr (inr (inr (inr (inr (inr (inr (inl e)))))))) h =
    moved fs (codes "__defineGetter__") name e h
      (λ k. ap text_given (found_method _ (read_method fs (codes "__defineGetter__") refl k)))
render_template-inherited fs name (inr (inr (inr (inr (inr (inr (inr (inr (inl e))))))))) h =
    moved fs (codes "__defineSetter__") name e h
      (λ k. ap text_given (found_method _ (read_method fs (codes "__defineSetter__") refl k)))
render_template-inherited fs name (inr (inr (inr (inr (inr (inr (inr (inr (inr (inl e)))))))))) h =
    moved fs (codes "__lookupGetter__") name e h
      (λ k. ap text_given (found_method _ (read_method fs (codes "__lookupGetter__") refl k)))
render_template-inherited fs name
      (inr (inr (inr (inr (inr (inr (inr (inr (inr (inr (inl e))))))))))) h =
    moved fs (codes "__lookupSetter__") name e h
      (λ k. ap text_given (found_method _ (read_method fs (codes "__lookupSetter__") refl k)))
render_template-inherited fs name
      (inr (inr (inr (inr (inr (inr (inr (inr (inr (inr (inr m))))))))))) h =
    absurd m
