-- ===== src/Core/Addresses.antt =====
-- Which addresses `sameMailbox` takes for one mailbox.
use postbag.Common.{
  ℕ, suc, ◌≡◌, refl, sym, ap, ◌∙◌, Bool, true, false, not, none, some, [], ◌∷◌, ◌++◌, ◌==◌,
  if◌then◌else◌, arith, inl, inr, Bool-cases, length, length-append, take, drop, take-length,
  drop-length, keep, Text, codes, teq_iff, index_of, last_index_of, trim, ◌↔◌,
}
use postbag.Core.Mailbox.{
  at_sign, plus_sign, dot, lower_unit, to_lower_case, is_gmail, cut_at, join_parts, normalize_at,
  normalize_mailbox, same_mailbox,
}

-- A local part and a domain that make an address with no white space around it.
pub record IsAddress (local domain : Text) : Type 0 where
  pub trimmed : trim (local ++ (at_sign ∷ domain)) ≡ local ++ (at_sign ∷ domain)
  pub local_given : (length local == 0) ≡ false
  pub domain_given : (length domain == 0) ≡ false
  pub one_domain : last_index_of at_sign domain ≡ none

-- The lowered local part without its tag, and without its dots.
abbrev pub base : Text → Text
base local = cut_at (index_of plus_sign (to_lower_case local)) (to_lower_case local)

abbrev pub undotted : Text → Text
undotted s = keep (λ c. not (c == dot)) s

lower-append : (s t : Text) → to_lower_case (s ++ t) ≡ to_lower_case s ++ to_lower_case t
lower-append [] t = refl
lower-append (c ∷ s) t = ap (λ (r : Text). lower_unit c ∷ r) (lower-append s t)

length-lower : (s : Text) → length (to_lower_case s) ≡ length s
length-lower [] = refl
length-lower (c ∷ s) = ap suc (length-lower s)

last_none :
    (c : ℕ) (s : Text)
    → last_index_of at_sign (c ∷ s) ≡ none
    → ((c == at_sign) ≡ false) × (last_index_of at_sign s ≡ none)
last_none c s h = ground arith

lower_no_at :
    (s : Text) → last_index_of at_sign s ≡ none → last_index_of at_sign (to_lower_case s) ≡ none
lower_no_at [] h = refl
lower_no_at (c ∷ s) h =
    let (a, b) = last_none c s h in
    let ih = lower_no_at s b in
    let n : (lower_unit c == at_sign) ≡ false = ground arith in rw (ih, n) refl

last_at :
    (s d : Text)
    → last_index_of at_sign d ≡ none
    → last_index_of at_sign (s ++ (at_sign ∷ d)) ≡ some (length s)
last_at [] d h = rw h refl
last_at (c ∷ s) d h = rw (last_at s d h) refl

normalize_at_lem :
    (l d : Text)
    → (length l == 0) ≡ false
    → (length d == 0) ≡ false
    → normalize_at (some (length l)) (l ++ (at_sign ∷ d))
      ≡ join_parts (cut_at (index_of plus_sign l) l) d
normalize_at_lem l d h k =
    let n : (suc (length l) == length (l ++ (at_sign ∷ d))) ≡ false =
      ground (arith, length-append l (at_sign ∷ d)) in
    rw (h, n, take-length l (at_sign ∷ d), drop-length l d at_sign) refl

normalize-address :
    (local domain : Text)
    → IsAddress local domain
    → normalize_mailbox (local ++ (at_sign ∷ domain))
      ≡ join_parts (base local) (to_lower_case domain)
unfolding normalize_mailbox
normalize-address local domain v =
    rw
      (
        v.trimmed,
        lower-append local (at_sign ∷ domain),
        last_at (to_lower_case local) (to_lower_case domain) (lower_no_at domain v.one_domain),
      )
      (normalize_at_lem (to_lower_case local) (to_lower_case domain)
        (ap (λ n. n == 0) (length-lower local) ∙ v.local_given)
        (ap (λ n. n == 0) (length-lower domain) ∙ v.domain_given))

some-injective : {a b : ℕ} → some a ≡ some b → a ≡ b
some-injective h = cc

-- An address has one last separator.
split_at :
    (a b d e : Text)
    → last_index_of at_sign d ≡ none
    → last_index_of at_sign e ≡ none
    → a ++ (at_sign ∷ d) ≡ b ++ (at_sign ∷ e)
    → (a ≡ b) × (d ≡ e)
split_at a b d e h k p =
    let n : length a ≡ length b =
      some-injective (sym (last_at a d h) ∙ (ap (last_index_of at_sign) p ∙ last_at b e k)) in
    (
      sym (take-length a (at_sign ∷ d))
          ∙ (ap (take (length a)) p
              ∙ (ap (λ m. take m (b ++ (at_sign ∷ e))) n ∙ take-length b (at_sign ∷ e))),
      sym (drop-length a d at_sign)
          ∙ (ap (drop (suc (length a))) p
              ∙ (ap (λ m. drop (suc m) (b ++ (at_sign ∷ e))) n ∙ drop-length b e at_sign)),
    )

-- What is compared: the local part, and the domain.
abbrev pub identity : Text → Text → Text × Text
identity local domain =
    if is_gmail (to_lower_case domain)
    then (undotted (base local), codes "gmail.com")
    else (base local, to_lower_case domain)

abbrev joined : Text × Text → Text
joined p = p.0 ++ (at_sign ∷ p.1)

join_lem :
    (b : Bool) (l d : Text)
    → (if b then undotted l ++ (at_sign ∷ codes "gmail.com") else l ++ (at_sign ∷ d))
      ≡ joined (if b then (undotted l, codes "gmail.com") else (l, d))
join_lem true l d = refl
join_lem false l d = refl

normalized :
    (local domain : Text)
    → IsAddress local domain
    → normalize_mailbox (local ++ (at_sign ∷ domain)) ≡ joined (identity local domain)
normalized local domain v =
    normalize-address local domain v
    ∙ join_lem (is_gmail (to_lower_case domain)) (base local) (to_lower_case domain)

identity_no_at :
    (local domain : Text)
    → IsAddress local domain
    → last_index_of at_sign (identity local domain).1 ≡ none
identity_no_at local domain v = elim (Bool-cases (is_gmail (to_lower_case domain))) [
  | inl e ↦ rw e refl
  | inr e ↦ rw e (lower_no_at domain v.one_domain)
]

-- Two addresses are one mailbox exactly when, after lowering, they agree in the domain, where the
-- two names of Gmail are one, and in the local part up to its tag, and on Gmail up to its dots.
pub same_mailbox_iff :
    (local domain name host : Text)
    → IsAddress local domain
    → IsAddress name host
    → (same_mailbox (local ++ (at_sign ∷ domain)) (name ++ (at_sign ∷ host)) ≡ true)
      ↔ (identity local domain ≡ identity name host)
unfolding same_mailbox
same_mailbox_iff local domain name host v w = (
  λ h.
      let p = sym (normalized local domain v) ∙ ((teq_iff _ _).0 h ∙ normalized name host w) in
      let (a, b) =
        split_at _ _ _ _ (identity_no_at local domain v) (identity_no_at name host w) p in
      λ i. (a i, b i),
  λ h. (teq_iff _ _).1 (normalized local domain v ∙ (ap joined h ∙ sym (normalized name host w))),
)
