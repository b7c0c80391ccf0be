-- ===== src/Core/FreshIds.antt =====
-- Identifiers that `newId` makes: when it returns, that `parseId` takes them apart, and that no
-- character is likelier than another.
use postbag.Common.{
  ℕ, zero, suc, ◌+◌, ◌%◌, ◌≤◌, ◌<◌, ◌≡◌, refl, ap, ◌∙◌, subst, Bool, true, false, ◌&&◌, not, Option,
  none, some, List, [], ◌∷◌, ◌++◌, ◌==◌, ltb, leb, if◌then◌else◌, arith, inl, inr, Bool-cases,
  length, length-append, min, any, all, count_of, get_elem?, Text, teq, teq_sound, index_of,
  take-length, drop-length, index_of-separator,
}
use postbag.Core.Identifiers.{
  id_prefixes, id_alphabet, id_length, random_ceiling, underscore, is_id_prefix, character_of,
  append_character, fill, random_value, with_prefix, new_id, in_alphabet, parse_at, parse_id,
}

-- The bytes that give a character.
abbrev pub accepted : List ℕ → ℕ
accepted bytes = count_of (λ b. ltb b random_ceiling) bytes

abbrev pub accepted_in : List (List ℕ) → ℕ
accepted_in [] = 0
accepted_in (block ∷ blocks) = accepted block + accepted_in blocks

get_in_alphabet :
    (i : ℕ) (a : Text)
    → i < length a
    → (c : ℕ) × (get_elem? a i ≡ some c) × (any (λ x. x == c) a ≡ true)
get_in_alphabet i [] h = absurd (omega arith)
get_in_alphabet zero (x ∷ a) h = (x, refl, ground arith)
get_in_alphabet (suc i) (x ∷ a) h =
    let (c, e, t) = get_in_alphabet i a (omega arith) in (c, e, ground arith)

character_of_accepted :
    (b : ℕ) → ltb b 248 ≡ true → (c : ℕ) × (character_of b ≡ some c) × (in_alphabet c ≡ true)
unfolding character_of
character_of_accepted b h =
    let (c, e, t) = get_in_alphabet (b % 31) id_alphabet (omega arith) in
    let f : leb 248 b ≡ false = ground arith in (c, rw f e, t)

character_of_rejected : (b : ℕ) → ltb b 248 ≡ false → character_of b ≡ none
unfolding character_of
character_of_rejected b h = let f : leb 248 b ≡ true = ground arith in rw f refl

-- What a value built so far satisfies.
abbrev IsPart : Text → Type 0
IsPart v = (length v ≤ 12) × (all in_alphabet v ≡ true)

all-append : (p : ℕ → Bool) (xs ys : Text) → all p (xs ++ ys) ≡ (all p xs && all p ys)
all-append p [] ys = refl
all-append p (x ∷ xs) ys = ground (arith, all-append p xs ys)

append_lem :
    (b : ℕ) (v : Text)
    → IsPart v
    → length v < 12
    → IsPart (append_character v (character_of b))
      × (length (append_character v (character_of b)) ≡ length v + (if ltb b 248 then 1 else 0))
append_lem b v p h = elim (Bool-cases (ltb b 248)) [
  | inl e ↦
      let (c, f, t) = character_of_accepted b e in
      let l = length-append v (c ∷ []) in
      let k = all-append in_alphabet v (c ∷ []) in
      rw (f, e) (((omega (arith, l)), k ∙ rw (p.1, t) refl), l)
  | inr e ↦ rw (character_of_rejected b e, e) (p, omega arith)
]

fill_lem :
    (bytes : List ℕ) (v : Text)
    → IsPart v
    → length v < 12
    → IsPart (fill bytes v) × (length (fill bytes v) ≡ min 12 (length v + accepted bytes))
unfolding fill
fill_lem [] v p h = (p, omega arith)
fill_lem (b ∷ bytes) v p h =
    let (q, l) = append_lem b v p h in
    elim (Bool-cases (length (append_character v (character_of b)) == 12)) [
      | inl e ↦ rw e (q, ground arith)
      | inr e ↦ rw e (
          let (r, m) = fill_lem bytes (append_character v (character_of b)) q (ground arith) in
          (r, ground arith))
    ]

random_value_lem :
    (blocks : List (List ℕ)) (v : Text)
    → IsPart v
    → 12 ≤ length v + accepted_in blocks
    → (w : Text) × (random_value blocks v ≡ some w) × (length w ≡ 12) × (all in_alphabet w ≡ true)
unfolding random_value
random_value_lem [] v p h = (v, ground arith, omega (arith, p.0), p.1)
random_value_lem (block ∷ blocks) v p h = elim (Bool-cases (ltb (length v) 12)) [
  | inl e ↦
      let (q, l) = fill_lem block v p (ground arith) in
      let (w, f, r, a) = random_value_lem blocks (fill block v) q (omega (arith, l)) in
      (w, rw e f, r, a)
  | inr e ↦ (v, rw e refl, ground arith, p.1)
]

-- What is needed of a prefix.
abbrev splits : Text → Bool
splits p = elim (index_of underscore p) [ some i ↦ false | none ↦ not (length p == 0) ]

prefixes_split : all splits id_prefixes ≡ true
prefixes_split = refl

all_named :
    (ps : List Text) (x : Text)
    → all splits ps ≡ true
    → any (λ p. teq p x) ps ≡ true
    → splits x ≡ true
all_named [] x h k = cc
all_named (p ∷ ps) x h k = elim (Bool-cases (teq p x)) [
  | inl e ↦ subst (λ z. splits z ≡ true) (teq_sound p x e) (ground arith)
  | inr e ↦ all_named ps x (ground arith) (ground arith)
]

splits_lem :
    (p : Text) → splits p ≡ true → (index_of underscore p ≡ none) × (ltb (length p) 1 ≡ false)
splits_lem p h = ground arith

parsed_at :
    (prefix v : Text)
    → ltb (length prefix) 1 ≡ false
    → is_id_prefix prefix ≡ true
    → length v ≡ 12
    → all in_alphabet v ≡ true
    → parse_at (some (length prefix)) (prefix ++ (underscore ∷ v))
      ≡ some (record { prefix = prefix; value = v })
parsed_at prefix v k h l a =
    rw (take-length prefix (underscore ∷ v), drop-length prefix v underscore, k, h, l, a) refl

parsed :
    (prefix v : Text)
    → is_id_prefix prefix ≡ true
    → length v ≡ 12
    → all in_alphabet v ≡ true
    → parse_id (prefix ++ (underscore ∷ v)) ≡ some (record { prefix = prefix; value = v })
unfolding parse_id
parsed prefix v h l a =
    let (i, k) = splits_lem prefix (all_named id_prefixes prefix prefixes_split h) in
    rw (index_of-separator underscore prefix v i) (parsed_at prefix v k h l a)

bytes_below : ℕ → List ℕ
bytes_below zero = []
bytes_below (suc n) = n ∷ bytes_below n

abbrev pub gives : ℕ → Option ℕ → Bool
gives c none = false
gives c (some d) = d == c

-- How many of the 256 bytes give the character.
unfoldable pub bytes_for : ℕ → ℕ
unfolding bytes_below character_of
bytes_for c = count_of (λ b. gives c (character_of b)) (bytes_below 256)

all_eight : all (λ c. bytes_for c == 8) id_alphabet ≡ true
unfolding bytes_for
all_eight = refl

all_of :
    (p : ℕ → Bool) (xs : Text) (c : ℕ) → all p xs ≡ true → any (λ a. a == c) xs ≡ true → p c ≡ true
all_of p [] c h k = cc
all_of p (x ∷ xs) c h k = elim (Bool-cases (x == c)) [
  | inl e ↦ let f : x ≡ c = ground arith in subst (λ z. p z ≡ true) f (ground arith)
  | inr e ↦ all_of p xs c (ground arith) (ground arith)
]

-- Every character of the alphabet comes from exactly eight of the 256 bytes.
pub bytes_for_lem : (c : ℕ) → in_alphabet c ≡ true → bytes_for c ≡ 8
bytes_for_lem c h = let k = all_of (λ c. bytes_for c == 8) id_alphabet c all_eight h in ground arith

new_id_lem :
    (prefix : Text) (blocks : List (List ℕ)) (w : Text)
    → random_value blocks [] ≡ some w
    → new_id prefix blocks ≡ some (prefix ++ (underscore ∷ w))
unfolding new_id
new_id_lem prefix blocks w h = ap (with_prefix prefix) h

-- As soon as the random blocks hold twelve bytes below the ceiling, `newId` returns, and the
-- identifier parses to the prefix it was made for and to a value of twelve characters of the alphabet.
pub parse_id-new_id :
    (prefix : Text) (blocks : List (List ℕ))
    → is_id_prefix prefix ≡ true
    → 12 ≤ accepted_in blocks
    → (id value : Text) × (new_id prefix blocks ≡ some id)
      × (parse_id id ≡ some (record { prefix = prefix; value = value }))
      × (length value ≡ id_length)
      × (all in_alphabet value ≡ true)
parse_id-new_id prefix blocks h enough =
    let (w, e, l, a) = random_value_lem blocks [] (omega arith, refl) (omega (arith, enough)) in
    (prefix ++ (underscore ∷ w), w, new_id_lem prefix blocks w e, parsed prefix w h l a, l, a)
