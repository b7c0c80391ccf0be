-- ===== src/Core/Mailbox.antt =====
-- packages/core/src/email.ts: two addresses of one mailbox. `toLowerCase` is modelled on the
-- letters of ASCII.
use postbag.Common.{
  ℕ, zero, suc, ◌+◌, Bool, ◌&&◌, ◌||◌, not, Option, none, some, ◌∷◌, ◌++◌, map, ◌==◌, leb,
  if◌then◌else◌, length, take, drop, keep, Text, codes, teq, index_of, last_index_of, trim,
}

abbrev pub at_sign : ℕ
at_sign = 64

abbrev pub plus_sign : ℕ
plus_sign = 43

abbrev pub dot : ℕ
dot = 46

abbrev pub lower_unit : ℕ → ℕ
lower_unit c = if leb 65 c && leb c 90 then c + 32 else c

abbrev pub to_lower_case : Text → Text
to_lower_case s = map lower_unit s

abbrev pub is_gmail : Text → Bool
is_gmail domain = teq domain (codes "gmail.com") || teq domain (codes "googlemail.com")

-- `if (plus > 0) local = local.slice(0, plus)`
abbrev pub cut_at : Option ℕ → Text → Text
cut_at none local = local
cut_at (some zero) local = local
cut_at (some (suc p)) local = take (suc p) local

abbrev pub join_parts : Text → Text → Text
join_parts local domain =
    if is_gmail domain
    then keep (λ c. not (c == dot)) local ++ (at_sign ∷ codes "gmail.com")
    else local ++ (at_sign ∷ domain)

abbrev pub normalize_at : Option ℕ → Text → Text
normalize_at none lowered = lowered
normalize_at (some at) lowered =
    if (at == 0) || (suc at == length lowered)
    then lowered
    else join_parts (cut_at (index_of plus_sign (take at lowered)) (take at lowered))
        (drop (suc at) lowered)

unfoldable pub normalize_mailbox : Text → Text
normalize_mailbox email =
    let lowered = to_lower_case (trim email) in normalize_at (last_index_of at_sign lowered) lowered

unfoldable pub same_mailbox : Text → Text → Bool
same_mailbox a b = teq (normalize_mailbox a) (normalize_mailbox b)
