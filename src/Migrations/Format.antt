-- ===== src/Migrations/Format.antt =====
-- The format of a version, said once more (src/graph/migration/MigrationRunner.ts).
use personal_knowledge_mcp.Base.{
  Bool, List, Text, [], arith, false, if◌then◌else◌, leb, length, refl, true, ℕ, ◌&&◌, ◌-◌, ◌==◌,
  ◌||◌, ◌∙◌, ◌∷◌, ◌≡◌,
}
use personal_knowledge_mcp.Migrations.Registry.{is_version_format, matches_format}

abbrev is_digit : ℕ → Bool
is_digit c = leb 48 c && leb c 57

abbrev digits : Text → Bool
digits [] = true
digits (c ∷ s) = is_digit c && digits s

abbrev is_number : Text → Bool
is_number [] = false
is_number (c ∷ s) = is_digit c && digits s

-- The part before the first dot, and those after it.
abbrev dot_parts : Text → Text × List Text
dot_parts [] = ([], [])
dot_parts (c ∷ s) =
    let (part, parts) = dot_parts s in if c == b'.' then ([], part ∷ parts) else (c ∷ part, parts)

abbrev all_numbers : List Text → Bool
all_numbers [] = true
all_numbers (s ∷ ss) = is_number s && all_numbers ss

abbrev any_char : Text → Bool
any_char [] = false
any_char (c ∷ s) = true

abbrev continued : ℕ → Bool → Text × List Text → Bool
continued dots seen (part, parts) =
    length parts == dots && ((seen || any_char part) && (digits part && all_numbers parts))

-- Three numbers, with dots between them.
abbrev pub is_three_numbers : Text → Bool
is_three_numbers s =
    let (part, parts) = dot_parts s in length parts == 2 && (is_number part && all_numbers parts)

number-lem : (s : Text) → is_number s ≡ (any_char s && digits s)
number-lem [] = refl
number-lem (c ∷ s) = refl

next-lem :
    (dots c : ℕ) (seen : Bool) (r : Text × List Text)
    → ((is_digit c || c == 46 && seen && leb 1 dots)
        && continued (if is_digit c then dots else dots - 1) (is_digit c) r)
      ≡ continued dots seen (if c == 46 then ([], r.0 ∷ r.1) else (c ∷ r.0, r.1))
next-lem dots c seen (part, parts) = ground (arith, number-lem part)

matches-lem :
    (dots : ℕ) (seen : Bool) (s : Text)
    → matches_format dots seen s ≡ continued dots seen (dot_parts s)
unfolding matches_format
matches-lem dots seen [] = ground arith
matches-lem dots seen (c ∷ s) =
    rw (matches-lem (if is_digit c then dots else dots - 1) (is_digit c) s)
      (next-lem dots c seen (dot_parts s))

last-lem :
    (r : Text × List Text)
    → continued 2 false r ≡ (length r.1 == 2 && (is_number r.0 && all_numbers r.1))
last-lem (part, parts) = ground (arith, number-lem part)

pub format-lem : (s : Text) → is_version_format s ≡ is_three_numbers s
format-lem s = matches-lem 2 false s ∙ last-lem (dot_parts s)
