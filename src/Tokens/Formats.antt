-- ===== src/Tokens/Formats.antt =====
-- The formats that the schemas ask for, said once more (src/auth/validation.ts), and the token that
-- accepted parameters should give (src/auth/token-service.ts).
use personal_knowledge_mcp.Base.{
  Bool, List, Option, Text, [], ap, arith, codes, drop, every, false, if◌then◌else◌, is_white, leb,
  length, none, or_default, refl, some, starts_with, suc, trim, true, zero, ℕ, ◌&&◌, ◌*◌, ◌+◌, ◌==◌,
  ◌||◌, ◌∙◌, ◌∷◌, ◌≡◌,
}
use personal_knowledge_mcp.Tokens.Validation.{
  GenerateTokenParams, InstanceAccess, StoredToken, TokenScope, ValidatedParams, is_hex,
  is_lifetime, is_name_char, is_nonempty, is_raw_token, is_token_hash, is_token_name, new_metadata,
  parse_params, public_access, read,
}

abbrev within : ℕ → ℕ → ℕ → Bool
within low high c = leb low c && leb c high

-- Exactly so many lower-case hexadecimal digits.
abbrev pub hex_digits : ℕ → Text → Bool
hex_digits zero [] = true
hex_digits zero (c ∷ s) = false
hex_digits (suc n) [] = false
hex_digits (suc n) (c ∷ s) = (within 48 57 c || within 97 102 c) && hex_digits n s

hex-lem : (c : ℕ) → is_hex c ≡ (within 48 57 c || within 97 102 c)
hex-lem c = ground arith

length-hex : (n : ℕ) (s : Text) → (length s == n && every is_hex s) ≡ hex_digits n s
length-hex zero [] = refl
length-hex zero (c ∷ s) = ground arith
length-hex (suc n) [] = ground arith
length-hex (suc n) (c ∷ s) = ground (arith, length-hex n s, hex-lem c)

pub hash-lem : (hash : Text) → is_token_hash hash ≡ hex_digits 64 hash
unfolding is_token_hash
hash-lem hash = length-hex 64 hash

-- The prefix, and then so many digits.
abbrev pub prefixed_hex : Text → ℕ → Text → Bool
prefixed_hex [] n s = hex_digits n s
prefixed_hex (c ∷ p) n [] = false
prefixed_hex (c ∷ p) n (d ∷ s) = c == d && prefixed_hex p n s

prefixed-lem :
    (p : Text) (n : ℕ) (s : Text)
    → (starts_with p s && (length s == length p + n && every is_hex (drop (length p) s)))
      ≡ prefixed_hex p n s
prefixed-lem [] n s = ground (arith, length-hex n s)
prefixed-lem (c ∷ p) n [] = refl
prefixed-lem (c ∷ p) n (d ∷ s) = ground (arith, prefixed-lem p n s)

and_assoc : (a b c : Bool) → (a && b && c) ≡ (a && (b && c))
and_assoc a b c = ground arith

pub raw-lem : (raw : Text) → is_raw_token raw ≡ prefixed_hex (codes "pk_mcp_") 32 raw
unfolding is_raw_token
raw-lem raw =
    and_assoc (starts_with (codes "pk_mcp_") raw) (length raw == 39) (every is_hex (drop 7 raw))
    ∙ prefixed-lem (codes "pk_mcp_") 32 raw

abbrev allowed : ℕ → Bool
allowed c =
    within 97 122 c
    || (within 65 90 c || (within 48 57 c || (within 45 46 c || (c == 95 || is_white c))))

allowed-lem : (c : ℕ) → is_name_char c ≡ allowed c
allowed-lem c = ground arith

abbrev all_allowed : Text → Bool
all_allowed [] = true
all_allowed (c ∷ s) = allowed c && all_allowed s

every-allowed : (s : Text) → every is_name_char s ≡ all_allowed s
every-allowed [] = refl
every-allowed (c ∷ s) = rw (allowed-lem c, every-allowed s)

-- A list that is left out or has something in it, and a lifetime of a year at most.
abbrev is_given {ℓ} : {A : Type ℓ} → Option (List A) → Bool
is_given none = true
is_given (some []) = false
is_given (some (x ∷ xs)) = true

abbrev is_year : Option ℕ → Bool
is_year none = true
is_year (some n) = within 1 (365 * 24 * 60 * 60) n

abbrev pub is_accepted : GenerateTokenParams → Bool
is_accepted p =
    within 1 100 (length (trim p.name))
    && (all_allowed (trim p.name)
        && (is_given p.scopes && (is_given p.instance_access && is_year p.expires_in_seconds)))

given-lem {ℓ} :
    {A : Type ℓ} (o : Option (List A)) (d : A) → is_nonempty (or_default o (d ∷ [])) ≡ is_given o
given-lem none d = refl
given-lem (some []) d = refl
given-lem (some (x ∷ xs)) d = refl

year-lem : (o : Option ℕ) → is_lifetime o ≡ is_year o
year-lem none = refl
year-lem (some n) = refl

-- The token that accepted parameters give.
abbrev pub fresh : Text → ℕ → GenerateTokenParams → StoredToken
fresh hash now p = record {
  token_hash = hash;
  metadata = record {
    name = trim p.name;
    created_at = now;
    expires_at = elim p.expires_in_seconds [ none ↦ none | some n ↦ some (now + n * 1000) ];
    scopes = or_default p.scopes (read ∷ []);
    instance_access = or_default p.instance_access (public_access ∷ []);
    last_used_at = none;
    use_count = some 0;
  };
  revoked = false;
  revoked_at = none;
}

abbrev pub issued_as : Text → ℕ → Option ValidatedParams → Option StoredToken → Option StoredToken
issued_as h now none old = old
issued_as h now (some p) old =
    some
      (record { token_hash = h; metadata = new_metadata now p; revoked = false; revoked_at = none })

tests-lem : (a b c d e : Bool) → (a && b && c && d && e) ≡ (a && (b && (c && (d && e))))
tests-lem a b c d e = ground arith

accepted-lem :
    (name : Text) (scopes : Option (List TokenScope)) (access : Option (List InstanceAccess))
    (lifetime : Option ℕ)
    → (within 1 100 (length name)
        && every is_name_char name
        && is_nonempty (or_default scopes (read ∷ []))
        && is_nonempty (or_default access (public_access ∷ []))
        && is_lifetime lifetime)
      ≡ (within 1 100 (length name)
          && (all_allowed name && (is_given scopes && (is_given access && is_year lifetime))))
accepted-lem name scopes access lifetime =
    rw
      (every-allowed name, given-lem scopes read, given-lem access public_access, year-lem lifetime)
      (tests-lem (within 1 100 (length name)) (all_allowed name) (is_given scopes) (is_given access)
        (is_year lifetime))

parsed-lem :
    (h : Text) (now : ℕ) (b : Bool) (p : ValidatedParams) (old : Option StoredToken)
    → issued_as h now (if b then some p else none) old
      ≡ (if b then issued_as h now (some p) old else old)
parsed-lem h now true p old = refl
parsed-lem h now false p old = refl

pub issued-fresh :
    (h : Text) (now : ℕ) (p : GenerateTokenParams) (old : Option StoredToken)
    → issued_as h now (parse_params p) old ≡ (if is_accepted p then some (fresh h now p) else old)
unfolding parse_params is_token_name
issued-fresh h now p old =
    parsed-lem h now _ _ old
    ∙ ap (λ b. if b then some (fresh h now p) else old)
        (accepted-lem (trim p.name) p.scopes p.instance_access p.expires_in_seconds)
