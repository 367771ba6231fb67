-- ===== src/Tokens/Finds.antt =====
-- What is found of a token after the changes that a call makes (src/auth/token-service.ts).
use personal_knowledge_mcp.Base.{
  List, Option, Text, [], ap, arith, false, if-elim, if_neg, if_pos, if◌then◌else◌, ite, none, refl,
  some, sym, true, ℕ, ℕ_discrete, ◌∙◌, ◌∷◌, ◌≡◌,
}
use personal_knowledge_mcp.JsMap.Defs.{delete, get, set}
use personal_knowledge_mcp.JsMap.Laws.{get-set, has-delete, has-set}
use personal_knowledge_mcp.Tokens.Service.{is_expired, used}
use personal_knowledge_mcp.Tokens.Store.{
  Flight, Reply, Text-discrete, TokenMap, TokenStore, find_token, has_token,
}
use personal_knowledge_mcp.Tokens.Validation.{StoredToken}
use mathlib.Core.Option

abbrev pub idle : TokenMap → List (Text × StoredToken) → ℕ → TokenStore
idle cache objects next = record {
  token_cache = cache;
  objects = objects;
  flights = [];
  next = next;
}

abbrev pub token_at : Text → TokenStore → Option StoredToken
token_at h s = find_token h s.token_cache s.objects

pub get-one : (n : ℕ) (f : Flight) → get ℕ_discrete n ((n, f) ∷ []) ≡ some f
unfolding get
get-one n f = ground arith

pub set-one : (n : ℕ) (f g : Flight) → set ℕ_discrete n g ((n, f) ∷ []) ≡ (n, g) ∷ []
unfolding set
set-one n f g = ground arith

pub delete-one : (n : ℕ) (f : Flight) → delete ℕ_discrete n ((n, f) ∷ []) ≡ []
unfolding delete
delete-one n f = ground arith

pub find-set :
    (q h : Text) (t : StoredToken) (tokens : TokenMap) (objects : List (Text × StoredToken))
    → find_token q (set Text-discrete h tt tokens) (set Text-discrete h t objects)
      ≡ ite (Text-discrete h q) (some t) (find_token q tokens objects)
find-set q h t tokens objects =
    ground (arith, has-set Text-discrete h q tt tokens, get-set Text-discrete h q t objects)

pub find-write :
    (q h : Text) (t : StoredToken) (tokens : TokenMap) (objects : List (Text × StoredToken))
    → has_token h tokens ≡ true
    → find_token q tokens (set Text-discrete h t objects)
      ≡ ite (Text-discrete h q) (some t) (find_token q tokens objects)
find-write q h t tokens objects k = elim (Text-discrete h q) [
  | yes e ↦
      ground (arith, ap (λ (x : Text). has_token x tokens) e, get-set Text-discrete h q t objects)
  | no e ↦ ground (arith, get-set Text-discrete h q t objects)
]

pub find-delete :
    (q h : Text) (tokens : TokenMap) (objects : List (Text × StoredToken))
    → find_token q (delete Text-discrete h tokens) objects
      ≡ ite (Text-discrete h q) none (find_token q tokens objects)
find-delete q h tokens objects = ground (arith, has-delete Text-discrete h q tokens)

pub find-absent :
    (q h : Text) (tokens : TokenMap) (objects : List (Text × StoredToken))
    → has_token h tokens ≡ false
    → find_token q tokens objects ≡ ite (Text-discrete h q) none (find_token q tokens objects)
find-absent q h tokens objects e =
    ground (arith, λ (p : h ≡ q). ap (λ (x : Text). has_token x tokens) p)

-- A change of the token that a call finds, seen from any hash.
module _ (F : Text → Option StoredToken) (q h : Text) (o : Option StoredToken)
    (f : StoredToken → StoredToken) (e : F h ≡ o) where
  pub map-at :
      ite (Text-discrete h q) (Option.map f o) (F q)
      ≡ ite (Text-discrete h q) (Option.map f (F q)) (F q)
  map-at = elim (Text-discrete h q) [
    | yes p ↦
        if_pos (Text-discrete h q) p (Option.map f o) (F q)
        ∙ ap (Option.map f) (sym e ∙ ap F p)
        ∙ sym (if_pos (Text-discrete h q) p (Option.map f (F q)) (F q))
    | no n ↦
        if_neg (Text-discrete h q) n (Option.map f o) (F q)
        ∙ sym (if_neg (Text-discrete h q) n (Option.map f (F q)) (F q))
  ]

  pub map-same : Option.map f o ≡ o → F q ≡ ite (Text-discrete h q) (Option.map f (F q)) (F q)
  map-same keep = elim (Text-discrete h q) [
    | yes p ↦
        sym (ap F p)
        ∙ e
        ∙ sym keep
        ∙ ap (Option.map f) (sym e ∙ ap F p)
        ∙ sym (if_pos (Text-discrete h q) p (Option.map f (F q)) (F q))
    | no n ↦ sym (if_neg (Text-discrete h q) n (Option.map f (F q)) (F q))
  ]

pub ite-same : {A C : Type 0} (d : Dec A) (c : C) → c ≡ ite d c c
ite-same (yes p) c = refl
ite-same (no n) c = refl

pub find-has :
    (h : Text) (t : StoredToken) (tokens : TokenMap) (objects : List (Text × StoredToken))
    → find_token h tokens objects ≡ some t
    → has_token h tokens ≡ true
find-has h t tokens objects e = ground arith

-- What a validation makes of a token, and a revocation.
abbrev pub touch : ℕ → StoredToken → StoredToken
touch now t = if t.revoked then t else if is_expired now t.metadata then t else used now t

abbrev pub revoke_it : ℕ → StoredToken → StoredToken
revoke_it now t = record t { revoked = true; revoked_at = some now }

pub touch-revoked : (now : ℕ) (t : StoredToken) → t.revoked ≡ true → touch now t ≡ t
touch-revoked now t e = ground arith

pub touch-expired : (now : ℕ) (t : StoredToken) → is_expired now t.metadata ≡ true → touch now t ≡ t
touch-expired now t e =
    if-elim (λ u. u ≡ t) t.revoked t (if is_expired now t.metadata then t else used now t)
      (λ y. refl)
      λ y. if-elim (λ u. u ≡ t) (is_expired now t.metadata) t (used now t) (λ z. refl) (λ z. cc)

pub touch-used :
    (now : ℕ) (t : StoredToken)
    → t.revoked ≡ false
    → is_expired now t.metadata ≡ false
    → touch now t ≡ used now t
touch-used now t e x =
    if-elim (λ u. u ≡ used now t) t.revoked t (if is_expired now t.metadata then t else used now t)
      (λ y. cc)
      λ y.
        if-elim (λ u. u ≡ used now t) (is_expired now t.metadata) t (used now t) (λ z. cc)
          (λ z. refl)

-- The token of a hash afterwards, and that no call is left.
abbrev pub Fits : Text → Option StoredToken → TokenStore × List (ℕ × Reply) → Type 0
Fits h want (s, out) = (token_at h s ≡ want) × (s.flights ≡ [])
