-- ===== src/JsMap/Laws.antt =====
-- The laws of the map.
use personal_knowledge_mcp.Base.{
  List, [], arith, false, if_neg, if_pos, ite, length, none, refl, some, sym, true, ℕ, ◌+◌, ◌∷◌,
  ◌≡◌, ◌≢◌, ◌≤◌,
}
use personal_knowledge_mcp.JsMap.Defs.{delete, get, has, set}
use mathlib.Core.Bool.{Bool-discrete}

module _ {ℓ} {K V : Type ℓ} (dec : Discrete K) where
  -- No key stands twice.
  abbrev pub IsMap : List (K × V) → Type 0
  IsMap [] = Unit
  IsMap ((j, v) ∷ m) = (has dec j m ≡ false) × IsMap m

  pub get-set_self : (k : K) (v : V) (m : List (K × V)) → get dec k (set dec k v m) ≡ some v
  unfolding get set
  get-set_self k v [] = ground arith
  get-set_self k v ((j, w) ∷ m) = ground (arith, get-set_self k v m)

  pub get-set_ne :
      (k q : K) (v : V) (m : List (K × V)) → q ≢ k → get dec q (set dec k v m) ≡ get dec q m
  unfolding get set
  get-set_ne k q v [] h = ground arith
  get-set_ne k q v ((j, w) ∷ m) h = ground (arith, get-set_ne k q v m)

  -- What a map holds after a write, in one equation.
  pub get-set :
      (k q : K) (v : V) (m : List (K × V))
      → get dec q (set dec k v m) ≡ ite (dec k q) (some v) (get dec q m)
  get-set k q v m = elim (dec k q) [
    | yes e ↦ rw (if_pos _ e, ← e, get-set_self k v m)
    | no n ↦ rw (if_neg _ n, get-set_ne k q v m (λ e. n (sym e)))
  ]

  pub get-delete_self : (k : K) (m : List (K × V)) → get dec k (delete dec k m) ≡ none
  unfolding get delete
  get-delete_self k [] = refl
  get-delete_self k ((j, w) ∷ m) = ground (arith, get-delete_self k m)

  pub get-delete_ne :
      (k q : K) (m : List (K × V)) → q ≢ k → get dec q (delete dec k m) ≡ get dec q m
  unfolding get delete
  get-delete_ne k q [] h = refl
  get-delete_ne k q ((j, w) ∷ m) h = ground (arith, get-delete_ne k q m)

  pub has-set :
      (k q : K) (v : V) (m : List (K × V))
      → has dec q (set dec k v m) ≡ ite (dec q k) true (has dec q m)
  unfolding has
  has-set k q v m = elim (dec q k) [
    | yes e ↦ rw (if_pos _ e, e, get-set_self k v m)
    | no n ↦ rw (if_neg _ n, get-set_ne k q v m n)
  ]

  pub has-delete :
      (k q : K) (m : List (K × V)) → has dec q (delete dec k m) ≡ ite (dec q k) false (has dec q m)
  unfolding has
  has-delete k q m = elim (dec q k) [
    | yes e ↦ rw (if_pos _ e, e, get-delete_self k m)
    | no n ↦ rw (if_neg _ n, get-delete_ne k q m n)
  ]

  pub set-IsMap : (k : K) (v : V) (m : List (K × V)) → IsMap m → IsMap (set dec k v m)
  unfolding set has get
  set-IsMap k v [] h = (refl, tt)
  set-IsMap k v ((j, w) ∷ m) h = ground (arith, set-IsMap k v m, get-set_ne k j v m)

  pub delete-IsMap : (k : K) (m : List (K × V)) → IsMap m → IsMap (delete dec k m)
  unfolding delete has get
  delete-IsMap k [] h = tt
  delete-IsMap k ((j, w) ∷ m) h = ground (arith, delete-IsMap k m, get-delete_ne k j m)

  pub length-set :
      (k : K) (v : V) (m : List (K × V))
      → length (set dec k v m)
        ≡ ite {C = ℕ} (Bool-discrete (has dec k m) true) (length m) (length m + 1)
  unfolding set has get
  length-set k v [] = ground arith
  length-set k v ((j, w) ∷ m) = ground (arith, length-set k v m)

  pub delete_absent : (k : K) (m : List (K × V)) → has dec k m ≡ false → delete dec k m ≡ m
  unfolding delete has get
  delete_absent k [] h = refl
  delete_absent k ((j, w) ∷ m) h = ground (arith, delete_absent k m)

  pub length-delete :
      (k : K) (m : List (K × V))
      → IsMap m
      → has dec k m ≡ true
      → length (delete dec k m) + 1 ≡ length m
  unfolding delete has get
  length-delete k [] h p = cc
  length-delete k ((j, w) ∷ m) h p = ground (arith, delete_absent k m, length-delete k m)

  pub length-delete-le : (k : K) (m : List (K × V)) → length (delete dec k m) ≤ length m
  unfolding delete
  length-delete-le k [] = omega arith
  length-delete-le k ((j, w) ∷ m) = ground (arith, length-delete-le k m)

  pub length-set-le : (k : K) (v : V) (m : List (K × V)) → length (set dec k v m) ≤ length m + 1
  length-set-le k v m = ground (arith, length-set k v m)
