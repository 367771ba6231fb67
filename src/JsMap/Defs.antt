-- ===== src/JsMap/Defs.antt =====
-- The operations of the map. `delete` removes the entry of a key, of which there is one at most.
use personal_knowledge_mcp.Base.{Bool, List, Option, [], is_some, ite, none, some, ◌∷◌}

module _ {ℓ} {K V : Type ℓ} (dec : Discrete K) where
  unfoldable pub get : K → List (K × V) → Option V
  get k [] = none
  get k ((j, v) ∷ m) = ite (dec j k) (some v) (get k m)

  unfoldable pub set : K → V → List (K × V) → List (K × V)
  set k v [] = (k, v) ∷ []
  set k v ((j, w) ∷ m) = ite (dec j k) ((j, v) ∷ m) ((j, w) ∷ set k v m)

  unfoldable pub delete : K → List (K × V) → List (K × V)
  delete k [] = []
  delete k ((j, v) ∷ m) = let rest = delete k m in ite (dec j k) rest ((j, v) ∷ rest)

  unfoldable pub has : K → List (K × V) → Bool
  has k m = is_some (get k m)
