-- ===== src/UserMapping/Chosen.antt =====
-- Which rule decides (src/auth/user-mapping/user-mapping-service.ts).
use personal_knowledge_mcp.Base.{
  List, Option, Text, [], ap, arith, false, if-elim, leb, leb→le, lt_of_not-leb, none, refl, some,
  subst, sym, true, ℕ, ◌++◌, ◌<◌, ◌∷◌, ◌≡◌, ◌≤◌,
}
use personal_knowledge_mcp.UserMapping.Service.{
  NormalizedClaims, UserMappingRule, first_match, sorted_active_rules,
}
use personal_knowledge_mcp.UserMapping.Sorted.{better, chosen, first_match-chosen, is_active_match}

module _ (to_lower_case : Text → Text) (claims : NormalizedClaims) where
  -- Every rule of a list that applies has a priority up to the bound.
  abbrev pub AllUpTo : ℕ → List UserMappingRule → Type 0
  AllUpTo n [] = Unit
  AllUpTo n (r ∷ rs) =
      (is_active_match to_lower_case claims r ≡ true → r.priority ≤ n) × AllUpTo n rs

  abbrev pub AllBelow : ℕ → List UserMappingRule → Type 0
  AllBelow n [] = Unit
  AllBelow n (r ∷ rs) =
      (is_active_match to_lower_case claims r ≡ true → r.priority < n) × AllBelow n rs

  abbrev pub NoneApplies : List UserMappingRule → Type 0
  NoneApplies [] = Unit
  NoneApplies (r ∷ rs) = (is_active_match to_lower_case claims r ≡ false) × NoneApplies rs

  -- The rule that should decide.
  abbrev pub Decides : List UserMappingRule → Option UserMappingRule → Type 0
  Decides rules none = NoneApplies rules
  Decides rules (some r) =
      (is_active_match to_lower_case claims r ≡ true)
      × ((before : List UserMappingRule) × (after : List UserMappingRule) × (rules
            ≡ before ++ r ∷ after)
          × AllBelow r.priority before
          × AllUpTo r.priority after)

  NoneApplies-AllUpTo : (n : ℕ) (rs : List UserMappingRule) → NoneApplies rs → AllUpTo n rs
  NoneApplies-AllUpTo n [] h = tt
  NoneApplies-AllUpTo n (r ∷ rs) h = (λ e. cc (h.0), NoneApplies-AllUpTo n rs h.1)

  AllUpTo-le : (m n : ℕ) (rs : List UserMappingRule) → m ≤ n → AllUpTo m rs → AllUpTo n rs
  AllUpTo-le m n [] h k = tt
  AllUpTo-le m n (r ∷ rs) h k = (λ e. omega (arith, k.0 e, h), AllUpTo-le m n rs h k.1)

  AllUpTo-append :
      (n m : ℕ) (before after : List UserMappingRule) (j : UserMappingRule)
      → j.priority ≤ n
      → AllBelow j.priority before
      → AllUpTo j.priority after
      → AllUpTo n (before ++ j ∷ after)
  AllUpTo-append n m [] after j h b a = (λ e. h, AllUpTo-le j.priority n after h a)
  AllUpTo-append n m (r ∷ before) after j h b a =
      (λ e. omega (arith, b.0 e, h), AllUpTo-append n m before after j h b.1 a)

  better-Decides :
      (r : UserMappingRule) (rs : List UserMappingRule) (o : Option UserMappingRule)
      → is_active_match to_lower_case claims r ≡ true
      → Decides rs o
      → Decides (r ∷ rs) (better to_lower_case claims r o)
  better-Decides r rs none e d = (e, ([], rs, refl, tt, NoneApplies-AllUpTo r.priority rs d))
  better-Decides r rs (some j) e (a, (before, after, same, below, upto)) =
      if-elim (Decides (r ∷ rs)) (leb j.priority r.priority) _ _
        (λ h. (
          e,
          (
            [],
            rs,
            refl,
            tt,
            subst (AllUpTo r.priority) (sym same) (
                AllUpTo-append r.priority 0 before after j (leb→le j.priority r.priority h) below
                  upto),
          ),
        ))
        (λ h. (
          a,
          (
            r ∷ before,
            after,
            ap (◌∷◌ r) same,
            ((λ x. lt_of_not-leb j.priority r.priority h), below),
            upto,
          ),
        ))

  skip-Decides :
      (r : UserMappingRule) (rs : List UserMappingRule) (o : Option UserMappingRule)
      → is_active_match to_lower_case claims r ≡ false
      → Decides rs o
      → Decides (r ∷ rs) o
  skip-Decides r rs none e d = (e, d)
  skip-Decides r rs (some j) e (a, (before, after, same, below, upto)) =
      (a, (r ∷ before, after, ap (◌∷◌ r) same, ((λ x. cc), below), upto))

  chosen-Decides :
      (rules : List UserMappingRule) → Decides rules (chosen to_lower_case claims rules)
  chosen-Decides [] = tt
  chosen-Decides (r ∷ rs) =
      if-elim (Decides (r ∷ rs)) (is_active_match to_lower_case claims r) _ _
        (λ e. better-Decides r rs (chosen to_lower_case claims rs) e (chosen-Decides rs))
        (λ e. skip-Decides r rs (chosen to_lower_case claims rs) e (chosen-Decides rs))

  -- exact
  pub first_match-Decides :
      (rules : List UserMappingRule)
      → Decides rules (first_match to_lower_case claims (sorted_active_rules rules))
  first_match-Decides rules =
      subst (Decides rules) (sym (first_match-chosen to_lower_case claims rules))
        (chosen-Decides rules)
