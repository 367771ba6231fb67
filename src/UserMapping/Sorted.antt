-- ===== src/UserMapping/Sorted.antt =====
-- The first match among the sorted rules (src/auth/user-mapping/user-mapping-service.ts).
use personal_knowledge_mcp.Base.{
  Bool, Bool-cases, List, Option, Text, [], ap, arith, false, filter_by, if-elim, if-false, if-true,
  if◌then◌else◌, inl, inr, leb, leb→le, le→leb, none, refl, some, sym, true, ℕ, ◌&&◌, ◌∙◌, ◌∷◌, ◌≡◌,
  ◌≤◌,
}
use personal_knowledge_mcp.UserMapping.Service.{
  NormalizedClaims, UserMappingRule, first_match, insert_by_priority, matches_rule,
  sort_by_priority, sorted_active_rules,
}

module _ (to_lower_case : Text → Text) (claims : NormalizedClaims) where
  abbrev pub is_active_match : UserMappingRule → Bool
  is_active_match r = r.enabled && matches_rule to_lower_case r claims

  -- The rule with the highest priority so far, the earlier one where they are equal.
  abbrev pub better : UserMappingRule → Option UserMappingRule → Option UserMappingRule
  better r none = some r
  better r (some j) = if leb j.priority r.priority then some r else some j

  abbrev pub chosen : List UserMappingRule → Option UserMappingRule
  chosen [] = none
  chosen (r ∷ rs) = if is_active_match r then better r (chosen rs) else chosen rs

  abbrev pub IsBelowHead : ℕ → List UserMappingRule → Type 0
  IsBelowHead n [] = Unit
  IsBelowHead n (r ∷ rs) = (r.priority ≤ n) × IsBelowHead n rs

  abbrev pub IsByPriority : List UserMappingRule → Type 0
  IsByPriority [] = Unit
  IsByPriority (r ∷ rs) = IsBelowHead r.priority rs × IsByPriority rs

  pub IsBelowHead-le :
      (m n : ℕ) (rs : List UserMappingRule) → m ≤ n → IsBelowHead m rs → IsBelowHead n rs
  IsBelowHead-le m n [] h k = tt
  IsBelowHead-le m n (r ∷ rs) h k = (omega (arith, k.0, h), IsBelowHead-le m n rs h k.1)

  pub insert-IsBelowHead :
      (n : ℕ) (r : UserMappingRule) (rs : List UserMappingRule)
      → r.priority ≤ n
      → IsBelowHead n rs
      → IsBelowHead n (insert_by_priority r rs)
  unfolding insert_by_priority
  insert-IsBelowHead n r [] h k = (h, tt)
  insert-IsBelowHead n r (x ∷ xs) h k =
      if-elim (IsBelowHead n) (leb x.priority r.priority) _ _ (λ e. (h, k))
        (λ e. (k.0, insert-IsBelowHead n r xs h k.1))

  pub insert-IsByPriority :
      (r : UserMappingRule) (rs : List UserMappingRule)
      → IsByPriority rs
      → IsByPriority (insert_by_priority r rs)
  unfolding insert_by_priority
  insert-IsByPriority r [] h = (tt, tt)
  insert-IsByPriority r (x ∷ xs) h =
      if-elim IsByPriority (leb x.priority r.priority) _ _
        (λ e. (
          (
            leb→le x.priority r.priority e,
            IsBelowHead-le x.priority r.priority xs (leb→le x.priority r.priority e) h.0,
          ),
          h,
        ))
        (λ e. (insert-IsBelowHead x.priority r xs (ground arith) h.0, insert-IsByPriority r xs h.1))

  pub sort-IsByPriority : (rs : List UserMappingRule) → IsByPriority (sort_by_priority rs)
  unfolding sort_by_priority
  sort-IsByPriority [] = tt
  sort-IsByPriority (r ∷ rs) = insert-IsByPriority r (sort_by_priority rs) (sort-IsByPriority rs)

  -- What is found among rules up to a priority is none or up to it, so that it does not win.
  pub better-first :
      (r : UserMappingRule) (rs : List UserMappingRule)
      → IsBelowHead r.priority rs
      → better r (first_match to_lower_case claims rs) ≡ some r
  unfolding first_match
  better-first r [] h = refl
  better-first r (x ∷ xs) h =
      if-elim (λ o. better r o ≡ some r) (matches_rule to_lower_case x claims) _ _
        (λ e.
          if-true (leb x.priority r.priority) (some r) (some x) (le→leb x.priority r.priority h.0))
        (λ e. better-first r xs h.1)

  pub better-swap :
      (r x : UserMappingRule) (o : Option UserMappingRule) (a b : Bool)
      → leb x.priority r.priority ≡ false
      → (if a then some x else (if b then better r o else o))
        ≡ (if b then better r (if a then some x else o) else (if a then some x else o))
  better-swap r x o true true e = sym (if-false (leb x.priority r.priority) (some r) (some x) e)
  better-swap r x o true false e = refl
  better-swap r x o false b e = refl

  pub first-insert :
      (r : UserMappingRule) (rs : List UserMappingRule)
      → IsByPriority rs
      → first_match to_lower_case claims (insert_by_priority r rs) ≡ (
          if matches_rule to_lower_case r claims
          then better r (first_match to_lower_case claims rs)
          else first_match to_lower_case claims rs)
  unfolding first_match insert_by_priority
  first-insert r [] h = refl
  first-insert r (x ∷ xs) h = elim (Bool-cases (leb x.priority r.priority)) [
    | inl e ↦
        ap (first_match to_lower_case claims)
          (if-true (leb x.priority r.priority) (r ∷ x ∷ xs) (x ∷ insert_by_priority r xs) e)
        ∙ ap
            (λ o.
              if matches_rule to_lower_case r claims
              then o
              else first_match to_lower_case claims (x ∷ xs))
            (sym (
              better-first r (x ∷ xs) (
                leb→le x.priority r.priority e,
                IsBelowHead-le x.priority r.priority xs (leb→le x.priority r.priority e) h.0,
              )))
    | inr e ↦
        ap (first_match to_lower_case claims)
          (if-false (leb x.priority r.priority) (r ∷ x ∷ xs) (x ∷ insert_by_priority r xs) e)
        ∙ ap (λ o. if matches_rule to_lower_case x claims then some x else o)
            (first-insert r xs h.1)
        ∙ better-swap r x (first_match to_lower_case claims xs)
            (matches_rule to_lower_case x claims) (matches_rule to_lower_case r claims) e
  ]

  pub active-insert :
      (b : Bool) (r : UserMappingRule) (rs : List UserMappingRule)
      → first_match to_lower_case claims (sort_by_priority (elim b [ true ↦ r ∷ rs | false ↦ rs ]))
        ≡ (if b && matches_rule to_lower_case r claims
            then better r (first_match to_lower_case claims (sort_by_priority rs))
            else first_match to_lower_case claims (sort_by_priority rs))
  unfolding sort_by_priority
  active-insert true r rs = first-insert r (sort_by_priority rs) (sort-IsByPriority rs)
  active-insert false r rs = refl

  pub first_match-chosen :
      (rules : List UserMappingRule)
      → first_match to_lower_case claims (sorted_active_rules rules) ≡ chosen rules
  unfolding sorted_active_rules sort_by_priority first_match
  first_match-chosen [] = refl
  first_match-chosen (r ∷ rules) =
      active-insert r.enabled r (filter_by (λ x. x.enabled) rules)
      ∙ ap (λ o. if is_active_match r then better r o else o) (first_match-chosen rules)
