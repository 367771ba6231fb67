-- ===== src/UpdateJobs/Flights.antt =====
-- The updates in flight, counted by repository (src/mcp/tools/trigger-incremental-update.ts).
use personal_knowledge_mcp.Base.{
  List, [], arith, false, refl, some, ℕ, ℕ_discrete, ◌+◌, ◌<◌, ◌∷◌, ◌≡◌,
}
use personal_knowledge_mcp.JsMap.Defs.{delete, get, has, set}
use personal_knowledge_mcp.JsMap.Laws.{IsMap, delete_absent}
use personal_knowledge_mcp.UpdateJobs.Server.{Flight}

module _ {K I : Type 0} (dec : Discrete K) where
  abbrev pub flies_for : K → Flight K I → ℕ
  flies_for r f = elim (dec f.repository r) [ yes _ ↦ 1 | no _ ↦ 0 ]

  -- The number of updates of the repository that are in flight.
  unfoldable pub count_flights : K → List (ℕ × Flight K I) → ℕ
  count_flights r [] = 0
  count_flights r ((n, f) ∷ fs) = flies_for r f + count_flights r fs

  pub count-set :
      (r : K) (n : ℕ) (f : Flight K I) (fs : List (ℕ × Flight K I))
      → has ℕ_discrete n fs ≡ false
      → count_flights r (set ℕ_discrete n f fs) ≡ count_flights r fs + flies_for r f
  unfolding count_flights set has get
  count-set r n f [] h = ground arith
  count-set r n f ((m, g) ∷ fs) h = ground (arith, count-set r n f fs)

  pub count-delete :
      (r : K) (n : ℕ) (f : Flight K I) (fs : List (ℕ × Flight K I))
      → IsMap ℕ_discrete fs
      → get ℕ_discrete n fs ≡ some f
      → count_flights r (delete ℕ_discrete n fs) + flies_for r f ≡ count_flights r fs
  unfolding count_flights delete get has
  count-delete r n f [] h e = cc
  count-delete r n f ((m, g) ∷ fs) (absent, h) e =
      ground (arith, count-delete r n f fs h, delete_absent ℕ_discrete n fs)

module _ {K I : Type 0} where
  -- Every number of a flight has been given out.
  abbrev pub NumbersBelow : ℕ → List (ℕ × Flight K I) → Type 0
  NumbersBelow k [] = Unit
  NumbersBelow k ((n, f) ∷ fs) = (n < k) × NumbersBelow k fs

  pub next_is_new :
      (k : ℕ) (fs : List (ℕ × Flight K I)) → NumbersBelow k fs → has ℕ_discrete k fs ≡ false
  unfolding has get
  next_is_new k [] h = refl
  next_is_new k ((n, f) ∷ fs) (lt, h) = ground (arith, next_is_new k fs h)

  pub set-NumbersBelow :
      (k : ℕ) (f : Flight K I) (fs : List (ℕ × Flight K I))
      → NumbersBelow k fs
      → NumbersBelow (k + 1) (set ℕ_discrete k f fs)
  unfolding set
  set-NumbersBelow k f [] h = (omega arith, tt)
  set-NumbersBelow k f ((n, g) ∷ fs) (lt, h) = ground (arith, set-NumbersBelow k f fs h, lt)

  pub more-NumbersBelow :
      (k : ℕ) (fs : List (ℕ × Flight K I)) → NumbersBelow k fs → NumbersBelow (k + 1) fs
  more-NumbersBelow k [] h = tt
  more-NumbersBelow k ((n, f) ∷ fs) (lt, h) = (omega arith, more-NumbersBelow k fs h)

  pub delete-NumbersBelow :
      (k n : ℕ) (fs : List (ℕ × Flight K I))
      → NumbersBelow k fs
      → NumbersBelow k (delete ℕ_discrete n fs)
  unfolding delete
  delete-NumbersBelow k n [] h = tt
  delete-NumbersBelow k n ((m, f) ∷ fs) (lt, h) = ground (arith, delete-NumbersBelow k n fs h)
