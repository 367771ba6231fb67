-- ===== src/Tokens/Finish.antt =====
-- One call from its copy of the map to the end of its save (src/auth/token-service.ts).
use personal_knowledge_mcp.Base.{
  List, Option, Text, [], ap, false, if-elim, ite, none, refl, some, sym, true, ℕ, ◌++◌, ◌+◌, ◌∙◌,
  ◌∷◌, ◌≡◌,
}
use personal_knowledge_mcp.JsMap.Defs.{delete, get, set}
use personal_knowledge_mcp.Tokens.Finds.{
  Fits, delete-one, find-absent, find-delete, find-has, find-set, find-write, get-one, map-at,
  map-same, revoke_it, set-one, touch, touch-expired, touch-revoked, touch-used,
}
use personal_knowledge_mcp.Tokens.Service.{
  checked, continue_task, continues, end_save, is_expired, proceed, revoked_at, run, saved, step,
  used,
}
use personal_knowledge_mcp.Tokens.Store.{
  Purpose, Reply, Task, Text-discrete, TokenMap, TokenStore, add_token, answer, change, check_token,
  expired, find_token, has_token, land, loaded, mark_revoked, new_token, not_found, not_valid,
  remove_token, revoked, save_tokens, saving, usage_stats, valid, validation,
}
use personal_knowledge_mcp.Tokens.Validation.{StoredToken, TokenMetadata}
use mathlib.Core.Option

module _ (sha256 : Text → Text) where
  abbrev pub running : Task → TokenMap → List (Text × StoredToken) → ℕ → TokenStore
  running task cache objects n = record {
    token_cache = cache;
    objects = objects;
    flights = (n, loaded task cache) ∷ [];
    next = n + 1;
  }

  -- A call that only lands, and one that writes the token of its hash and saves the same map.
  module _ (h : Text) (later end : ℕ) (cache : TokenMap) (objects : List (Text × StoredToken))
      (n : ℕ) where
    abbrev pub finish : Task → TokenStore × List (ℕ × Reply)
    finish task =
        run sha256 ((later, continues n) ∷ (end, saved n true) ∷ []) (running task cache objects n)

    -- The end of the save, if there is one.
    abbrev pub after : TokenStore × List (ℕ × Reply) → TokenStore × List (ℕ × Reply)
    after (s, out) = let (s1, rest) = run sha256 ((end, saved n true) ∷ []) s in (s1, out ++ rest)

    pub finish-after :
        (task : Task)
        → finish task ≡ after (continue_task later n task cache (running task cache objects n))
    unfolding run step proceed
    finish-after task = rw (get-one n (loaded task cache))

    -- It ends as one call with a save does, or as one that has nothing to save.
    pub after-saved :
        (task : Task) (tokens : TokenMap) (purpose : Purpose) (new : List (Text × StoredToken))
        (out : List (ℕ × Reply)) (want : Option StoredToken)
        → find_token h tokens new ≡ want
        → Fits h want (after (save_tokens n tokens purpose (running task cache new n), out))
    unfolding run step end_save
    after-saved task tokens purpose new out want e =
        rw
          (
            set-one n (loaded task cache) (saving tokens purpose),
            get-one n (saving tokens purpose),
            delete-one n (saving tokens purpose),
          )
          (e, refl)

    pub after-landed :
        (task : Task) (out : List (ℕ × Reply)) (want : Option StoredToken)
        → find_token h cache objects ≡ want
        → Fits h want (after (land n (running task cache objects n), out))
    unfolding run step get
    after-landed task out want e = rw (delete-one n (loaded task cache)) (e, refl)

    pub finish-add :
        (g : Text) (m : TokenMetadata)
        → Fits h
            (ite
              (Text-discrete g h)
              (some (record { token_hash = g; metadata = m; revoked = false; revoked_at = none }))
              (find_token h cache objects))
            (finish (add_token g m))
    unfolding continue_task
    finish-add g m =
        let t : StoredToken = record {
          token_hash = g;
          metadata = m;
          revoked = false;
          revoked_at = none;
        } in
        rw (finish-after (add_token g m)) (
          after-saved (add_token g m) (set Text-discrete g tt cache) (new_token g m)
            (set Text-discrete g t objects) [] _ (find-set h g t cache objects))

    pub finish-remove :
        (g : Text)
        → Fits h
            (ite (Text-discrete g h) none (find_token h cache objects))
            (finish (remove_token g))
    unfolding continue_task
    finish-remove g = rw (finish-after (remove_token g)) (
        if-elim (λ r. Fits h (ite (Text-discrete g h) none (find_token h cache objects)) (after r))
          (has_token g cache) _ _
          (λ e.
            after-saved (remove_token g) (delete Text-discrete g cache) change objects [] _
              (find-delete h g cache objects))
          (λ e.
            after-landed (remove_token g) ((n, answer false) ∷ []) _
              (find-absent h g cache objects e)))

    abbrev pub touched : Text → Option StoredToken
    touched g =
        ite (Text-discrete g h) (Option.map (touch later) (find_token h cache objects))
          (find_token h cache objects)

    pub checked-Fits :
        (g : Text) (o : Option StoredToken)
        → find_token g cache objects ≡ o
        → Fits h
            (ite
              (Text-discrete g h)
              (Option.map (touch later) (find_token h cache objects))
              (find_token h cache objects))
            (after (checked later n g cache o (running (check_token g) cache objects n)))
    unfolding checked
    checked-Fits g none e =
        after-landed (check_token g) ((n, validation g (not_valid not_found)) ∷ []) _
          (map-same (λ q. find_token q cache objects) h g none (touch later) e refl)
    checked-Fits g (some t) e =
        if-elim (λ r. Fits h (touched g) (after r)) t.revoked _ _
          (λ r. after-landed (check_token g) ((n, validation g (not_valid revoked)) ∷ []) _ (
            map-same (λ q. find_token q cache objects) h g (some t) (touch later) e
              (ap some (touch-revoked later t r))))
          λ r.
            if-elim (λ r. Fits h (touched g) (after r)) (is_expired later t.metadata) _ _
              (λ x. after-landed (check_token g) ((n, validation g (not_valid expired)) ∷ []) _ (
                map-same (λ q. find_token q cache objects) h g (some t) (touch later) e
                  (ap some (touch-expired later t x))))
              λ x.
                after-saved (check_token g) cache usage_stats
                  (set Text-discrete g (used later t) objects)
                  ((n, validation g (valid (used later t).metadata)) ∷ []) _
                  (find-write h g (used later t) cache objects (find-has g t cache objects e)
                    ∙ ap (λ u. ite (Text-discrete g h) (some u) (find_token h cache objects))
                        (sym (touch-used later t r x))
                    ∙ map-at (λ q. find_token q cache objects) h g (some t) (touch later) e)

    pub revoked-Fits :
        (g : Text) (o : Option StoredToken)
        → find_token g cache objects ≡ o
        → Fits h
            (ite
              (Text-discrete g h)
              (Option.map (revoke_it later) (find_token h cache objects))
              (find_token h cache objects))
            (after (revoked_at later n g cache o (running (mark_revoked g) cache objects n)))
    unfolding revoked_at
    revoked-Fits g none e =
        after-landed (mark_revoked g) ((n, answer false) ∷ []) _
          (map-same (λ q. find_token q cache objects) h g none (revoke_it later) e refl)
    revoked-Fits g (some t) e =
        after-saved (mark_revoked g) cache change (set Text-discrete g (revoke_it later t) objects)
          [] _
          (find-write h g (revoke_it later t) cache objects (find-has g t cache objects e)
            ∙ map-at (λ q. find_token q cache objects) h g (some t) (revoke_it later) e)

    pub finish-check :
        (g : Text)
        → Fits h
            (ite
              (Text-discrete g h)
              (Option.map (touch later) (find_token h cache objects))
              (find_token h cache objects))
            (finish (check_token g))
    unfolding continue_task
    finish-check g =
        rw (finish-after (check_token g)) (checked-Fits g (find_token g cache objects) refl)

    pub finish-revoke :
        (g : Text)
        → Fits h
            (ite
              (Text-discrete g h)
              (Option.map (revoke_it later) (find_token h cache objects))
              (find_token h cache objects))
            (finish (mark_revoked g))
    unfolding continue_task
    finish-revoke g =
        rw (finish-after (mark_revoked g)) (revoked-Fits g (find_token g cache objects) refl)
