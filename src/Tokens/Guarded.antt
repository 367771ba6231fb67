-- ===== src/Tokens/Guarded.antt =====
-- What keeps a revoked token revoked, task by task (src/auth/token-service.ts).
-- A token that is found is the one in memory.
use personal_knowledge_mcp.Base.{
  Bool, List, Option, Text, ap, arith, false, if-elim, if_neg, none, refl, some, true, ℕ, ◌≡◌, ◌≢◌,
}
use personal_knowledge_mcp.JsMap.Defs.{delete, get, set}
use personal_knowledge_mcp.Tokens.Marked.{
  IsRevoked, Refuses, accepts, adds, land-IsRevoked, revoked_in, save_tokens-IsRevoked,
  write_object-IsRevoked,
}
use personal_knowledge_mcp.Tokens.Service.{
  at_flight, checked, continue_task, end_save, is_expired, proceed, revoked_at, save_reply, used,
}
use personal_knowledge_mcp.Tokens.Store.{
  Flight, Purpose, Reply, Task, Text-discrete, TokenMap, TokenStore, add_token, change, check_token,
  find_token, has_token, load_tokens, loaded, mark_revoked, new_token, remove_token, saving,
  usage_stats, write_object,
}
use personal_knowledge_mcp.Tokens.Validation.{StoredToken}

pub find-revoked :
    (h g : Text) (tokens : TokenMap) (t : StoredToken) (s : TokenStore)
    → revoked_in h s.objects ≡ true
    → find_token g tokens s.objects ≡ some t
    → g ≡ h
    → t.revoked ≡ true
find-revoked h g tokens t s r e p =
    ground (arith, ap (λ (k : Text). get Text-discrete k s.objects) p)

pub checked-Refuses :
    (h : Text) (now n : ℕ) (g : Text) (tokens : TokenMap) (o : Option StoredToken) (s : TokenStore)
    → IsRevoked h s
    → ((t : StoredToken) → o ≡ some t → g ≡ h → t.revoked ≡ true)
    → Refuses h (checked now n g tokens o s)
unfolding checked
checked-Refuses h now n g tokens none s r k = (land-IsRevoked h n s r, refl)
checked-Refuses h now n g tokens (some t) s r k =
    if-elim (Refuses h) t.revoked _ _ (λ e. (land-IsRevoked h n s r, refl))
      λ e.
        if-elim (Refuses h) (is_expired now t.metadata) _ _ (λ x. (land-IsRevoked h n s r, refl))
          λ x.
            let other : g ≢ h = λ p. cc (k t refl p) in
            (
              save_tokens-IsRevoked h n tokens usage_stats (write_object g (used now t) s)
                  (write_object-IsRevoked h g (used now t) s r (λ p. absurd (other p))),
              if_neg (Text-discrete g h) other true false,
            )

pub revoked_at-Refuses :
    (h : Text) (now n : ℕ) (g : Text) (tokens : TokenMap) (o : Option StoredToken) (s : TokenStore)
    → IsRevoked h s
    → Refuses h (revoked_at now n g tokens o s)
unfolding revoked_at
revoked_at-Refuses h now n g tokens none s r = (land-IsRevoked h n s r, refl)
revoked_at-Refuses h now n g tokens (some t) s r = (
  save_tokens-IsRevoked h n tokens change
      (write_object g (record t { revoked = true; revoked_at = some now }) s)
      (write_object-IsRevoked h g (record t { revoked = true; revoked_at = some now }) s r
        (λ p. refl)),
  refl,
)

pub continue_task-Refuses :
    (h : Text) (now n : ℕ) (task : Task) (tokens : TokenMap) (s : TokenStore)
    → IsRevoked h s
    → adds h (loaded task tokens) ≡ false
    → Refuses h (continue_task now n task tokens s)
unfolding continue_task
continue_task-Refuses h now n (add_token g m) tokens s r k =
    let t : StoredToken = record {
      token_hash = g;
      metadata = m;
      revoked = false;
      revoked_at = none;
    } in
    (
      save_tokens-IsRevoked h n (set Text-discrete g tt tokens) (new_token g m) (write_object g t s)
          (write_object-IsRevoked h g t s r (λ p. ground (arith, p))),
      refl,
    )
continue_task-Refuses h now n (check_token g) tokens s r k =
    checked-Refuses h now n g tokens (find_token g tokens s.objects) s r
      (λ t e p. find-revoked h g tokens t s r.in_memory e p)
continue_task-Refuses h now n (mark_revoked g) tokens s r k =
    revoked_at-Refuses h now n g tokens (find_token g tokens s.objects) s r
continue_task-Refuses h now n (remove_token g) tokens s r k =
    if-elim (Refuses h) (has_token g tokens) _ _
      (λ e. (save_tokens-IsRevoked h n (delete Text-discrete g tokens) change s r, refl))
      (λ e. (land-IsRevoked h n s r, refl))

pub proceed-Refuses :
    (h : Text) (now n : ℕ) (f : Flight) (s : TokenStore)
    → IsRevoked h s
    → adds h f ≡ false
    → Refuses h (proceed now n f s)
unfolding proceed
proceed-Refuses h now n (loaded task tokens) s r k = continue_task-Refuses h now n task tokens s r k
proceed-Refuses h now n (saving tokens purpose) s r k = (r, refl)

pub save_reply-accepts :
    (h : Text) (written : Bool) (n : ℕ) (purpose : Purpose)
    → accepts h (save_reply written n purpose) ≡ false
save_reply-accepts h true n (new_token g m) = refl
save_reply-accepts h true n change = refl
save_reply-accepts h true n usage_stats = refl
save_reply-accepts h false n (new_token g m) = refl
save_reply-accepts h false n change = refl
save_reply-accepts h false n usage_stats = refl

pub end_save-Refuses :
    (h : Text) (written : Bool) (n : ℕ) (f : Flight) (s : TokenStore)
    → IsRevoked h s
    → Refuses h (end_save written n f s)
unfolding end_save
end_save-Refuses h written n (loaded task tokens) s r = (r, refl)
end_save-Refuses h true n (saving tokens purpose) s r = (
  land-IsRevoked h n (record s { token_cache = tokens })
      (record { in_memory = r.in_memory; unadded = r.unadded }),
  save_reply-accepts h true n purpose,
)
end_save-Refuses h false n (saving tokens purpose) s r =
    (land-IsRevoked h n s r, save_reply-accepts h false n purpose)

pub at_flight-Refuses :
    (h : Text) (act : Flight → TokenStore → TokenStore × List (ℕ × Reply)) (o : Option Flight)
    (s : TokenStore)
    → IsRevoked h s
    → ((f : Flight) → o ≡ some f → Refuses h (act f s))
    → Refuses h (at_flight act o s)
at_flight-Refuses h act none s r k = (r, refl)
at_flight-Refuses h act (some f) s r k = k f refl

pub load_tokens-IsRevoked :
    (h : Text) (task : Task) (s : TokenStore)
    → IsRevoked h s
    → adds h (loaded task s.token_cache) ≡ false
    → IsRevoked h (load_tokens task s)
load_tokens-IsRevoked h task s r k = record {
  in_memory = r.in_memory;
  unadded = ground (arith, r.unadded, k);
}
