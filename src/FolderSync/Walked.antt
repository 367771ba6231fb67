-- ===== src/FolderSync/Walked.antt =====
-- What the walk finds (src/services/local-folder-change-detector.ts).
use personal_knowledge_mcp.Base.{
  Bool, Bool-cases, List, Option, Text, [], ap, arith, false, if_neg, if_pos, if◌then◌else◌, inl,
  inr, ite, none, refl, some, sym, true, ◌&&◌, ◌++◌, ◌||◌, ◌∙◌, ◌∷◌, ◌≡◌,
}
use personal_knowledge_mcp.FolderSync.Detector.{Snapshot}
use personal_knowledge_mcp.FolderSync.Eligibility.{FileEligibilityOptions, RelPath}
use personal_knowledge_mcp.FolderSync.Rules.{
  descend-is_walked, indexed_snapshot, is_walked, snapshot-indexed_snapshot,
}
use personal_knowledge_mcp.FolderSync.Walk.{
  Entries, Entry, Listing, RelPath-discrete, cons, directory, entries, file, file_snapshot, nil,
  put_file, special, symlink, unreadable, walk, walk_entries, walk_entry,
}
use personal_knowledge_mcp.JsMap.Defs.{get}
use personal_knowledge_mcp.JsMap.Laws.{get-set_ne, get-set_self}
use mathlib.Core.Option.{or_else}

module _ (is_ignored : RelPath → Bool) where
  -- The path is that of a file in the tree, below directories that are all walked.
  abbrev mutual
    pub holds : RelPath → RelPath → Listing → Bool
    holds p dir unreadable = false
    holds p dir (entries es) = holds_entries p dir es

    pub holds_entries : RelPath → RelPath → Entries → Bool
    holds_entries p dir nil = false
    holds_entries p dir (cons e es) = holds_entry p dir e || holds_entries p dir es

    pub holds_entry : RelPath → RelPath → Entry → Bool
    holds_entry p dir (symlink name) = false
    holds_entry p dir (directory name listing) =
        is_walked is_ignored (dir ++ name ∷ []) name && holds p (dir ++ name ∷ []) listing
    holds_entry p dir (file name) = ite (RelPath-discrete (dir ++ name ∷ []) p) true false
    holds_entry p dir (special name) = false

abbrev pub base_name : RelPath → Text
base_name [] = []
base_name (name ∷ []) = name
base_name (dir ∷ name ∷ path) = base_name (name ∷ path)

base_name-append : (dir : RelPath) (name : Text) → base_name (dir ++ name ∷ []) ≡ name
base_name-append [] name = refl
base_name-append (d ∷ []) name = refl
base_name-append (d ∷ e ∷ dir) name = base_name-append (e ∷ dir) name

or_else_twice {ℓ} : {A : Type ℓ} (a b : Option A) → or_else a (or_else a b) ≡ or_else a b
unfolding or_else
or_else_twice none b = refl
or_else_twice (some a) b = refl

module _ (opts : FileEligibilityOptions) where
  -- What the walk records of a path, over what is there already.
  abbrev seen : Bool → RelPath → Option Snapshot → Option Snapshot
  seen held p old = if held then or_else (file_snapshot opts p (base_name p)) old else old

  seen-or :
      (a b : Bool) (p : RelPath) (old : Option Snapshot)
      → seen b p (seen a p old) ≡ seen (a || b) p old
  seen-or false b p old = refl
  seen-or true false p old = refl
  seen-or true true p old = or_else_twice (file_snapshot opts p (base_name p)) old

  get-put_file :
      (p q : RelPath) (snap : Option Snapshot) (out : List (RelPath × Snapshot))
      → get RelPath-discrete p (put_file opts q snap out)
        ≡ ite
            (RelPath-discrete q p)
            (or_else snap (get RelPath-discrete p out))
            (get RelPath-discrete p out)
  unfolding or_else
  get-put_file p q none out = ground arith
  get-put_file p q (some snap) out = elim (RelPath-discrete q p) [
    | yes e ↦ rw (if_pos _ e, e, get-set_self RelPath-discrete p snap out)
    | no n ↦ rw (if_neg _ n, get-set_ne RelPath-discrete q p snap out (λ e. n (sym e)))
  ]

  get-file :
      (p q : RelPath) (name : Text) (out : List (RelPath × Snapshot))
      → base_name q ≡ name
      → get RelPath-discrete p (put_file opts q (file_snapshot opts q name) out)
        ≡ seen (ite (RelPath-discrete q p) true false) p (get RelPath-discrete p out)
  get-file p q name out h = elim (RelPath-discrete q p) [
    | yes e ↦ rw (get-put_file p q (file_snapshot opts q name) out, if_pos _ e, if_pos _ e, ← h, e)
    | no n ↦ rw (get-put_file p q (file_snapshot opts q name) out, if_neg _ n, if_neg _ n)
  ]

  mutual
    unfolding walk

    get-walk :
        (p dir : RelPath) (l : Listing) (out : List (RelPath × Snapshot))
        → get RelPath-discrete p (walk opts dir l out)
          ≡ seen (holds opts.is_ignored p dir l) p (get RelPath-discrete p out)
    get-walk p dir unreadable out = refl
    get-walk p dir (entries es) out = get-walk_entries p dir es out

    get-walk_entries :
        (p dir : RelPath) (es : Entries) (out : List (RelPath × Snapshot))
        → get RelPath-discrete p (walk_entries opts dir es out)
          ≡ seen (holds_entries opts.is_ignored p dir es) p (get RelPath-discrete p out)
    get-walk_entries p dir nil out = refl
    get-walk_entries p dir (cons e es) out =
        get-walk_entries p dir es (walk_entry opts dir e out)
        ∙ ap (seen (holds_entries opts.is_ignored p dir es) p) (get-walk_entry p dir e out)
        ∙ seen-or (holds_entry opts.is_ignored p dir e) (holds_entries opts.is_ignored p dir es) p
            (get RelPath-discrete p out)

    get-walk_entry :
        (p dir : RelPath) (e : Entry) (out : List (RelPath × Snapshot))
        → get RelPath-discrete p (walk_entry opts dir e out)
          ≡ seen (holds_entry opts.is_ignored p dir e) p (get RelPath-discrete p out)
    get-walk_entry p dir (symlink name) out = refl
    get-walk_entry p dir (directory name l) out =
        rw (descend-is_walked (dir ++ name ∷ []) name opts.is_ignored)
          (elim (Bool-cases (is_walked opts.is_ignored (dir ++ name ∷ []) name)) [
            | inl e ↦ rw e (get-walk p (dir ++ name ∷ []) l out)
            | inr e ↦ rw e
          ])
    get-walk_entry p dir (file name) out =
        get-file p (dir ++ name ∷ []) name out (base_name-append dir name)
    get-walk_entry p dir (special name) out = refl

  or_else-none : (a : Option Snapshot) → or_else a none ≡ a
  unfolding or_else
  or_else-none none = refl
  or_else-none (some a) = refl

  abbrev pub counted : RelPath → Option Snapshot
  counted p =
      indexed_snapshot opts.is_ignored opts.stat opts.to_lower_case opts.extensions
        opts.max_size_bytes p (base_name p)

  -- exact
  pub walk_exact :
      (p : RelPath) (l : Listing)
      → get RelPath-discrete p (walk opts [] l [])
        ≡ (if holds opts.is_ignored p [] l then counted p else none)
  unfolding get
  walk_exact p l =
      get-walk p [] l [] ∙ rw or_else-none (rw (snapshot-indexed_snapshot opts p (base_name p)))
