-- ===== src/Users/Grants.antt =====
-- The grants of a member of staff by branch and their two mirrors (src/users/branch-access.util.ts).
-- Ids are numbers: two ids are the same exactly when their texts are.
use lalaba_backend_showcase.Base.{
  ℕ, ◌≡◌, refl, ap, ◌∙◌, Bool, true, false, ◌&&◌, ◌||◌, Option, none, some, List, [], ◌∷◌, ◌++◌,
  ◌==◌, if◌then◌else◌, arith, Bool-cases, inl, inr,
}
use lalaba_backend_showcase.Base.Keyed.{Keyed, find}

pub record BranchAccessEntry : Type 0 where
  pub branch_id : ℕ
  pub permission_ids : List ℕ

pub record DerivedGrantFields : Type 0 where
  pub branch_access : List BranchAccessEntry
  pub branch_ids : List ℕ
  pub permission_ids : List ℕ

abbrev pub has : ℕ → List ℕ → Bool
has x [] = false
has x (y ∷ ys) = (x == y) || has x ys

-- `Set.add`, in insertion order.
abbrev pub add : ℕ → List ℕ → List ℕ
add x set = if has x set then set else set ++ x ∷ []

abbrev pub add_all : List ℕ → List ℕ → List ℕ
add_all [] set = set
add_all (x ∷ xs) set = add_all xs (add x set)

-- `byBranch.set(key, …)` with the entry's permissions added to the set that is there, or to a new
-- one.
abbrev pub put : ℕ → List ℕ → Keyed (List ℕ) → Keyed (List ℕ)
put b ps [] = (b, add_all ps []) ∷ []
put b ps ((c, set) ∷ m) = if b == c then (c, add_all ps set) ∷ m else (c, set) ∷ put b ps m

abbrev pub collect : List BranchAccessEntry → Keyed (List ℕ) → Keyed (List ℕ)
collect [] m = m
collect (e ∷ es) m = collect es (put e.branch_id e.permission_ids m)

abbrev pub entries_of : Keyed (List ℕ) → List BranchAccessEntry
entries_of [] = []
entries_of ((b, set) ∷ m) = record { branch_id = b; permission_ids = set } ∷ entries_of m

abbrev pub keys_of : Keyed (List ℕ) → List ℕ
keys_of [] = []
keys_of ((b, set) ∷ m) = b ∷ keys_of m

abbrev pub union : Keyed (List ℕ) → List ℕ → List ℕ
union [] set = set
union ((b, ps) ∷ m) set = union m (add_all ps set)

abbrev pub entries_or_empty : Option (List BranchAccessEntry) → List BranchAccessEntry
entries_or_empty none = []
entries_or_empty (some es) = es

unfoldable pub derive_grant_fields : Option (List BranchAccessEntry) → DerivedGrantFields
derive_grant_fields entries =
    let by_branch = collect (entries_or_empty entries) [] in
    record {
      branch_access = entries_of by_branch;
      branch_ids = keys_of by_branch;
      permission_ids = union by_branch [];
    }

-- `find((e) => e.branchId === wanted)?.permissionIds ?? []`
abbrev pub first_grants : ℕ → List BranchAccessEntry → List ℕ
first_grants b [] = []
first_grants b (e ∷ es) = if e.branch_id == b then e.permission_ids else first_grants b es

unfoldable pub grants_for_branch : Option (List BranchAccessEntry) → Option ℕ → List ℕ
grants_for_branch access none = []
grants_for_branch access (some b) = first_grants b (entries_or_empty access)

-- Some entry gives the permission on the branch.
abbrev pub granted : ℕ → ℕ → List BranchAccessEntry → Bool
granted p b [] = false
granted p b (e ∷ es) = ((e.branch_id == b) && has p e.permission_ids) || granted p b es

-- Some entry gives the permission.
abbrev pub granted_anywhere : ℕ → List BranchAccessEntry → Bool
granted_anywhere p [] = false
granted_anywhere p (e ∷ es) = has p e.permission_ids || granted_anywhere p es

has-append : (p x : ℕ) (set : List ℕ) → has p (set ++ x ∷ []) ≡ (has p set || (p == x))
has-append p x [] = ground arith
has-append p x (y ∷ set) = ground (arith, has-append p x set)

has-same : (p x : ℕ) (set : List ℕ) → (p == x) ≡ true → has x set ≡ true → has p set ≡ true
has-same p x [] e h = cc
has-same p x (y ∷ set) e h = ground (arith, has-same p x set e)

has-add : (p x : ℕ) (set : List ℕ) → has p (add x set) ≡ (has p set || (p == x))
has-add p x set = elim (Bool-cases (has x set)) [
  | inl e ↦ rw (e, add) (in_already (has p set) (p == x) (λ same. has-same p x set same e))
  | inr e ↦ rw (e, add) (has-append p x set)
]
  where
    in_already : (a b : Bool) → (b ≡ true → a ≡ true) → a ≡ (a || b)
    in_already a b h = ground arith

has-add_all : (p : ℕ) (xs set : List ℕ) → has p (add_all xs set) ≡ (has p set || has p xs)
has-add_all p [] set = ground arith
has-add_all p (x ∷ xs) set = ground (arith, has-add_all p xs (add x set), has-add p x set)

-- Some entry is for the branch.
abbrev pub named : ℕ → List BranchAccessEntry → Bool
named b [] = false
named b (e ∷ es) = (b == e.branch_id) || named b es

abbrev set_or_empty : Option (List ℕ) → List ℕ
set_or_empty none = []
set_or_empty (some s) = s

put-find :
    (p b c : ℕ) (ps : List ℕ) (m : Keyed (List ℕ))
    → has p (set_or_empty (find b (put c ps m)))
      ≡ (has p (set_or_empty (find b m)) || ((c == b) && has p ps))
put-find p b c ps [] = ground (arith, has-add_all p ps [])
put-find p b c ps ((d, set) ∷ m) = ground (arith, has-add_all p ps set, put-find p b c ps m)

or_assoc : (a b c : Bool) → ((a || b) || c) ≡ (a || (b || c))
or_assoc true b c = refl
or_assoc false b c = refl

collect-find :
    (p b : ℕ) (es : List BranchAccessEntry) (m : Keyed (List ℕ))
    → has p (set_or_empty (find b (collect es m)))
      ≡ (has p (set_or_empty (find b m)) || granted p b es)
collect-find p b [] m = ground arith
collect-find p b (e ∷ es) m =
    collect-find p b es (put e.branch_id e.permission_ids m)
    ∙ ap (λ x. x || granted p b es) (put-find p b e.branch_id e.permission_ids m)
    ∙ or_assoc (has p (set_or_empty (find b m))) ((e.branch_id == b) && has p e.permission_ids)
        (granted p b es)

first_grants-entries_of :
    (b : ℕ) (m : Keyed (List ℕ)) → first_grants b (entries_of m) ≡ set_or_empty (find b m)
first_grants-entries_of b [] = refl
first_grants-entries_of b ((c, set) ∷ m) = ground (arith, first_grants-entries_of b m)

anywhere : ℕ → Keyed (List ℕ) → Bool
anywhere p [] = false
anywhere p ((b, set) ∷ m) = has p set || anywhere p m

union-has :
    (p : ℕ) (m : Keyed (List ℕ)) (set : List ℕ) → has p (union m set) ≡ (has p set || anywhere p m)
unfolding anywhere
union-has p [] set = ground arith
union-has p ((b, ps) ∷ m) set = ground (arith, union-has p m (add_all ps set), has-add_all p ps set)

put-anywhere :
    (p c : ℕ) (ps : List ℕ) (m : Keyed (List ℕ))
    → anywhere p (put c ps m) ≡ (anywhere p m || has p ps)
unfolding anywhere
put-anywhere p c ps [] = ground (arith, has-add_all p ps [])
put-anywhere p c ps ((d, set) ∷ m) = ground (arith, has-add_all p ps set, put-anywhere p c ps m)

collect-anywhere :
    (p : ℕ) (es : List BranchAccessEntry) (m : Keyed (List ℕ))
    → anywhere p (collect es m) ≡ (anywhere p m || granted_anywhere p es)
collect-anywhere p [] m = ground arith
collect-anywhere p (e ∷ es) m =
    collect-anywhere p es (put e.branch_id e.permission_ids m)
    ∙ ap (λ x. x || granted_anywhere p es) (put-anywhere p e.branch_id e.permission_ids m)
    ∙ or_assoc (anywhere p m) (has p e.permission_ids) (granted_anywhere p es)

put-keys_of :
    (b c : ℕ) (ps : List ℕ) (m : Keyed (List ℕ))
    → has b (keys_of (put c ps m)) ≡ (has b (keys_of m) || (b == c))
put-keys_of b c ps [] = ground arith
put-keys_of b c ps ((d, set) ∷ m) = ground (arith, put-keys_of b c ps m)

collect-keys_of :
    (b : ℕ) (es : List BranchAccessEntry) (m : Keyed (List ℕ))
    → has b (keys_of (collect es m)) ≡ (has b (keys_of m) || named b es)
collect-keys_of b [] m = ground arith
collect-keys_of b (e ∷ es) m =
    collect-keys_of b es (put e.branch_id e.permission_ids m)
    ∙ ap (λ x. x || named b es) (put-keys_of b e.branch_id e.permission_ids m)
    ∙ or_assoc (has b (keys_of m)) (b == e.branch_id) (named b es)

-- A member of staff holds a permission on a branch exactly when one of the entries that were handed
-- in gives it on that very branch, and the two mirrors say no more: the permission list has what
-- some entry gives, and the branch list the branches that some entry is for.
pub grants_are_kept :
    (entries : Option (List BranchAccessEntry)) (p b : ℕ)
    → (has p (grants_for_branch (some (derive_grant_fields entries).branch_access) (some b))
        ≡ granted p b (entries_or_empty entries))
      × (has p (derive_grant_fields entries).permission_ids
          ≡ granted_anywhere p (entries_or_empty entries))
      × (has b (derive_grant_fields entries).branch_ids ≡ named b (entries_or_empty entries))
unfolding derive_grant_fields grants_for_branch anywhere
grants_are_kept entries p b =
    let es = entries_or_empty entries in
    (
      ap (has p) (first_grants-entries_of b (collect es [])) ∙ collect-find p b es [],
      union-has p (collect es []) [] ∙ collect-anywhere p es [],
      collect-keys_of b es [],
    )
