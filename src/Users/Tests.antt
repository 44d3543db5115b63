-- ===== src/Users/Tests.antt =====
-- A form on which the theorem about grants applies.
use lalaba_backend_showcase.Base.{◌≡◌, true, some, List, [], ◌∷◌}
use lalaba_backend_showcase.Users.Grants.{
  BranchAccessEntry, has, derive_grant_fields, grants_for_branch, grants_are_kept,
}

-- The first branch stands twice.
abbrev form : List BranchAccessEntry
form =
    record { branch_id = 1; permission_ids = 10 ∷ 11 ∷ [] }
    ∷ record { branch_id = 2; permission_ids = 12 ∷ [] }
    ∷ record { branch_id = 1; permission_ids = 11 ∷ 13 ∷ [] }
    ∷ []

grants_are_kept_example :
    (has 13 (grants_for_branch (some (derive_grant_fields (some form)).branch_access) (some 1))
      ≡ true)
    × (has 13 (derive_grant_fields (some form)).permission_ids ≡ true)
    × (has 1 (derive_grant_fields (some form)).branch_ids ≡ true)
grants_are_kept_example = grants_are_kept (some form) 13 1
