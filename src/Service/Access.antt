-- ===== src/Service/Access.antt =====
-- Who may work an order: the branch's people, its customer, and the courier of a leg
-- (src/online-orders/online-orders.service.ts).
use Prim.Native.String.{String, ◌++◌ as join}
use text.Mathlib.Text.{◌==◌ as str_eq}
use lalaba_backend_showcase.Base.{
  ℕ, ◌+◌, Bool, true, false, not, ◌&&◌, ◌||◌, Option, none, some, List, [], ◌∷◌, ◌++◌, ◌==◌,
  if◌then◌else◌, or_else,
}
use lalaba_backend_showcase.Orders.Order.{OrderEvent}
use lalaba_backend_showcase.Orders.Transition.{last_sequence}
use lalaba_backend_showcase.Policy.Provider.{ProviderType, merchant, washer}
use lalaba_backend_showcase.Pricing.Doubles.{Doubles}
use lalaba_backend_showcase.Service.Document.{LegAssignment, HandoverProof, OnlineOrder}
use lalaba_backend_showcase.Service.State.{
  done, refused, forbidden, User, World, Step, StepOn, throw_if,
}

abbrev pub same_uid : Option String → String → Bool
same_uid none uid = false
same_uid (some u) uid = str_eq u uid

abbrev pub includes_branch : ℕ → List ℕ → Bool
includes_branch b [] = false
includes_branch b (x ∷ xs) = if x == b then true else includes_branch b xs

abbrev pub is_washer : ProviderType → Bool
is_washer washer = true
is_washer merchant = false

-- A staff user as the assignment guard reads her.
pub record StaffUser : Type 0 where
  pub is_active : Bool
  pub is_archived : Bool
  pub role : String
  pub selfie_status : Option String
  pub merchant_id : Option String
  pub branch_ids : List ℕ

-- `branch.uid` of a branch that exists.
unfoldable pub owns_branch : (ℕ → Option String) → ℕ → User → Bool
owns_branch branch_owner branch_id actor = elim (branch_owner branch_id) [
  | none ↦ false
  | some owner ↦
      str_eq owner actor.uid
      || (str_eq actor.role "staff"
          && same_uid actor.merchant_id owner
          && includes_branch branch_id actor.branch_ids)
]

unfoldable pub assert_branch_ownership :
    {W : Type 0} → (ℕ → Option String) → ℕ → User → StepOn W (Unit {0})
unfolding owns_branch
assert_branch_ownership branch_owner branch_id actor =
    throw_if (not (owns_branch branch_owner branch_id actor)) forbidden

-- Whether the owner of the branch employs the courier; a branch that is missing has no owner.
abbrev pub employs : Option String → Option String → Bool
employs none of_staff = false
employs (some owner) of_staff = same_uid of_staff owner

abbrev pub is_live_selfie : Option String → Bool
is_live_selfie none = false
is_live_selfie (some s) = str_eq s "ACTIVE"

-- Why a staff user cannot be assigned, or `none` where she can be.
abbrev pub staff_rejection : Option String → ℕ → Option StaffUser → Option String
staff_rejection owner branch_id none = some "staff user not found, inactive, or archived"
staff_rejection owner branch_id (some s) =
    if not s.is_active || s.is_archived
    then some "staff user not found, inactive, or archived"
    else if not (str_eq s.role "courier")
    then some (join "user role '" (join s.role "' is not courier"))
    else if not (is_live_selfie s.selfie_status)
    then some
        (join "courier has no verified selfie (status=" (join (or_else s.selfie_status "none") ")"))
    else if not (employs owner s.merchant_id || includes_branch branch_id s.branch_ids)
    then some "courier belongs to a different merchant/branch"
    else none

unfoldable pub is_assigned_to : Option LegAssignment → String → Bool
is_assigned_to none uid = false
is_assigned_to (some a) uid = str_eq a.assigned_staff_uid uid

unfoldable pub assert_assigned_courier :
    {W : Type 0} → Option LegAssignment → String → StepOn W (Unit {0})
unfolding is_assigned_to
assert_assigned_courier a uid = throw_if (not (is_assigned_to a uid)) forbidden

-- `{ assignedStaffUid, assignedAt: new Date() }`
abbrev pub assigned : String → ℕ → LegAssignment
assigned uid now = record {
  assigned_staff_uid = uid;
  assigned_at = now;
  en_route_at = none;
  arrived_at = none;
  completed_at = none;
}

abbrev pub proof_of : List String → String → ℕ → Option HandoverProof → Option HandoverProof
proof_of [] uid now old = old
proof_of (k ∷ ks) uid now old =
    some (record { object_keys = k ∷ ks; captured_at = now; captured_by_uid = uid })

module _ (d : Doubles) where
  unfoldable pub assignment_rejection :
      (ℕ → Option String) → (String → Option StaffUser) → OnlineOrder d → String → Option String
  assignment_rejection branch_owner find_staff o uid =
      let p = o.rest.provider in
      if is_washer p.provider_type && str_eq uid p.provider_uid
      then none
      else staff_rejection (branch_owner p.branch_id) p.branch_id (find_staff uid)

  abbrev pub audit_event : ℕ → OnlineOrder d → User → String → World d → OrderEvent
  audit_event id o actor note w = record {
    order_id = id;
    sequence = last_sequence id w.db.events + 1;
    from_status = o.base.status;
    to_status = o.base.status;
    actor_uid = actor.uid;
    actor_role = actor.role;
    note = some note;
  }

  abbrev pub append_audit_event : ℕ → OnlineOrder d → User → String → World d → World d
  append_audit_event id o actor note w = record w {
    db = record w.db { events = w.db.events ++ audit_event id o actor note w ∷ [] };
  }

  abbrev pub rejection_note : String → String → String
  rejection_note reason uid =
      join "Courier assignment rejected — " (join reason (join " (staffUid=" (join uid ")")))

  unfoldable pub assert_assignable_courier :
      (ℕ → Option String)
      → (String → Option StaffUser)
      → ℕ
      → OnlineOrder d
      → String
      → User
      → Step d (Unit {0})
  unfolding assignment_rejection
  assert_assignable_courier branch_owner find_staff id o uid actor w =
      elim (assignment_rejection branch_owner find_staff o uid) [
        | none ↦ (done tt, w)
        | some reason ↦
            (refused forbidden, append_audit_event id o actor (rejection_note reason uid) w)
      ]

  -- The order's customer only.
  unfoldable pub assert_customer : OnlineOrder d → User → Step d (Unit {0})
  assert_customer o actor = throw_if (not (str_eq o.rest.customer_uid actor.uid)) forbidden
