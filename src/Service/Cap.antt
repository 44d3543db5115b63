-- ===== src/Service/Cap.antt =====
-- The cap on the orders that a washer takes for one day, and its counter
-- (src/online-orders/online-orders.service.ts).
use Prim.Native.String.{String}
use text.Mathlib.Text.{◌==◌ as str_eq}
use lalaba_backend_showcase.Base.{
  ℕ, ◌+◌, Bool, false, not, ◌&&◌, Option, none, some, List, [], ◌∷◌, ◌==◌, leb, if◌then◌else◌,
  or_else,
}
use lalaba_backend_showcase.Base.Keyed.{Keyed, find}
use lalaba_backend_showcase.Orders.Status.{includes, cap_counted_statuses}
use lalaba_backend_showcase.Orders.Order.{Order}
use lalaba_backend_showcase.Pricing.Doubles.{Doubles}
use lalaba_backend_showcase.Service.Document.{Rest, OnlineOrder}
use lalaba_backend_showcase.Service.State.{done, refused, bad_request, CapCounter, World, Step}
use lalaba_backend_showcase.Service.Access.{same_uid}

abbrev is_counter : ℕ → String → CapCounter → Bool
is_counter branch_id day c = (c.branch_id == branch_id) && str_eq c.day_key day

-- `updateOne({ branchId, dayKey }, { $setOnInsert }, { upsert: true })`
unfoldable pub ensure_counter : ℕ → String → List CapCounter → List CapCounter
ensure_counter branch_id day [] =
    record { branch_id = branch_id; day_key = day; accepted_count = 0 } ∷ []
ensure_counter branch_id day (c ∷ cs) =
    if is_counter branch_id day c then c ∷ cs else c ∷ ensure_counter branch_id day cs

-- `findOneAndUpdate({ branchId, dayKey }, { $inc: { acceptedCount: 1 } }, { upsert: true })`
unfoldable pub inc_counter : ℕ → String → List CapCounter → List CapCounter
inc_counter branch_id day [] =
    record { branch_id = branch_id; day_key = day; accepted_count = 1 } ∷ []
inc_counter branch_id day (c ∷ cs) =
    if is_counter branch_id day c
    then record c { accepted_count = c.accepted_count + 1 } ∷ cs
    else c ∷ inc_counter branch_id day cs

module _ (d : Doubles) where
  abbrev pub is_counted_order : Option Order → Bool
  is_counted_order none = false
  is_counted_order (some o) = includes cap_counted_statuses o.status

  -- An order of the branch that is scheduled for the day and takes a slot.
  abbrev pub takes_slot : ℕ → String → Keyed Order → ℕ → Rest d → Bool
  takes_slot branch_id day orders id r =
      (r.provider.branch_id == branch_id)
      && same_uid r.scheduled_day day
      && is_counted_order (find id orders)

  -- `countDocuments`, without the order that is being accepted.
  unfoldable pub accepted_on : ℕ → ℕ → String → Keyed Order → Keyed (Rest d) → ℕ
  unfolding cap_counted_statuses
  accepted_on skip branch_id day orders [] = 0
  accepted_on skip branch_id day orders ((id, r) ∷ rs) =
      let rest = accepted_on skip branch_id day orders rs in
      if not (id == skip) && takes_slot branch_id day orders id r then rest + 1 else rest

  -- An order without a day counts for today.
  abbrev pub scheduled_day : String → OnlineOrder d → String
  scheduled_day today o = or_else o.rest.scheduled_day today

  unfoldable pub reserve_daily_cap_slot : ℕ → Option ℕ → String → OnlineOrder d → Step d (Unit {0})
  unfolding inc_counter accepted_on
  reserve_daily_cap_slot id none today o w = (done tt, w)
  reserve_daily_cap_slot id (some cap) today o w =
      let branch_id = o.rest.provider.branch_id in
      let day = scheduled_day today o in
      let w' = record w { cap_counters = inc_counter branch_id day w.cap_counters } in
      if leb cap (accepted_on id branch_id day w.db.orders w.rests)
      then (refused bad_request, w')
      else (done tt, w')

  unfoldable pub ensured : ℕ → String → World d → World d
  unfolding ensure_counter
  ensured branch_id today w = record w {
    cap_counters = ensure_counter branch_id today w.cap_counters;
  }
