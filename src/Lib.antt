-- ===== src/Lib.antt =====
-- Lalaba's backend: a marketplace for laundry. A customer books an order with a provider (a home
-- washer or a laundromat); couriers carry it; the platform takes a fee out of the provider's prepaid
-- wallet. The library models the parts of the program that decide about orders and money.
--
-- Parts, and how they interact:
--   Orders    src/online-orders. Orders.Status is src/online-orders/schemas/order-status.enum.ts:
--             the enum, the transition table (`transitions` is ORDER_STATUS_TRANSITIONS), the check
--             `assert_valid_transition` (assertValidTransition) and the sets of the daily cap.
--             Orders.Runs and Orders.Lifecycle speak about runs of allowed transitions. Orders.Order
--             and Orders.Transition are applyTransition and settlePromoForTransition of
--             src/online-orders/online-orders.service.ts with releaseForOrder and settleForOrder of
--             src/promotions/promotions.service.ts; Interleaving, Workers, History, SameOrders,
--             SlotRows and Promos are about workers that transition orders which they read before,
--             about the event log and about promo slots. Orders.Courier is
--             src/online-orders/courier-access.util.ts.
--   Wallets   src/wallets. Wallets.State and Wallets.Store are the documents of src/wallets/schemas
--             and the queries; Wallets.Fees and Wallets.TopUps are the methods of
--             src/wallets/wallets.service.ts (consumeFee, reverseFee, adminAdjustBalance,
--             initializeTopUp, postVerifiedTopUp, resolveIntentWithoutCredit) and of
--             src/wallets/wallet-acceptance-guard.service.ts; Wallets.Webhook is
--             src/wallets/xendit-webhook.controller.ts, the one outside caller of postVerifiedTopUp;
--             Wallets.Report is the reconciliation report. Balance, Sound, Ledgered, Books and Calls
--             carry the invariant of the books over each method and over sequences of calls;
--             Deliveries, Payments and Redelivery follow one payment; Guards, Reversal and Trust are
--             about corrections, fees and callbacks.
--   Service   The handlers of src/online-orders/online-orders.service.ts. Service.Document is the
--             order and the transaction (src/online-orders/schemas), Service.State the database and
--             the steps of a handler. Service.Weighing is finalizePricing, Service.Money the
--             collection and consumeOutstandingFee, Service.Access the guards of users and couriers.
--             Service.Pickup, Service.Handover, Service.Holds and Service.Decisions are the handlers
--             of the pickup leg, from the ready laundry to its hand-over, of quality holds, and of
--             refusing, overriding and giving up; Service.Acceptance is acceptOrder and
--             applyPlatformFeePromo. Service.Cap is reserveDailyCapSlot, Service.Eligibility is
--             src/online-orders/provider-eligibility.service.ts. They use Orders for each
--             transition, Wallets for each posting, Pricing for each amount and Promotions for the
--             platform fee of an accepted order. Counts, Books, Steps, PromoBooks, Posts, Posting,
--             Quiets and Keeping carry the balance of the books and the counters of promotions over
--             the steps, and PickupBooks, HandoverBooks, HoldsBooks, AcceptBooks, DecisionsBooks,
--             Handlers and Calls over the handlers, with the runs of the transition table that each
--             order makes; Results, Runs, MeasuredLines, Measured, WeighIns and Settled, Reconciled,
--             HoldAnswers, Abandonment, CapChecks, Refusals and Stuck say what has become of an
--             order when a handler has returned, or why it is refused.
--   Booking   src/booking-availability. Booking.Time is parseHHMM and formatHHMM of
--             src/common/utils/ph-time.util.ts; Booking.Windows and Booking.Day are
--             src/booking-availability/availability-resolution.util.ts (normalizeWindows,
--             intersectWindows, weeklyFromOperatingHours, effectiveDay). Spans, Hours, Sweep,
--             Canonical and Week say what they mean minute by minute. The sweep runs on the sum of
--             the lengths as fuel, of which each turn uses one for the window that it drops; Loop is
--             about its end.
--   Pricing   src/online-orders. Pricing.Legs is src/online-orders/fulfillment-pricing.util.ts
--             (resolveFulfillmentFees, resolveTurnaround, pickupSlotFeeCentavos, clampLegFee);
--             Pricing.FeeParts is src/online-orders/platform-fee-parts.util.ts; Pricing.Lines is
--             src/online-orders/pricing.util.ts, over the operations on doubles of Pricing.Doubles,
--             and Costs and LineBounds are about it; LegBounds and LegRefusals are about the legs.
--   Fees      src/platform-fee. Fees.Rules and Fees.Keys are
--             src/platform-fee/platform-fee-rule.util.ts, with previewRule of
--             src/platform-fee/platform-fee.service.ts; Fees.Versions is resolveRule and what it
--             means for a commission; Fees.Admin and Fees.Seeds are the writes (createRule,
--             updateRule, setRuleActive, seedDefaultRules). Preview, Newest, Scan, InForce, Tops,
--             History, Calls, Snapshots, Switch, Switched and Seeding are about them.
--   Promotions src/promotions. Promotions.Codes is a code and its validation, Promotions.Redeeming
--             the writes that take a slot (src/promotions/promotions.service.ts); Slots, Counted,
--             Counting and Releases carry the counters over each write, Caps over sequences of them;
--             Races is about checks that are out of date and about the choice of a promotion.
--   Policy    src/booking-policy. Policy.Entitlement with Provider, Milestones and Campaigns is
--             src/booking-policy/entitlement.util.ts (milestones, campaigns and the safety limits
--             that bound both), and Limits and Highest are about it; effectiveDay takes its
--             capacity.
--   Users     src/users. Users.Grants is src/users/branch-access.util.ts, the one writer of the
--             grants of a member of staff (deriveGrantFields, grantsForBranch).
--   Base      shared names, tests on numbers, signed integers, keyed collections.
--
-- How the code is modelled: a collection of the database is a list of documents under their unique
-- key, in insertion order, and a query is its documented effect on it. A service method is a function
-- from the database to a result and the database after it; an exception is an `err`; what a
-- transaction's body wrote is dropped when the body throws. Calls are sequential: an interleaving of
-- two deliveries is a call with a stale copy of the intent. Ids are numbers, times are instants in
-- milliseconds given as arguments, amounts of centavos are whole numbers of either sign without the
-- rounding of doubles above 2^53.
--
-- A handler of an order works on the document in memory and saves it: it may return, or throw and
-- keep what was written outside its transaction. An order's document is stored in two halves under
-- one id: the fields of a transition, and the rest.
--
-- Parameters, since they are not code of the repository: the validity of an ObjectId, the lookup of a
-- branch, the gateway's createInvoice, the configured callback token, SHA-256 and the timing-safe
-- comparison, upper-casing, the conversion of an amount of pesos into centavos, in Policy the
-- comparison, the floor and the product of fractional doubles, and in Service and Pricing the
-- arithmetic of doubles, the distance between two places, the owner of a branch, the users that may
-- be assigned and the current day; in Promotions the accounts and the spelling of a code; in Fees the
-- lower case of a name and whether it is blank.
--
-- Not modelled: the creation and the quote of an order, positions of couriers, vouchers, points of
-- sale, stock, identity checks, GraphQL resolvers, documents without rules of their own, search and
-- analytics queries, storage, mail, push messages and log output.
pub mod Base
pub mod Booking
pub mod Fees
pub mod Orders
pub mod Policy
pub mod Pricing
pub mod Promotions
pub mod Service
pub mod Users
pub mod Wallets
