-- ===== src/Orders/Runs.antt =====
-- Runs of the state machine: the statuses that an order can come to by allowed transitions, and
-- the rule that a set of statuses which every transition keeps is never left.
use lalaba_backend_showcase.Base.{
  ℕ, zero, suc, ◌≡◌, refl, sym, ◌∙◌, ap, Bool, true, false, ◌&&◌, ◌||◌, List, [], ◌∷◌, ◌≢◌, arith,
  Bool-cases, inl, inr,
}
use lalaba_backend_showcase.Orders.Status.{
  OrderStatus, index, ◌===◌, all_statuses, transitions, includes, allowed, assert_valid_transition,
}

pub data Reach (s : OrderStatus) : OrderStatus → Type 0 where
  here : Reach s s
  next : {t u : OrderStatus} → Reach s t → assert_valid_transition t u ≡ allowed → Reach s u

-- A run that never enters `w` after its start.
pub data Avoiding (w s : OrderStatus) : OrderStatus → Type 0 where
  here : Avoiding w s s
  next :
      {t u : OrderStatus}
      → Avoiding w s t
      → assert_valid_transition t u ≡ allowed
      → u ≢ w
      → Avoiding w s u

nth : List OrderStatus → ℕ → OrderStatus
nth [] n = OrderStatus.draft
nth (s ∷ ss) zero = s
nth (s ∷ ss) (suc n) = nth ss n

nth-index : (s : OrderStatus) → nth all_statuses (index s) ≡ s
unfolding nth
nth-index OrderStatus.draft = refl
nth-index _ = refl

pub eq_of_index : (s t : OrderStatus) → index s ≡ index t → s ≡ t
eq_of_index s t e = sym (nth-index s) ∙ ap (nth all_statuses) e ∙ nth-index t

pub ===→eq : (s t : OrderStatus) → (s === t) ≡ true → s ≡ t
===→eq s t e = eq_of_index s t (ground arith)

abbrev pub every : (OrderStatus → Bool) → List OrderStatus → Bool
every p [] = true
every p (s ∷ ss) = p s && every p ss

every-includes :
    (p : OrderStatus → Bool) (xs : List OrderStatus) (s : OrderStatus)
    → every p xs ≡ true
    → includes xs s ≡ true
    → p s ≡ true
every-includes p [] s h m = cc
every-includes p (x ∷ xs) s h m = elim (Bool-cases (x === s)) [
  | inl e ↦ rw (← ===→eq x s e) (ground arith)
  | inr e ↦ every-includes p xs s (ground arith) (ground arith)
]

-- Every transition out of the set stays in it.
abbrev pub IsClosed : (OrderStatus → Bool) → Type 0
IsClosed p = (s : OrderStatus) → p s ≡ true → every p (transitions s) ≡ true

pub Step-closed :
    (p : OrderStatus → Bool)
    → IsClosed p
    → (s t : OrderStatus) → assert_valid_transition s t ≡ allowed
    → p s ≡ true
    → p t ≡ true
unfolding assert_valid_transition
Step-closed p c s t e h = every-includes p (transitions s) t (c s h) (ground arith)

pub Reach-closed :
    (p : OrderStatus → Bool)
    → IsClosed p
    → {s t : OrderStatus} → Reach s t
    → p s ≡ true
    → p t ≡ true
Reach-closed p c Reach.here h = h
Reach-closed p c (Reach.next {t = m} {u = u} r e) h = Step-closed p c m u e (Reach-closed p c r h)

-- Every transition out of the set stays in it or enters `w`.
abbrev pub IsClosedBut : OrderStatus → (OrderStatus → Bool) → Type 0
IsClosedBut w p =
    (s : OrderStatus) → p s ≡ true → every (λ t. p t || (t === w)) (transitions s) ≡ true

===-false : (u w : OrderStatus) → u ≢ w → (u === w) ≡ false
===-false u w ne = elim (Bool-cases (u === w)) [ inl e ↦ absurd (ne (===→eq u w e)) | inr e ↦ e ]

pub Avoiding-closed :
    (p : OrderStatus → Bool) {w : OrderStatus}
    → IsClosedBut w p
    → {s t : OrderStatus} → Avoiding w s t
    → p s ≡ true
    → p t ≡ true
unfolding assert_valid_transition
Avoiding-closed p c Avoiding.here h = h
Avoiding-closed p {w} c (Avoiding.next {t = m} {u = u} r e ne) h =
    let inside =
      every-includes (λ t. p t || (t === w)) (transitions m) u (c m (Avoiding-closed p c r h))
        (ground arith) in
    let other = ===-false u w ne in ground arith

pub Reach-trans : {s t u : OrderStatus} → Reach s t → Reach t u → Reach s u
Reach-trans r Reach.here = r
Reach-trans r (Reach.next r' e) = Reach.next (Reach-trans r r') e

-- A run with one more step in front.
pub prepend : {s m t : OrderStatus} → assert_valid_transition s m ≡ allowed → Reach m t → Reach s t
prepend e Reach.here = Reach.next Reach.here e
prepend e (Reach.next r e') = Reach.next (prepend e r) e'
