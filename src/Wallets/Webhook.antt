-- ===== src/Wallets/Webhook.antt =====
-- The Xendit invoice callback (src/wallets/xendit-webhook.controller.ts). What the controller takes
-- from elsewhere are parameters: the configured token, `node:crypto`'s digest and its comparison,
-- upper-casing, and the double arithmetic that turns pesos into whole centavos.
use Prim.Native.String.{String}
use text.Mathlib.Text.{◌==◌ as str_eq}
use lalaba_backend_showcase.Base.{ℕ, Bool, not, ◌||◌, Option, none, some, if◌then◌else◌, or_else}
use lalaba_backend_showcase.Base.Int.{ℤ}
use lalaba_backend_showcase.Wallets.State.{
  expired, unauthorized, bad_request, Action, pure, throw, throw_if, ◌>>=◌, ◌>>◌,
}
use lalaba_backend_showcase.Wallets.TopUps.{post_verified_top_up, resolve_intent_without_credit}

-- The configuration and the functions that the controller uses and does not define.
pub record Platform : Type 1 where
  pub Pesos : Type 0
  pub Digest : Type 0
  -- `Math.round(pesos * 100)`, or `none` where `Number.isFinite` refuses the amount
  pub to_centavos : Pesos → Option ℤ
  pub callback_token : Option String
  pub sha256 : String → Digest
  pub timing_safe_equal : Digest → Digest → Bool
  pub to_upper_case : String → String
  pub is_valid_object_id : ℕ → Bool

module _ (p : Platform) where
  open p use {
    Pesos, to_centavos, callback_token, sha256, timing_safe_equal, to_upper_case,
    is_valid_object_id,
  }

  -- `XenditInvoiceCallbackDto`: an absent field is `none`, and so is an empty `external_id`.
  pub record XenditInvoiceCallback : Type 0 where
    pub id : Option String
    pub external_id : Option ℕ
    pub status : Option String
    pub amount : Option Pesos
    pub paid_amount : Option Pesos
    pub currency : Option String

  -- `{ ok: true, alreadyPosted }`
  abbrev pub Acknowledged : Type 0
  Acknowledged = Option Bool

  unfoldable pub verify_callback_token : Option String → Action (Unit {0})
  verify_callback_token token = elim callback_token [
    | none ↦ throw unauthorized
    | some expected ↦
        if str_eq expected ""
        then throw unauthorized
        else throw_if (not (timing_safe_equal (sha256 (or_else token "")) (sha256 expected)))
            unauthorized
  ]

  abbrev pub or_amount : Option Pesos → Option Pesos → Option Pesos
  or_amount (some a) b = some a
  or_amount none b = b

  abbrev pub paid_centavos : Option Pesos → Option ℤ
  paid_centavos none = none
  paid_centavos (some a) = to_centavos a

  unfoldable pub post_paid : XenditInvoiceCallback → ℕ → ℕ → Option ℤ → Action Acknowledged
  post_paid body intent_id now none = throw bad_request
  post_paid body intent_id now (some amount) = do
    r ←
        post_verified_top_up is_valid_object_id intent_id
          (record {
            reference = intent_id;
            amount_centavos = amount;
            currency = or_else body.currency "PHP";
            gateway_invoice_id = body.id;
          })
          now
    pure (some r.already_posted)

  unfoldable pub dispatch : XenditInvoiceCallback → ℕ → String → ℕ → Action Acknowledged
  unfolding post_paid
  dispatch body intent_id status now =
      if str_eq status "PAID" || str_eq status "SETTLED"
      then post_paid body intent_id now (paid_centavos (or_amount body.paid_amount body.amount))
      else if str_eq status "EXPIRED"
      then (resolve_intent_without_credit is_valid_object_id intent_id expired now >>= λ i.
          pure none)
      else pure none

  abbrev pub routed : XenditInvoiceCallback → ℕ → Option ℕ → Option String → Action Acknowledged
  routed body now none status = throw bad_request
  routed body now (some intent_id) none = throw bad_request
  routed body now (some intent_id) (some status) =
      if str_eq (to_upper_case status) ""
      then throw bad_request
      else dispatch body intent_id (to_upper_case status) now

  unfoldable pub handle_invoice_callback :
      Option String → XenditInvoiceCallback → ℕ → Action Acknowledged
  unfolding verify_callback_token dispatch
  handle_invoice_callback token body now = do
    verify_callback_token token
    routed body now body.external_id body.status
