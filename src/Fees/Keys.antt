-- ===== src/Fees/Keys.antt =====
-- The key of a fee rule, a slug of its name (`feeRuleKeyFor` of
-- src/platform-fee/platform-fee-rule.util.ts). A text is the list of its UTF-16 code units, and 45
-- is the dash.
use Prim.Native.String.{String}
use lalaba_backend_showcase.Base.{
  ℕ, ◌≡◌, refl, Bool, true, false, not, ◌&&◌, ◌||◌, [], ◌∷◌, ◌++◌, ◌==◌, leb, if◌then◌else◌, arith,
}
use lalaba_backend_showcase.Booking.Time.{Text}
use lalaba_backend_showcase.Fees.Rules.{FeePayerRole, customer, laundromat, home_washer, courier}

-- `[a-z0-9]`
abbrev pub is_slug_char : ℕ → Bool
is_slug_char c = (leb 97 c && leb c 122) || (leb 48 c && leb c 57)

-- What stands for a character: itself, or a dash for the first of a run of others.
abbrev pub dash_or : Bool → Bool → ℕ → Text
dash_or true in_run c = c ∷ []
dash_or false true c = []
dash_or false false c = 45 ∷ []

-- `.replace(/[^a-z0-9]+/g, '-')`
abbrev pub dashed : Bool → Text → Text
dashed in_run [] = []
dashed in_run (c ∷ cs) = let kept = is_slug_char c in dash_or kept in_run c ++ dashed (not kept) cs

-- `.replace(/^-+|-+$/g, '')`, front and back.
abbrev pub strip_front : Text → Text
strip_front [] = []
strip_front (c ∷ cs) = if c == 45 then strip_front cs else c ∷ cs

abbrev pub is_blank_text : Text → Bool
is_blank_text [] = true
is_blank_text (c ∷ cs) = false

abbrev pub strip_back : Text → Text
strip_back [] = []
strip_back (c ∷ cs) =
    let rest = strip_back cs in if is_blank_text rest && (c == 45) then [] else c ∷ rest

-- 'customer', 'merchant', 'washer' and 'courier'
abbrev pub role_text : FeePayerRole → Text
role_text customer = 99 ∷ 117 ∷ 115 ∷ 116 ∷ 111 ∷ 109 ∷ 101 ∷ 114 ∷ []
role_text laundromat = 109 ∷ 101 ∷ 114 ∷ 99 ∷ 104 ∷ 97 ∷ 110 ∷ 116 ∷ []
role_text home_washer = 119 ∷ 97 ∷ 115 ∷ 104 ∷ 101 ∷ 114 ∷ []
role_text courier = 99 ∷ 111 ∷ 117 ∷ 114 ∷ 105 ∷ 101 ∷ 114 ∷ []

-- 'fee' stands for an empty slug. `lowered` is `toLowerCase`.
unfoldable pub fee_rule_key_for : (String → Text) → String → FeePayerRole → Text
fee_rule_key_for lowered name role =
    let slug = strip_back (strip_front (dashed false (lowered name))) in
    (if is_blank_text slug then 102 ∷ 101 ∷ 101 ∷ [] else slug) ++ 45 ∷ role_text role

abbrev pub same_text : Text → Text → Bool
same_text [] [] = true
same_text [] (c ∷ cs) = false
same_text (b ∷ bs) [] = false
same_text (b ∷ bs) (c ∷ cs) = (b == c) && same_text bs cs

pub same_text_refl : (t : Text) → same_text t t ≡ true
same_text_refl [] = refl
same_text_refl (c ∷ cs) = ground (arith, same_text_refl cs)

pub same_text-eq : (s t : Text) → same_text s t ≡ true → s ≡ t
same_text-eq [] [] h = refl
same_text-eq [] (c ∷ cs) h = cc
same_text-eq (b ∷ bs) [] h = cc
same_text-eq (b ∷ bs) (c ∷ cs) h = ground (arith, same_text-eq bs cs)
