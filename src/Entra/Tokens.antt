-- ===== src/Entra/Tokens.antt =====
-- internal/hub/entra/entra.go: ID tokens and their claims. base64, JSON and RSA are given, as
-- `Jose`; the answer of the key endpoint is an argument.
use Prim.Native.String.{[], ◌∷◌, ◌++◌ as str_append}
use mathlib.Core.List.{List, [] as nil, ◌∷◌ as cons}
use serversmonitor.Prelude.{
  ℕ, ◌/◌, Bool, false, ◌&&◌, ◌||◌, not, Option, none, some, String, text_eq, if◌then◌else◌,
}
use serversmonitor.Prelude.Int.{ℤ, pos, sub_ℕ}
use serversmonitor.Time.{Time, second}
use serversmonitor.Float.{Float}
use serversmonitor.Text.{trim_slash}
use serversmonitor.Azure.Inventory.{Strings}
use serversmonitor.Entra.Settings.{EntraConfig}

pub record Head : Type 0 where
  pub alg : String
  pub kid : String

-- The `aud` claim: a text, a list of texts, or something else.
pub data Audience : Type 0 where
  one : String → Audience
  many : List String → Audience
  no_audience : Audience

pub record Claims (F : Type 0) : Type 0 where
  pub iss : String
  pub aud : Audience
  pub exp : F
  pub nbf : F
  pub nonce : String
  pub tid : String
  pub email : String
  pub preferred_username : String
  pub name : String

-- One key of the tenant's list.
pub record Jwk : Type 0 where
  pub kty : String
  pub kid : String
  pub n : String
  pub e : String

-- What the code takes from encoding/base64, encoding/json and crypto/rsa.
pub record Jose (F K : Type 0) : Type 0 where
  pub base64 : String → Option (List ℕ)
  -- decodeSegment for the two kinds of segment
  pub head : String → Option Head
  pub claims : String → Option (Claims F)
  pub make_key : List ℕ → List ℕ → K
  -- whether a signature over a text verifies with a key
  pub verifies : K → String → List ℕ → Bool

pub data SignInError : Type 0 where
  not_started endpoint_unreachable code_refused : SignInError
  not_a_jwt unreadable wrong_alg keys_unreachable unpublished_key : SignInError
  signature_unreadable bad_signature expired not_yet_valid other_sign_in : SignInError
  other_application not_a_tenant other_tenant no_email : SignInError

pub data Verdict (A : Type 0) : Type 0 where
  accepted : A → Verdict A
  refused : SignInError → Verdict A

pub record Identity : Type 0 where
  pub email : String
  pub name : String

pub record Pending : Type 0 where
  pub verifier : String
  pub nonce : String
  pub at : Time

-- Provider
pub record Provider (K : Type 0) : Type 0 where
  pub authority : String
  pub pending : List (String × Pending)
  pub keys : List (String × K)
  pub keys_at : Time

pub data KeyAnswer : Type 0 where
  keys_failed : KeyAnswer
  keys_answered : List Jwk → KeyAnswer

unfoldable pub has_text : List String → String → Bool
has_text nil s = false
has_text (cons a others) s = text_eq a s || has_text others s

-- audienceIs
unfoldable pub audience_is : Audience → String → Bool
audience_is (one a) client_id = text_eq a client_id
audience_is (many others) client_id = has_text others client_id
audience_is no_audience client_id = false

-- `strings.Contains(s, "@")`
unfoldable pub has_at : String → Bool
has_at [] = false
has_at (c ∷ s) = text_eq (c ∷ "") "@" || has_at s

-- `strings.Split(s, ".")`: the first part and the others.
unfoldable pub split_dots : String → String × List String
split_dots [] = ("", nil)
split_dots (c ∷ s) =
    let rest = split_dots s in
    if text_eq (c ∷ "") "." then ("", cons rest.0 rest.1) else (c ∷ rest.0, rest.1)

unfoldable pub three : String × List String → Option (String × String × String)
three (a, nil) = none
three (a, cons b nil) = none
three (a, cons b (cons c nil)) = some (a, b, c)
three (a, cons b (cons c (cons d ds))) = none

-- `t.Unix()`
unfoldable pub unix : Time → ℤ
unix t = sub_ℕ (t / second) 62_135_596_800

module _ (fl : Float) where
  open fl use {F, of_int, add, gt, ge}

  -- `a == b`
  abbrev pub same : F → F → Bool
  same a b = ge a b && ge b a

  abbrev pub leeway : F
  leeway = of_int (pos 300)

  -- The switch of Verify: none when every claim holds.
  unfoldable pub claims_error :
      (String → String → Bool) → String → EntraConfig → String → F → Claims F → Option SignInError
  claims_error equal_fold authority c nonce now cl =
      if same cl.exp (of_int (pos 0)) || gt now (add cl.exp leeway)
      then some expired
      else if not (same cl.nbf (of_int (pos 0))) && gt cl.nbf (add now leeway)
      then some not_yet_valid
      else if text_eq cl.nonce "" || not (text_eq cl.nonce nonce)
      then some other_sign_in
      else if not (audience_is cl.aud c.client_id)
      then some other_application
      else if text_eq cl.tid ""
          || not (
              text_eq cl.iss
                (str_append (trim_slash authority) (str_append "/" (str_append cl.tid "/v2.0"))))
      then some not_a_tenant
      else if not (equal_fold c.tenant cl.tid)
      then some other_tenant
      else none

-- The e-mail that the claims carry.
unfoldable pub email_of : {F : Type 0} → Strings → Claims F → String
email_of text cl =
    text.to_lower
      (text.trim_space (if text_eq cl.email "" then cl.preferred_username else cl.email))
