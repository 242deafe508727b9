-- ===== src/Entra/Verify.antt =====
-- internal/hub/entra/entra.go: the cache of signing keys and Verify. The answer of the key endpoint is an
-- argument.
use Prim.Native.String.{◌++◌ as str_append}
use mathlib.Core.List.{List, [] as nil, ◌∷◌ as cons}
use serversmonitor.Prelude.{
  ℕ, ◌||◌, Option, none, some, String, ltb, ◌==◌, text_eq, if◌then◌else◌, lookup, insert,
  String_discrete, length,
}
use serversmonitor.Prelude.Int.{pos}
use serversmonitor.Time.{Time, hour, time_sub, dur_le}
use serversmonitor.Float.{Float}
use serversmonitor.Azure.Inventory.{Strings}
use serversmonitor.Entra.Settings.{EntraConfig}
use serversmonitor.Entra.Tokens.{
  Claims, Head, Identity, Jose, Jwk, KeyAnswer, Provider, Verdict, accepted, bad_signature,
  claims_error, email_of, has_at, keys_answered, keys_failed, keys_unreachable, no_email, not_a_jwt,
  refused, signature_unreadable, split_dots, three, unix, unpublished_key, unreadable, wrong_alg,
}

module _ {F K : Type 0} (jose : Jose F K) where
  abbrev key_of_bytes : Option (List ℕ) → Option (List ℕ) → Option K
  key_of_bytes (some n) (some e) =
      if (length e == 0) || ltb 4 (length e) then none else some (jose.make_key n e)
  key_of_bytes _ _ = none

  -- The key of an entry that the code can use.
  unfoldable pub usable_key : Jwk → Option K
  usable_key jk =
      if text_eq jk.kty "RSA" then key_of_bytes (jose.base64 jk.n) (jose.base64 jk.e) else none

  -- The loop over the tenant's list, with the keys before it.
  unfoldable pub published : List Jwk → List (String × K) → List (String × K)
  published nil keys = keys
  published (cons jk jks) keys = elim (usable_key jk) [
    | none ↦ published jks keys
    | some k ↦ published jks (insert String_discrete jk.kid k keys)
  ]

  abbrev pub known : Option K → Verdict K
  known none = refused unpublished_key
  known (some k) = accepted k

  -- The second half of key, which asks the tenant.
  unfoldable pub fetch_key : Provider K → KeyAnswer → String → Time → Provider K × Verdict K
  fetch_key p keys_failed kid now = (p, refused keys_unreachable)
  fetch_key p (keys_answered jks) kid now =
      let keys = published jks nil in
      (record p { keys = keys; keys_at = now }, known (lookup String_discrete kid keys))

  -- key
  unfoldable pub key : Provider K → KeyAnswer → String → Time → Provider K × Verdict K
  key p answer kid now = elim (lookup String_discrete kid p.keys) [
    | some k ↦
        if dur_le (pos hour) (time_sub now p.keys_at)
        then fetch_key p answer kid now
        else (p, accepted k)
    | none ↦ fetch_key p answer kid now
  ]

module _ (fl : Float) (text : Strings) {K : Type 0} (jose : Jose fl.F K) (c : EntraConfig) where
  -- Verify once the claims are read.
  unfoldable pub judge : String → String → fl.F → Claims fl.F → Verdict Identity
  judge authority nonce now cl = elim (claims_error fl text.equal_fold authority c nonce now cl) [
    | some e ↦ refused e
    | none ↦
        let email = email_of text cl in
        if has_at email
        then accepted (record { email = email; name = cl.name })
        else refused no_email
  ]

  -- Verify once the key is there.
  unfoldable pub check_signed :
      String → String → Time → K → String → String → String → Verdict Identity
  check_signed authority nonce now k h b s = elim (jose.base64 s) [
    | none ↦ refused signature_unreadable
    | some sig ↦
        if jose.verifies k (str_append h (str_append "." b)) sig
        then elim (jose.claims b) [
          | none ↦ refused unreadable
          | some cl ↦ judge authority nonce (fl.of_int (unix now)) cl
        ]
        else refused bad_signature
  ]

  abbrev pub with_key :
      String
      → Time
      → String
      → String
      → String
      → Provider K × Verdict K
      → Provider K × Verdict Identity
  with_key nonce now h b s (p, refused e) = (p, refused e)
  with_key nonce now h b s (p, accepted k) = (p, check_signed p.authority nonce now k h b s)

  -- Verify with the header read.
  unfoldable pub verify_head :
      Provider K
      → KeyAnswer
      → String
      → Time
      → String
      → String
      → String
      → Option Head
      → Provider K × Verdict Identity
  verify_head p answer nonce now h b s none = (p, refused unreadable)
  verify_head p answer nonce now h b s (some head) =
      if text_eq head.alg "RS256"
      then with_key nonce now h b s (key jose p answer head.kid now)
      else (p, refused wrong_alg)

  unfoldable pub verify_parts :
      Provider K
      → KeyAnswer
      → String
      → Time
      → Option (String × String × String)
      → Provider K × Verdict Identity
  verify_parts p answer nonce now none = (p, refused not_a_jwt)
  verify_parts p answer nonce now (some (h, b, s)) =
      verify_head p answer nonce now h b s (jose.head h)

  -- Verify
  unfoldable pub verify :
      Provider K → KeyAnswer → String → String → Time → Provider K × Verdict Identity
  verify p answer id_token nonce now = verify_parts p answer nonce now (three (split_dots id_token))
