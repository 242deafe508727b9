-- ===== src/Entra/Genuine.antt =====
-- internal/hub/entra/entra.go: what a sign-in that Verify accepts has shown.
use Prim.Native.String.{◌++◌ as str_append}
use serversmonitor.Prelude.{
  ℕ, ◌≡◌, ◌≢◌, refl, sym, ap, ◌∙◌, subst, true, false, none, some, List, String, text_eq,
  String_discrete, Bool-cases, Option-cases, inl, inr, arith, text_eq_yes,
}
use serversmonitor.Time.{Time}
use serversmonitor.Float.{Float}
use serversmonitor.Text.{trim_slash}
use serversmonitor.Azure.Inventory.{Strings}
use serversmonitor.Entra.Settings.{EntraConfig}
use serversmonitor.Entra.Tokens.{
  Jose, Head, Claims, KeyAnswer, Provider, Verdict, accepted, refused, Identity, audience_is,
  has_at, split_dots, three, unix, claims_error, email_of, leeway,
}
use serversmonitor.Entra.Verify.{
  key, judge, check_signed, with_key, verify_head, verify_parts, verify,
}
use serversmonitor.Entra.Keys.{OfTenant, key-OfTenant, key-keeps}

text_eq_of : (s t : String) → text_eq s t ≡ true → s ≡ t
unfolding String_discrete
text_eq_of s t h = ground (arith, h)

module _ (fl : Float) (text : Strings) (authority : String) (c : EntraConfig) (nonce : String)
    (now : fl.F) where
  -- The claims are those of a token for this application, tenant and sign-in, which has not expired.
  pub record Claimed (cl : Claims fl.F) : Type 0 where
    pub in_time : fl.gt now (fl.add cl.exp (leeway fl)) ≡ false
    pub for_sign_in : cl.nonce ≡ nonce
    pub has_nonce : nonce ≢ ""
    pub for_application : audience_is cl.aud c.client_id ≡ true
    pub from_issuer :
        cl.iss ≡ str_append (trim_slash authority) (str_append "/" (str_append cl.tid "/v2.0"))
    pub from_tenant : text.equal_fold c.tenant cl.tid ≡ true

  claims_error-Claimed :
      (cl : Claims fl.F)
      → claims_error fl text.equal_fold authority c nonce now cl ≡ none
      → Claimed cl
  unfolding claims_error
  claims_error-Claimed cl h = record {
    in_time = ground (arith, h);
    for_sign_in = ground (arith, h, text_eq_of cl.nonce nonce);
    has_nonce = λ e. ground (arith, h, e, text_eq_of cl.nonce nonce, text_eq_yes cl.nonce "");
    for_application = ground (arith, h);
    from_issuer = ground (arith, h, text_eq_of cl.iss _);
    from_tenant = ground (arith, h);
  }

module _ (fl : Float) (text : Strings) {K : Type 0} (jose : Jose fl.F K) (c : EntraConfig) where
  -- The sign-in that a token, with the answer of the key endpoint, stands for.
  pub data Genuine (p : Provider K) (answer : KeyAnswer) (id_token nonce : String) (now : Time)
      : Identity → Type 0 where
    genuine :
        (h b s : String) (hd : Head) (k : K) (sig : List ℕ) (cl : Claims fl.F)
        → three (split_dots id_token) ≡ some (h, b, s)
        → jose.head h ≡ some hd
        → hd.alg ≡ "RS256"
        → OfTenant jose p answer hd.kid now k
        → jose.base64 s ≡ some sig
        → jose.verifies k (str_append h (str_append "." b)) sig ≡ true
        → jose.claims b ≡ some cl
        → Claimed fl text p.authority c nonce (fl.of_int (unix now)) cl
        → has_at (email_of text cl) ≡ true
        → Genuine p answer id_token nonce now (record { email = email_of text cl; name = cl.name })

  judge-Claimed :
      (authority nonce : String) (now : fl.F) (cl : Claims fl.F) (id : Identity)
      → judge fl text jose c authority nonce now cl ≡ accepted id
      → Claimed fl text authority c nonce now cl
        × (has_at (email_of text cl) ≡ true)
        × (record { email = email_of text cl; name = cl.name } ≡ id)
  unfolding judge
  judge-Claimed authority nonce now cl id h =
      elim (Option-cases (claims_error fl text.equal_fold authority c nonce now cl)) [
        | inr (e, bad) ↦ absurd (cc (rw (judge, bad) at h))
        | inl fine ↦ elim (Bool-cases (has_at (email_of text cl))) [
          | inr no_mail ↦ absurd (cc (rw (judge, fine, no_mail) at h))
          | inl mail ↦ (
            claims_error-Claimed fl text authority c nonce now cl fine,
            mail,
            cc (rw (judge, fine, mail) at h),
          )
        ]
      ]

  check_signed-Genuine :
      (p : Provider K) (answer : KeyAnswer) (id_token nonce : String) (now : Time) (id : Identity)
      (h b s : String) (hd : Head) (k : K)
      → three (split_dots id_token) ≡ some (h, b, s)
      → jose.head h ≡ some hd
      → hd.alg ≡ "RS256"
      → OfTenant jose p answer hd.kid now k
      → check_signed fl text jose c p.authority nonce now k h b s ≡ accepted id
      → Genuine p answer id_token nonce now id
  unfolding check_signed
  check_signed-Genuine p answer id_token nonce now id h b s hd k parts is_head alg of v =
      elim (Option-cases (jose.base64 s)) [
        | inl e ↦ absurd (cc (rw (check_signed, e) at v))
        | inr (sig, e) ↦ elim (Bool-cases (jose.verifies k (str_append h (str_append "." b)) sig)) [
          | inr bad ↦ absurd (cc (rw (check_signed, e, bad) at v))
          | inl good ↦ elim (Option-cases (jose.claims b)) [
            | inl no_claims ↦ absurd (cc (rw (check_signed, e, good, no_claims) at v))
            | inr (cl, is_claims) ↦
                let (claimed, mail, same_id) =
                  judge-Claimed p.authority nonce (fl.of_int (unix now)) cl id
                    (rw (check_signed, e, good, is_claims) at v) in
                subst (Genuine p answer id_token nonce now) same_id
                  (genuine h b s hd k sig cl parts is_head alg of e good is_claims claimed mail)
          ]
        ]
      ]

  with_key-accepted :
      (nonce : String) (now : Time) (h b s : String) (o : Provider K × Verdict K) (id : Identity)
      → (with_key fl text jose c nonce now h b s o).1 ≡ accepted id
      → (k : K) × (o.1 ≡ accepted k)
        × (check_signed fl text jose c o.0.authority nonce now k h b s ≡ accepted id)
  with_key-accepted nonce now h b s (p, refused e) id v = absurd (cc v)
  with_key-accepted nonce now h b s (p, accepted k) id v = (k, refl, v)

  -- An accepted token is genuine.
  pub verify-Genuine :
      (p : Provider K) (answer : KeyAnswer) (id_token nonce : String) (now : Time) (id : Identity)
      → (verify fl text jose c p answer id_token nonce now).1 ≡ accepted id
      → Genuine p answer id_token nonce now id
  unfolding verify verify_parts verify_head
  verify-Genuine p answer id_token nonce now id v =
      elim (Option-cases (three (split_dots id_token))) [
        | inl e ↦ absurd (cc (rw (verify, e) at v))
        | inr ((h, b, s), parts) ↦ elim (Option-cases (jose.head h)) [
          | inl e ↦ absurd (cc (rw (verify, parts, verify_parts, e) at v))
          | inr (hd, is_head) ↦ elim (Bool-cases (text_eq hd.alg "RS256")) [
            | inr other ↦
                absurd (cc (rw (verify, parts, verify_parts, is_head, verify_head, other) at v))
            | inl rs256 ↦
                let (k, is_key, signed) =
                  with_key-accepted nonce now h b s (key jose p answer hd.kid now) id
                    (rw (verify, parts, verify_parts, is_head, verify_head, rs256) at v) in
                check_signed-Genuine p answer id_token nonce now id h b s hd k parts is_head
                  (text_eq_of hd.alg "RS256" rs256) (key-OfTenant jose p answer hd.kid now k is_key)
                  (ap (λ a. check_signed fl text jose c a nonce now k h b s)
                      (sym (key-keeps jose p answer hd.kid now).0)
                    ∙ signed)
          ]
        ]
      ]
