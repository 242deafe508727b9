-- ===== src/Entra/OneUse.antt =====
-- internal/hub/entra/entra.go: a pending sign-in is finished at most once, and only in time.
use serversmonitor.Prelude.{
  ◌≡◌, ◌≢◌, refl, ap, ◌∙◌, true, ◌||◌, not, Option, none, some, List, [], ◌∷◌, String, ◌==◌,
  text_eq, lookup, delete, String_discrete, keep_if, Bool, Bool-cases, Option-cases, inl, inr,
  arith, lookup-insert_ne, lookup-delete_self,
}
use serversmonitor.Time.{Time}
use serversmonitor.Float.{Float}
use serversmonitor.Azure.Inventory.{Strings}
use serversmonitor.Entra.Settings.{EntraConfig}
use serversmonitor.Entra.Tokens.{
  Jose, Head, KeyAnswer, Provider, Pending, Verdict, accepted, refused, not_started, Identity,
  split_dots, three,
}
use serversmonitor.Entra.Verify.{key, with_key, verify_head, verify_parts, verify}
use serversmonitor.Entra.Flow.{
  Randoms, TokenAnswer, no_answer, answered, Exchange, in_time, still_pending, start, without,
  redeem, finish_pending, finish,
}
use serversmonitor.Entra.Keys.{key-keeps}
use serversmonitor.Entra.Genuine.{Genuine, verify-Genuine}

absent-delete :
    {V : Type 0} (k j : String) (m : List (String × V))
    → lookup String_discrete k m ≡ none
    → lookup String_discrete k (delete String_discrete j m) ≡ none
unfolding lookup delete
absent-delete k j [] h = h
absent-delete k j ((i, v) ∷ m) h = ground (arith, absent-delete k j m, h)

absent-keep_if :
    {V : Type 0} (keep : String × V → Bool) (k : String) (m : List (String × V))
    → lookup String_discrete k m ≡ none
    → lookup String_discrete k (keep_if keep m) ≡ none
unfolding lookup
absent-keep_if keep k [] h = h
absent-keep_if keep k ((i, v) ∷ m) h = ground (arith, absent-keep_if keep k m, h)

module _ (fl : Float) (text : Strings) {K : Type 0} (jose : Jose fl.F K) (c : EntraConfig) where
  with_key-pending :
      (nonce : String) (now : Time) (h b s : String) (o : Provider K × Verdict K)
      → (with_key fl text jose c nonce now h b s o).0.pending ≡ o.0.pending
  with_key-pending nonce now h b s (p, refused e) = refl
  with_key-pending nonce now h b s (p, accepted k) = refl

  verify_head-pending :
      (p : Provider K) (answer : KeyAnswer) (nonce : String) (now : Time) (h b s : String)
      (o : Option Head)
      → (verify_head fl text jose c p answer nonce now h b s o).0.pending ≡ p.pending
  unfolding verify_head
  verify_head-pending p answer nonce now h b s none = refl
  verify_head-pending p answer nonce now h b s (some hd) =
      elim (Bool-cases (text_eq hd.alg "RS256")) [
        | inl e ↦
            rw (verify_head, e)
              (with_key-pending nonce now h b s (key jose p answer hd.kid now)
                ∙ (key-keeps jose p answer hd.kid now).1)
        | inr e ↦ rw (verify_head, e) refl
      ]

  verify_parts-pending :
      (p : Provider K) (answer : KeyAnswer) (nonce : String) (now : Time)
      (o : Option (String × String × String))
      → (verify_parts fl text jose c p answer nonce now o).0.pending ≡ p.pending
  unfolding verify_parts
  verify_parts-pending p answer nonce now none = refl
  verify_parts-pending p answer nonce now (some (h, b, s)) =
      verify_head-pending p answer nonce now h b s (jose.head h)

  module _ (x : Exchange) where
    redeem-pending :
        (p : Provider K) (nonce : String) (now : Time) (a : TokenAnswer)
        → (redeem fl text jose c x p nonce now a).0.pending ≡ p.pending
    unfolding redeem verify
    redeem-pending p nonce now no_answer = refl
    redeem-pending p nonce now (answered code token) =
        elim (Bool-cases (not (code == 200) || text_eq token "")) [
          | inl e ↦ rw (redeem, e) refl
          | inr e ↦
              rw (redeem, e) (verify_parts-pending p x.keys nonce now (three (split_dots token)))
        ]

    finish_pending-pending :
        (p : Provider K) (now : Time) (o : Option Pending)
        → (finish_pending fl text jose c x p now o).0.pending ≡ p.pending
    unfolding finish_pending
    finish_pending-pending p now none = refl
    finish_pending-pending p now (some pd) = elim (Bool-cases (in_time now pd.at)) [
      | inl e ↦ rw (finish_pending, e) (redeem-pending p pd.nonce now (x.token pd.verifier))
      | inr e ↦ rw (finish_pending, e) refl
    ]

    pub finish-pending :
        (p : Provider K) (state : String) (now : Time)
        → (finish fl text jose c x p state now).0.pending ≡ delete String_discrete state p.pending
    unfolding finish without
    finish-pending p state now =
        finish_pending-pending (without p state) now (lookup String_discrete state p.pending)

    -- What a sign-in that Finish accepts has shown: it was pending under its state, not for longer than
    -- the time that it may take, and the code, with the verifier that was kept, gave a genuine token for
    -- the nonce that was kept.
    pub data Begun (p : Provider K) (state : String) (now : Time) (id : Identity) : Type 0 where
      begun :
          (pd : Pending) (token : String)
          → lookup String_discrete state p.pending ≡ some pd
          → in_time now pd.at ≡ true
          → x.token pd.verifier ≡ answered 200 token
          → Genuine fl text jose c (without p state) x.keys token pd.nonce now id
          → Begun p state now id

    redeem-Genuine :
        (p : Provider K) (nonce : String) (now : Time) (a : TokenAnswer) (id : Identity)
        → (redeem fl text jose c x p nonce now a).1 ≡ accepted id
        → (token : String) × (a ≡ answered 200 token)
          × Genuine fl text jose c p x.keys token nonce now id
    unfolding redeem
    redeem-Genuine p nonce now no_answer id v = absurd (cc v)
    redeem-Genuine p nonce now (answered code token) id v =
        elim (Bool-cases (not (code == 200) || text_eq token "")) [
          | inl e ↦ absurd (cc (rw (redeem, e) at v))
          | inr e ↦ (
            token,
            ap (λ n. answered n token) (ground (arith, e)),
            verify-Genuine fl text jose c p x.keys token nonce now id (rw (redeem, e) at v),
          )
        ]

    pub finish-Begun :
        (p : Provider K) (state : String) (now : Time) (id : Identity)
        → (finish fl text jose c x p state now).1 ≡ accepted id
        → Begun p state now id
    unfolding finish finish_pending
    finish-Begun p state now id v = elim (Option-cases (lookup String_discrete state p.pending)) [
      | inl e ↦ absurd (cc (rw (finish, e) at v))
      | inr (pd, e) ↦ elim (Bool-cases (in_time now pd.at)) [
        | inr late ↦ absurd (cc (rw (finish, e, finish_pending, late) at v))
        | inl early ↦
            let (token, given, good) =
              redeem-Genuine (without p state) pd.nonce now (x.token pd.verifier) id
                (rw (finish, e, finish_pending, early) at v) in
            begun pd token e early given good
      ]
    ]

-- What may happen to the pending sign-ins of others: one is started, or finished.
pub data Others (fl : Float) (text : Strings) {K : Type 0} (jose : Jose fl.F K) (state : String)
    (p : Provider K) : Provider K → Type 1 where
  no_more : Others fl text jose state p p
  started :
      {q : Provider K} (r : Randoms) (now : Time)
      → r.state ≢ state
      → Others fl text jose state p q
      → Others fl text jose state p (start q r now)
  finished :
      {q : Provider K} (c : EntraConfig) (x : Exchange) (other : String) (now : Time)
      → Others fl text jose state p q
      → Others fl text jose state p (finish fl text jose c x q other now).0

module _ (fl : Float) (text : Strings) {K : Type 0} (jose : Jose fl.F K) (state : String) where
  Others-absent :
      {p q : Provider K}
      → Others fl text jose state p q
      → lookup String_discrete state p.pending ≡ none
      → lookup String_discrete state q.pending ≡ none
  unfolding start
  Others-absent no_more h = h
  Others-absent (started {q = q} r now other os) h =
      lookup-insert_ne String_discrete r.state state _ (keep_if (still_pending now) q.pending) other
      ∙ absent-keep_if (still_pending now) state q.pending (Others-absent os h)
  Others-absent (finished {q = q} c x s now os) h =
      ap (lookup String_discrete state) (finish-pending fl text jose c x q s now)
      ∙ absent-delete state s q.pending (Others-absent os h)

  -- A callback that comes a second time finds nothing, however the first one ended, whatever happened
  -- to other sign-ins in between, and whatever Entra answers.
  pub finish-once :
      (c c' : EntraConfig) (x x' : Exchange) (p q : Provider K) (now now' : Time)
      → Others fl text jose state (finish fl text jose c x p state now).0 q
      → (finish fl text jose c' x' q state now').1 ≡ refused not_started
  unfolding finish finish_pending
  finish-once c c' x x' p q now now' os = rw (finish, Others-absent os first) refl
    where
      first : lookup String_discrete state (finish fl text jose c x p state now).0.pending ≡ none
      first =
          ap (lookup String_discrete state) (finish-pending fl text jose c x p state now)
          ∙ lookup-delete_self String_discrete state p.pending
