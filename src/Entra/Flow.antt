-- ===== src/Entra/Flow.antt =====
-- internal/hub/entra/entra.go: Start and Finish. The random texts and the answer of the token endpoint
-- are given. The mutex makes each change of the pending sign-ins one step.
use serversmonitor.Prelude.{
  ℕ, ◌*◌, Bool, ◌||◌, not, Option, none, some, [], String, ◌==◌, text_eq, if◌then◌else◌, lookup,
  insert, delete, String_discrete, keep_if,
}
use serversmonitor.Prelude.Int.{pos}
use serversmonitor.Time.{Time, Duration, minute, time_sub, dur_le}
use serversmonitor.Float.{Float}
use serversmonitor.Azure.Inventory.{Strings}
use serversmonitor.Entra.Settings.{EntraConfig}
use serversmonitor.Entra.Tokens.{
  Jose, KeyAnswer, Provider, Pending, Verdict, refused, not_started, endpoint_unreachable,
  code_refused, Identity,
}
use serversmonitor.Entra.Verify.{verify}

abbrev pub login_ttl : Duration
login_ttl = pos (10 * minute)

abbrev pub default_authority : String
default_authority = "https://login.microsoftonline.com"

-- NewProvider
unfoldable pub new_provider : {K : Type 0} → Provider K
new_provider = record { authority = default_authority; pending = []; keys = []; keys_at = 0 }

-- `now.Sub(at) <= loginTTL`
abbrev pub in_time : Time → Time → Bool
in_time now at = dur_le (time_sub now at) login_ttl

-- The three random texts of Start, when the system gives them.
pub record Randoms : Type 0 where
  pub state : String
  pub verifier : String
  pub nonce : String

-- What the token endpoint answers: a status and the ID token, empty when it gives none.
pub data TokenAnswer : Type 0 where
  no_answer : TokenAnswer
  answered : ℕ → String → TokenAnswer

abbrev pub still_pending : Time → String × Pending → Bool
still_pending now kv = in_time now kv.1.at

-- Start
unfoldable pub start : {K : Type 0} → Provider K → Randoms → Time → Provider K
start p r now = record p {
  pending =
      insert String_discrete r.state (record { verifier = r.verifier; nonce = r.nonce; at = now })
        (keep_if (still_pending now) p.pending);
}

-- The pending sign-in is taken out whatever follows.
unfoldable pub without : {K : Type 0} → Provider K → String → Provider K
without p state = record p { pending = delete String_discrete state p.pending }

-- What a callback answers for: the exchange of a code, with a verifier, for a token.
pub record Exchange : Type 0 where
  pub token : String → TokenAnswer
  pub keys : KeyAnswer

module _ (fl : Float) (text : Strings) {K : Type 0} (jose : Jose fl.F K) (c : EntraConfig)
    (x : Exchange) where
  -- Finish after the token endpoint.
  unfoldable pub redeem : Provider K → String → Time → TokenAnswer → Provider K × Verdict Identity
  redeem p nonce now no_answer = (p, refused endpoint_unreachable)
  redeem p nonce now (answered status id_token) =
      if not (status == 200) || text_eq id_token ""
      then (p, refused code_refused)
      else verify fl text jose c p x.keys id_token nonce now

  unfoldable pub finish_pending : Provider K → Time → Option Pending → Provider K × Verdict Identity
  finish_pending p now none = (p, refused not_started)
  finish_pending p now (some pd) =
      if in_time now pd.at
      then redeem p pd.nonce now (x.token pd.verifier)
      else (p, refused not_started)

  -- Finish
  unfoldable pub finish : Provider K → String → Time → Provider K × Verdict Identity
  finish p state now = finish_pending (without p state) now (lookup String_discrete state p.pending)
