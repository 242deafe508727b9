-- ===== src/Examples/SignIn.antt =====
-- Requests to the server: a sign-in through Microsoft, one that is tried twice, and guessed passwords.
use Prim.Native.String.{◌++◌ as str_append}
use serversmonitor.Prelude.{
  List, sym, ℕ, ◌+◌, ◌*◌, ◌≡◌, refl, false, none, some, [], ◌∷◌, String, String_discrete, All,
  lookup, insert, delete, arith, text_eq, ◌==◌, ◌&&◌,
}
use serversmonitor.Store.Stamps.{stamp_lt}
use serversmonitor.Prelude.Int.{pos}
use serversmonitor.Time.{Time, second, minute}
use serversmonitor.Store.Users.{
  admin, viewer, local, entra, User, user_by_email, user_by_id, session_user, live_session,
  is_admin,
}
use serversmonitor.Store.AdminCounts.{local_admins, UniqueIds, KeepsAdmin}
use serversmonitor.Auth.Limiter.{new_limiter}
use serversmonitor.Entra.Settings.{load, is_guid, is_match, piece_rest, hex_run, is_hex, after_dash}
use serversmonitor.Text.{trim_slash}
use serversmonitor.Entra.Tokens.{
  Jose, one, refused, not_started, audience_is, claims_error, email_of, has_at, unix, split_dots,
  three,
}
use serversmonitor.Entra.Verify.{
  key, fetch_key, published, usable_key, check_signed, judge, verify, verify_parts, verify_head,
}
use serversmonitor.Entra.Flow.{
  new_provider, start, finish, Exchange, answered, Randoms, without, redeem, finish_pending,
}
use serversmonitor.Entra.Tokens.{keys_answered}
use serversmonitor.Entra.OneUse.{no_more, finish-once}
use serversmonitor.Entra.Saved.{OneTenant}
use serversmonitor.Server.Requests.{
  Credentials, setup, delete_account, put_entra, entra_callback, Callback, Request, status, Web,
  Env,
}
use serversmonitor.Server.Handlers.{handle_login, set_session, current_user}
use serversmonitor.Server.Routes.{serve, serve_route, handle_entra_callback, admit}
use serversmonitor.Server.Effects.{Fine}
use serversmonitor.Server.Served.{serve-Effect}
use serversmonitor.Server.Privilege.{serve-unprivileged}
use serversmonitor.Server.Sessions.{Origin, serve-Origin}
use serversmonitor.Server.Runs.{run, run-setup_refused}
use serversmonitor.Server.Callbacks.{LetsIn, serve-LetsIn, run-OneTenant}
use serversmonitor.Server.Lockout.{log_ins, locked_out}
use serversmonitor.Examples.Data.{cents}
use serversmonitor.Examples.Sync.{plain_text}

abbrev noon : Time
noon = (62_135_596_800 + 1000) * second

abbrev tenant : String
tenant = "00000000-0000-0000-0000-00000000000a"

abbrev issuer : String
issuer = str_append "https://login.microsoftonline.com/" (str_append tenant "/v2.0")

abbrev toy_jose : Jose ℕ ℕ
toy_jose = record {
  base64 = λ s. some (1 ∷ []);
  head = λ s. some (record { alg = "RS256"; kid = "k" });
  claims = λ s. some (record {
    iss = issuer;
    aud = one "app";
    exp = 200000;
    nbf = 0;
    nonce = "n";
    tid = tenant;
    email = "bob@x";
    preferred_username = "";
    name = "Bob";
  });
  make_key = λ n e. 7;
  verifies = λ k s sig. k == 7 && text_eq s "h.b";
}

abbrev toy : Env
toy = record {
  float = cents;
  K = ℕ;
  jose = toy_jose;
  text = plain_text;
  byte_length = λ s. 9;
  hash_password = λ s. some s;
  verify_password = text_eq;
  session_ttl = 30 * minute;
}

abbrev ann : User
ann = record {
  id = 1;
  email = "ann@x";
  password_hash = "secret";
  role = admin;
  provider = local;
  created_at = 0;
}

abbrev bob : User
bob = record {
  id = 2;
  email = "bob@x";
  password_hash = "";
  role = viewer;
  provider = entra;
  created_at = 5;
}

abbrev sign_in : Randoms
sign_in = record { state = "s"; verifier = "v"; nonce = "n" }

abbrev hub : Web ℕ
hub = record {
  accounts = record {
    users = ann ∷ bob ∷ [];
    sessions = record { token = "bobs"; user_id = 2; expires_at = noon + minute } ∷ [];
  };
  settings =
      ("entra_tenant", tenant) ∷ ("entra_client_id", "app") ∷ ("entra_client_secret", "x") ∷ [];
  limiter = new_limiter 1 (pos minute);
  provider = start new_provider sign_in noon;
}

abbrev entra_answers : Exchange
entra_answers = record {
  token = λ v. answered 200 "h.b.s";
  keys = keys_answered (record { kty = "RSA"; kid = "k"; n = "n"; e = "e" } ∷ []);
}

abbrev back : Callback
back = record { error = ""; state = "s"; state_cookie = some "s"; exchange = entra_answers }

abbrev returns : Request
returns = record {
  cookie = none;
  client = "c";
  at = noon + minute;
  route = entra_callback back (some "t");
}

-- Bob's session asks for the deletion of Ann's account.
abbrev presumes : Request
presumes = record { cookie = some "bobs"; client = "c"; at = noon; route = delete_account (some 1) }

abbrev sets_up : Request
sets_up = record {
  cookie = none;
  client = "c";
  at = noon;
  route = setup (some (record { email = "eve@x"; password = "password" })) (some "t");
}

abbrev guess : Credentials
guess = record { email = "ann@x"; password = "guess" }

abbrev right : Credentials
right = record { email = "ann@x"; password = "secret" }

serve-Effect_example : Fine toy hub returns (serve toy hub returns)
serve-Effect_example = serve-Effect toy hub returns

serve-Origin_example : All (Origin toy hub returns) (serve toy hub returns).0.accounts.sessions
serve-Origin_example = serve-Origin toy hub returns

serve-LetsIn_example : LetsIn toy hub returns back
unfolding serve serve_route handle_entra_callback finish finish_pending redeem verify verify_parts
    verify_head key fetch_key published usable_key check_signed judge claims_error audience_is
    email_of has_at unix split_dots three without start new_provider load lookup insert delete
    String_discrete admit set_session user_by_email trim_slash
serve-LetsIn_example = serve-LetsIn toy hub returns back (some "t") refl refl

finish-once_example :
    (finish cents plain_text toy_jose
      (load hub.settings)
      entra_answers
      (finish cents plain_text toy_jose (load hub.settings) entra_answers hub.provider "s" noon).0
      "s"
      noon).1
    ≡ refused not_started
finish-once_example =
    finish-once cents plain_text toy_jose "s" (load hub.settings) (load hub.settings) entra_answers
      entra_answers hub.provider
      (finish cents plain_text toy_jose (load hub.settings) entra_answers hub.provider "s" noon).0
      noon noon no_more

-- A hub with no registration, on which Ann is signed in.
abbrev new_hub : Web ℕ
new_hub = record hub {
  accounts = record {
    users = ann ∷ [];
    sessions = record { token = "anns"; user_id = 1; expires_at = noon + minute } ∷ [];
  };
  settings = [];
}

abbrev registers_as : String → Request
registers_as t = record {
  cookie = some "anns";
  client = "c";
  at = noon;
  route = put_entra (some (record { tenant = t; client_id = "app"; client_secret = some "x" }));
}

-- Ann registers the hub with her directory, then tries an alias for all directories, in vain.
abbrev registrations : List Request
registrations = registers_as tenant ∷ registers_as "common" ∷ []

run-OneTenant_example : OneTenant (load (run toy new_hub registrations).settings)
unfolding lookup
run-OneTenant_example = run-OneTenant toy new_hub registrations refl

registered_tenant : (load (run toy new_hub registrations).settings).tenant ≡ tenant
unfolding run serve serve_route load lookup serversmonitor.Server.Routes.guarded current_user
    session_user live_session String_discrete stamp_lt user_by_id
    serversmonitor.Server.Routes.handle serversmonitor.Server.Handlers.handle_put_entra_settings
    serversmonitor.Entra.Settings.validate is_guid is_match piece_rest hex_run is_hex after_dash
    serversmonitor.Entra.Settings.save insert delete serversmonitor.Entra.Settings.enabled
    trim_slash without
registered_tenant = refl

run-setup_refused_example :
    KeepsAdmin (run toy hub (presumes ∷ [])).accounts
    × (serve toy (run toy hub (presumes ∷ [])) sets_up ≡ (run toy hub (presumes ∷ []), status 403))
unfolding UniqueIds local_admins user_by_id
run-setup_refused_example =
    run-setup_refused toy hub (presumes ∷ []) sets_up _ _ (((refl, (refl, tt)), omega arith)) refl

serve-unprivileged_example :
    ((serve toy hub presumes).0.accounts.users ≡ hub.accounts.users)
    × ((serve toy hub presumes).0.settings ≡ hub.settings)
unfolding session_user current_user live_session user_by_id String_discrete stamp_lt
serve-unprivileged_example = serve-unprivileged toy hub presumes reads_only (omega arith)
  where
    same_user : (u v : User) → some u ≡ some v → u.role ≡ v.role
    same_user u v e = cc e

    reads_only : (u : User) → current_user toy hub presumes ≡ some u → is_admin u.role ≡ false
    reads_only u e = rw (sym (same_user bob u e)) refl

locked_out_example :
    ((handle_login toy
        (log_ins toy "c" hub ((guess, noon) ∷ []))
        "c"
        (some right)
        (some "t")
        noon).1
      ≡ status 429)
    × ((handle_login toy
          (log_ins toy "c" hub ((guess, noon) ∷ []))
          "c"
          (some right)
          (some "t")
          noon).0.accounts
        ≡ hub.accounts)
unfolding lookup new_limiter user_by_email String_discrete
locked_out_example =
    locked_out toy "c" hub (guess, noon) [] (some right) (some "t") noon refl (refl, tt) refl refl
