-- ===== src/Server/Lockout.antt =====
-- internal/hub/server/api_auth.go, handleLogin, with internal/hub/auth/limiter.go: guessing a password.
use serversmonitor.Prelude.{
  ◌≤◌, ◌≡◌, refl, ap, ◌∙◌, true, false, Option, none, some, List, [], ◌∷◌, String, map, length, All,
  arith,
}
use serversmonitor.Time.{Time, time_sub, dur_le}
use serversmonitor.Store.Users.{user_by_email}
use serversmonitor.Auth.Limiter.{Limiter, allowed, fail}
use serversmonitor.Auth.Lockout.{entry_of, fail_all, allowed_few, allowed_after_failures}
use serversmonitor.Server.Requests.{Credentials, status, Web, Env}
use serversmonitor.Server.Handlers.{fold, may_log_in, log_in, handle_login}

module _ (env : Env) (client : String) where
  -- The e-mail and the password are not those of a local account.
  abbrev pub Wrong : Web env.K → Credentials × Time → Type 0
  Wrong w a =
      may_log_in env (user_by_email (fold env) w.accounts.users a.0.email) a.0.password ≡ false

  -- Logins from one client, the latest first.
  unfoldable pub log_ins : Web env.K → List (Credentials × Time) → Web env.K
  log_ins w [] = w
  log_ins w (a ∷ as_before) = (handle_login env (log_ins w as_before) client (some a.0) none a.1).0

  abbrev times : List (Credentials × Time) → List Time
  times as_before = map (λ a. a.1) as_before

  length-times :
      (as_before : List (Credentials × Time)) → length (times as_before) ≡ length as_before
  length-times [] = refl
  length-times (a ∷ as_before) = omega (arith, length-times as_before)

  handle_login-Wrong :
      (w : Web env.K) (l : Limiter) (a : Credentials × Time)
      → Wrong w a
      → allowed l client a.1 ≡ (l, true)
      → (handle_login env (record w { limiter = l }) client (some a.0) none a.1).0
        ≡ record w { limiter = fail l client a.1 }
  unfolding handle_login log_in
  handle_login-Wrong w l a wrong ok = rw (handle_login, ok, log_in, wrong) refl

  log_ins-fail_all :
      (w : Web env.K) (as_before : List (Credentials × Time))
      → All (Wrong w) as_before
      → length as_before ≤ w.limiter.max_failures
      → entry_of w.limiter client ≡ none
      → log_ins w as_before ≡ record w { limiter = fail_all w.limiter client (times as_before) }
  unfolding log_ins fail_all
  log_ins-fail_all w [] wrong few free = refl
  log_ins-fail_all w (a ∷ as_before) wrong few free =
      ap (λ v. (handle_login env v client (some a.0) none a.1).0)
        (log_ins-fail_all w as_before wrong.1 (omega (arith, few)) free)
      ∙ handle_login-Wrong w (fail_all w.limiter client (times as_before)) a wrong.0 (
          allowed_few w.limiter client (times as_before) a.1 free
            (rw (length-times as_before) (omega (arith, few))))

  -- After as many wrong logins in a row as the limiter allows, from a client that it did not know, every
  -- login from there is answered 429 until the lockout has passed since the last of them: not even the
  -- right password gives a session.
  pub locked_out :
      (w : Web env.K) (a : Credentials × Time) (as_before : List (Credentials × Time))
      (body : Option Credentials) (token : Option String) (now : Time)
      → entry_of w.limiter client ≡ none
      → All (Wrong w) (a ∷ as_before)
      → length (a ∷ as_before) ≡ w.limiter.max_failures
      → dur_le w.limiter.lockout (time_sub now a.1) ≡ false
      → ((handle_login env (log_ins w (a ∷ as_before)) client body token now).1 ≡ status 429)
        × ((handle_login env (log_ins w (a ∷ as_before)) client body token now).0.accounts
            ≡ w.accounts)
  unfolding handle_login
  locked_out w a as_before body token now free wrong full early =
      rw (log_ins-fail_all w (a ∷ as_before) wrong (omega (arith, full)) free, handle_login, shut)
        (refl, refl)
    where
      shut : (allowed (fail_all w.limiter client (times (a ∷ as_before))) client now).1 ≡ false
      shut =
          allowed_after_failures w.limiter client a.1 (times as_before) now free
          ∙ rw (length-times as_before) (ground (arith, full, early))
