-- ===== src/Server/Requests.antt =====
-- internal/hub/server/server.go, api_auth.go and api_users.go: a request and its answer. A body that was
-- not decoded is `none`; a path id that is no positive number too.
use serversmonitor.Prelude.{ℕ, Bool, Option, String}
use serversmonitor.Time.{Time}
use serversmonitor.Float.{Float}
use serversmonitor.Store.Users.{Accounts}
use serversmonitor.Store.Settings.{SettingsTable}
use serversmonitor.Auth.Limiter.{Limiter}
use serversmonitor.Azure.Inventory.{Strings}
use serversmonitor.Entra.Tokens.{Jose, Provider, SignInError}
use serversmonitor.Entra.Flow.{Randoms, Exchange}

-- credentials
pub record Credentials : Type 0 where
  pub email : String
  pub password : String

pub record PasswordChange : Type 0 where
  pub current : String
  pub new : String

pub record NewUser : Type 0 where
  pub email : String
  pub role : String

-- The body of handlePutEntraSettings; a secret that is left out is `none`.
pub record EntraInput : Type 0 where
  pub tenant : String
  pub client_id : String
  pub client_secret : Option String

-- The query of a callback, its cookie, and what Entra answers.
pub record Callback : Type 0 where
  pub error : String
  pub state : String
  pub state_cookie : Option String
  pub exchange : Exchange

-- A route with what the request carries; the texts are the session tokens that the system would draw,
-- `none` when it fails.
pub data Route : Type 0 where
  setup : Option Credentials → Option String → Route
  login : Option Credentials → Option String → Route
  logout : Route
  password : Option PasswordChange → Route
  add_account : Option NewUser → Route
  set_role : Option ℕ → Option String → Route
  delete_account : Option ℕ → Route
  put_entra : Option EntraInput → Route
  entra_start : Option Randoms → Route
  entra_callback : Callback → Option String → Route

pub record Request : Type 0 where
  pub cookie : Option String
  -- clientKey
  pub client : String
  pub at : Time
  pub route : Route

pub data LoginError : Type 0 where
  not_configured no_randoms stopped_by_entra other_browser not_allowed no_session : LoginError
  sign_in_refused : SignInError → LoginError

pub data Reply : Type 0 where
  status : ℕ → Reply
  -- to Microsoft, with the state of the cookie
  redirected : String → Reply
  signed_in_page : Reply
  login_error : LoginError → Reply

-- The parts of the server that these routes read and change.
pub record Web (K : Type 0) : Type 0 where
  pub accounts : Accounts
  pub settings : SettingsTable
  pub limiter : Limiter
  pub provider : Provider K

-- What the code takes from the standard library, the password hash and Entra's libraries.
pub record Env : Type 1 where
  pub float : Float
  pub K : Type 0
  pub jose : Jose float.F K
  pub text : Strings
  -- `len(s)`
  pub byte_length : String → ℕ
  -- HashPassword, when the system gives a salt, and VerifyPassword
  pub hash_password : String → Option String
  pub verify_password : String → String → Bool
  -- SessionTTL
  pub session_ttl : ℕ
