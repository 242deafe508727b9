-- ===== src/Ingest/Serve.antt =====
-- internal/hub/ingest/handler.go, ServeHTTP and serve: the greeting of an agent, then one step for each
-- message, with the instants at which the clock is read. Accepting the socket and writing the welcome
-- are given.
use serversmonitor.Prelude.{
  ℕ, ◌+◌, ◌-◌, Bool, false, ◌&&◌, Option, none, some, List, [], ◌∷◌, ◌++◌, String, if◌then◌else◌,
  ltb, text_eq,
}
use serversmonitor.Time.{Time, second}
use serversmonitor.Store.Rows.{Host, online}
use serversmonitor.Store.Hosts.{HostRow, HostInfo, host_by_token, update_host_info, set_host_status}
use serversmonitor.Store.Samples.{SampleTables, insert_sample, stored, stale, key_taken}
use serversmonitor.Proto.Messages.{Hello, Sample, hello, sample}
use serversmonitor.Proto.Codec.{Decoded, message}

abbrev pub default_min_sample_gap : ℕ
default_min_sample_gap = second

-- What the handler writes: the tables, and the hosts whose change it published.
pub record Hub (F : Type 0) : Type 0 where
  pub hosts : List HostRow
  pub tables : SampleTables F
  pub published : List ℕ

pub data Login : Type 0 where
  logged_in : Host → Login
  missing_token invalid_token : Login

-- ServeHTTP up to the accepting of the socket; the token is what follows `Bearer `.
unfoldable pub authorize : (String → String) → List HostRow → String → Login
authorize hash rows token =
    if text_eq token ""
    then missing_token
    else elim (host_by_token hash rows token) [ none ↦ invalid_token | some h ↦ logged_in h ]

abbrev pub or_else : {A : Type 0} → A → Option A → A
or_else a none = a
or_else a (some b) = b

pub data Greeting (F : Type 0) : Type 0 where
  expected_hello : Greeting F
  greeted : Hub F → Greeting F

abbrev pub info_of : Hello → HostInfo
info_of h = record {
  os = h.os;
  arch = h.arch;
  hostname = h.hostname;
  agent_version = h.agent_version;
  cores = h.cores;
  mem_total = h.mem_total;
}

-- The readings of the clock in one turn of the loop: the arrival, after which the insertion takes some
-- time before lastAccepted is set, and then some more passes before the host is marked.
pub record Turn : Type 0 where
  pub arrived : Time
  pub insert_took : ℕ
  pub mark_took : ℕ

-- `time.Now()` once the sample is in the table, and that of `seen`
abbrev pub inserted_at : Turn → Time
inserted_at t = t.arrived + t.insert_took

abbrev pub seen_at : Turn → Time
seen_at t = inserted_at t + t.mark_took

-- A connection that is being read; the instant is that after the last sample was stored.
pub record Reading (F : Type 0) : Type 0 where
  pub hub : Hub F
  pub last_accepted : Option Time

pub data Step (F : Type 0) : Type 0 where
  closed_malformed : Step F
  goes_on : Reading F → Step F

-- The rate cap.
abbrev pub too_soon : ℕ → Option Time → Time → Bool
too_soon gap none now = false
too_soon gap (some last) now = ltb 0 gap && ltb (now - last) gap

module _ {F : Type 0} where
  -- A failed update is logged and changes nothing.
  unfoldable pub mark_online : Hub F → ℕ → Time → Hub F
  mark_online hub id now = record hub {
    hosts = or_else hub.hosts (set_host_status hub.hosts id online (some now));
  }

  abbrev pub publish_host : Hub F → ℕ → Hub F
  publish_host hub id = record hub { published = hub.published ++ id ∷ [] }

  -- The first message, when the welcome can be written.
  unfoldable pub greet : Hub F → ℕ → Time → Decoded F → Greeting F
  greet hub id now (message (hello h)) =
      let hub' = record hub {
        hosts = or_else hub.hosts (update_host_info hub.hosts id (info_of h));
      } in
      greeted (publish_host (mark_online hub' id now) id)
  greet hub id now _ = expected_hello

  unfoldable pub store_sample : Reading F → ℕ → Turn → Sample F → Reading F
  store_sample rd id turn sm = elim (insert_sample rd.hub.tables id sm) [
    | stored t ↦ record {
      hub = publish_host (mark_online (record rd.hub { tables = t }) id (seen_at turn)) id;
      last_accepted = some (inserted_at turn);
    }
    | stale ↦ rd
    | key_taken ↦ rd
  ]

  unfoldable pub receive_sample : ℕ → Reading F → ℕ → Turn → Sample F → Reading F
  receive_sample gap rd id turn sm =
      if too_soon gap rd.last_accepted turn.arrived then rd else store_sample rd id turn sm

  -- One turn of the loop of serve.
  unfoldable pub receive : ℕ → Reading F → ℕ → Turn → Decoded F → Step F
  receive gap rd id turn (message (sample sm)) = goes_on (receive_sample gap rd id turn sm)
  receive gap rd id turn (message m) = goes_on rd
  receive gap rd id turn _ = closed_malformed
