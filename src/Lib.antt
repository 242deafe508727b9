-- ===== src/Lib.antt =====
-- Verification of serversmonitor: a hub that watches hosts through agents, raises alerts, guards an
-- Azure account and tells people through channels (internal/hub), and the agent (internal/agent).
--
-- How the parts interact. Every minute the hub evaluates the alert rules on the latest samples
-- (Alerts), journals the transitions in SQLite (Store), writes one delivery row for each channel that
-- a transition is routed to and queues a job for it (Hub.Notifying, Notify.Route), unless the channel
-- is in its quiet hours; the dispatcher sends the jobs with retries (Notify). The same tick releases
-- what waited for the end of quiet hours and repeats what still fires (Hub.Reminders). On a restart the
-- machine is rebuilt from the journal (Hub.Alerting), pending deliveries are sent again, and Azure
-- actions that were in flight are closed (Hub.Actions, Store.AzureActions). Guardrails turns the
-- account's figures and resources into wanted states and these into journal lines; its windows also
-- serve as quiet hours. Agents (Agent.Link) hold a WebSocket to the hub, which keeps one connection for
-- each host and stores each sample with its containers (Ingest, Store.Samples). Sweeps of Azure
-- (Hub.AzureSync) bring the table of resources up to date from Azure's lists, which are read page by
-- page with retries (Azure), and hand the verdicts on orphans to the guardrails; the hub creates
-- machines and deletes what it created (Hub.Provisioning, over Azure.Provision and Azure.Delete).
-- People sign in with a password, behind the limiter, or through Microsoft (Entra), and every request
-- to the accounts passes the guard of sessions and roles (Server). Every method that runs under a mutex
-- and every SQL statement is one step on an explicit state.
--
-- Which file models what:
--   Alerts/Machine       internal/hub/alerts/machine.go: Machine, Observe, Restore, Forget
--   Alerts/Evaluate      internal/hub/alerts/evaluate.go: MetricValue, applicable, Evaluate
--   Store/Rows           the rows of internal/hub/store and the samples of internal/proto
--   Store/AlertEvents    internal/hub/store/alerts.go: InsertAlertEvent, LastEventPerKey
--   Store/Deliveries     internal/hub/store/deliveries.go
--   Store/AzureActions   internal/hub/store/azure_actions.go
--   Hub/Alerting         internal/hub/hub.go: the machine in New, evaluate
--   Hub/Notifying        internal/hub/notify.go: notify, message; quietNow, holdFor; the links of
--                        internal/hub/notify/channel.go
--   Hub/Reminders        internal/hub/reminders.go; replayPendingDeliveries of internal/hub/notify.go
--   Hub/Actions          internal/hub/azure_action.go, Supports of internal/hub/azure/actions.go
--   Hub/GuardrailNotices internal/hub/guardrails_hub.go: journalGuardrails and the alert of a failed
--                        schedule; notifyGuardrails, remindGuardrails; internal/hub/store/guardrails.go
--   Hub/Schedules        internal/hub/guardrails_hub.go: runSchedules;
--                        internal/hub/store/azure_schedules.go
--   Store/Users          internal/hub/store/users.go
--   Guardrails/Transitions, Guardrails/Budget   internal/hub/guardrails/budget.go
--   Guardrails/Orphans   internal/hub/guardrails/orphans.go
--   Guardrails/Windows, Guardrails/Schedule     internal/hub/guardrails/schedule.go
--   Notify/Message, Notify/Route   internal/hub/notify/message.go and channel.go
--   Notify/Dispatcher, Notify/Deliver           internal/hub/notify/dispatcher.go
--   Azure/Async          internal/hub/azure/async.go
--   Azure/Client         internal/hub/azure/client.go: attempt, doResponse, GetAll
--   Azure/Inventory, Azure/OrphanReads          internal/hub/azure/inventory.go and orphans.go
--   Azure/Delete         internal/hub/azure/delete.go
--   Azure/ProvisionConfig, Azure/Provision      internal/hub/azure/provision_config.go, outbound.go
--                        and provision.go
--   Store/Inventory      internal/hub/store/azure.go
--   Store/Provisions     internal/hub/store/azure_provisions.go
--   Store/Hosts, Store/Stale   internal/hub/store/hosts.go
--   Store/Stamps         internal/hub/store/store.go: fmtTime, and the order of its texts in SQLite
--   Store/Samples        internal/hub/store/samples.go
--   Hub/AzureSync        internal/hub/azure_sync.go; the sweeps' part of internal/hub/guardrails_hub.go
--   Hub/Provisioning     internal/hub/azure_provision.go
--   Ingest/Registry, Ingest/Serve               internal/hub/ingest/handler.go
--   Proto/Messages, Proto/Codec                 internal/proto
--   Agent/Link           internal/agent/link/link.go
--   Auth/Limiter         internal/hub/auth/limiter.go
--   Store/Settings       the settings of internal/hub/store/store.go
--   Entra/Settings, Entra/Tokens, Entra/Verify, Entra/Flow   internal/hub/entra/entra.go
--   Server/Requests, Server/Handlers, Server/Routes   internal/hub/server/server.go: auth and
--                        setSession; api_auth.go and api_users.go
--   Agent/Buffer         internal/agent/link/buffer.go
-- The other files below these modules hold the proofs, named for what they prove. Prelude, Time,
-- Calendar, Float and Text model what the source takes from Go; Examples runs the theorems.
--
-- Bounds. Times are nanoseconds since the zero Time, durations signed nanoseconds; the saturation of
-- time.Duration at 292 years is left out. A float64 is a parameter (Float), with the order of IEEE 754
-- on values that are no NaN where a theorem needs it. Loops are structural, but for the polls of an
-- Azure operation, whose 600 rounds are those of the source, and the digits of a number, whose fuel is
-- the number itself. A Go map is an association list, and where its order shows, the order is a
-- parameter or the order of the list, which stands for any. Text that is taken apart byte by byte is a
-- list of bytes; TrimSpace is taken on ASCII. The database compares times as text, in a form whose
-- order is that of the instants but for two instants within one second: the tables of hosts, samples,
-- sessions, Azure resources and runs compare that text (Store/Stamps), the others, such as the latest
-- reminder of a fired event, the instants. What the network answers, an HTTP response, a list of
-- Azure, a message of a socket, is an argument of the step that reads it, and so are the readings of
-- the clock in a step that reads it more than once and keeps what it read.
--
-- Not modelled: SQL beyond the statements named (opening, migrations, errors of the database, which
-- the source logs and passes over), the cascade that deletes events and deliveries with their host or
-- rule, the other routes of the HTTP server and the pages, SMTP, webhooks and Teams, the bodies of the
-- requests to Azure and the reading of its JSON, its costs and tokens, retention, the agent's
-- collectors, and the hashing of passwords.
mod Prelude
pub mod Proto
pub mod Ingest
pub mod Time
pub mod Calendar
mod Text
pub mod Float
pub mod Store
pub mod Alerts
pub mod Guardrails
pub mod Notify
pub mod Auth
pub mod Entra
pub mod Server
pub mod Agent
pub mod Azure
pub mod Hub
pub mod Examples
