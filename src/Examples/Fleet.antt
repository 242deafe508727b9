-- ===== src/Examples/Fleet.antt =====
-- Agents that connect, their samples, and the hosts that the hub watches.
use serversmonitor.Prelude.{
  ℕ, ◌*◌, ◌+◌, ◌-◌, ◌≤◌, ◌≡◌, refl, true, false, ◌&&◌, Option, none, some, List, [], ◌∷◌, ◌++◌,
  if◌then◌else◌, length, keep_if, map, lookup, insert, ℕ_discrete, ◌==◌, arith,
}
use serversmonitor.Prelude.Int.{pos}
use serversmonitor.Time.{second, minute}
use serversmonitor.Store.Stamps.{stamp_lt, stamp_lt-whole_second_last}
use serversmonitor.Store.Hosts.{HostRow, host_by_id}
use serversmonitor.Store.Stale.{
  mark_stale, mark_stale_lem, is_stale, turned_off, turn_off_stale, hosts_of,
}
use serversmonitor.Store.Samples.{
  SampleTables, insert_sample, sample_row, last_sample_at, has_sample, insert_containers,
}
use serversmonitor.Store.Containers.{insert_sample-containers, container_at, reported}
use serversmonitor.Proto.Messages.{
  Sample, Container, Message, Hello, hello, sample, welcome, reconfigure, Welcome, Reconfigure,
}
use serversmonitor.Proto.Codec.{Json, type_of}
use serversmonitor.Agent.Link.{Script, ticked, read_failed, welcomed, run}
use serversmonitor.Agent.Replay.{Sublist, taken_all, run-Sublist, run-holds_one}
use serversmonitor.Ingest.Registry.{new_registry, register, unregister}
use serversmonitor.Ingest.OneSocket.{
  Reach, start, opens, ends, is_live, was_opened, is_in, Reach-one_live,
}
use serversmonitor.Ingest.Serve.{Reading, Turn}
use serversmonitor.Ingest.Accepting.{
  receive_all, accepted, Spaced, accepted-Spaced, newest_second, receive_all-stores,
}
use serversmonitor.Examples.Data.{web, db}

abbrev nginx : Container ℕ
nginx = record {
  name = "nginx";
  image = "nginx";
  status = "running";
  cpu = 1;
  mem_used = pos 2;
  net_sent_bps = 3;
  net_recv_bps = 4;
}

abbrev no_samples : SampleTables ℕ
no_samples = record { samples = []; containers = []; container_samples = [] }

abbrev first_sample : Sample ℕ
first_sample = record {
  v = 1;
  type = "sample";
  at = 60 * second;
  cpu = some 7;
  mem_used = none;
  mem_total = none;
  swap_used = none;
  swap_total = none;
  load1 = none;
  load5 = none;
  load15 = none;
  uptime = none;
  disks = [];
  net = none;
  temps = [];
  docker_available = true;
  containers = nginx ∷ [];
}

abbrev with_first : SampleTables ℕ
with_first =
    insert_containers 1 first_sample
      (record no_samples { samples = sample_row 1 first_sample ∷ [] })

insert_sample-containers_example : container_at with_first.containers 1 "nginx" ≡ (
    if true && (1 == 1)
    then reported 1 first_sample "nginx"
    else container_at no_samples.containers 1 "nginx")
unfolding insert_sample last_sample_at has_sample
insert_sample-containers_example =
    insert_sample-containers no_samples with_first 1 first_sample 1 "nginx" refl

stamp_lt-whole_second_last_example : stamp_lt (5 * second + 1) (5 * second) ≡ true
stamp_lt-whole_second_last_example = stamp_lt-whole_second_last 5 1 (omega arith) (omega arith)

abbrev web_row : HostRow
web_row = record { host = web; token_hash = "a" }

abbrev db_row : HostRow
db_row = record { host = db; token_hash = "b" }

mark_stale_lem_example :
    mark_stale (web_row ∷ db_row ∷ []) (102 * minute) (30 * second)
    ≡ some (
      map (turn_off_stale (102 * minute - 30 * second)) (web_row ∷ db_row ∷ []),
      map turned_off
          (keep_if (is_stale (102 * minute - 30 * second)) (hosts_of (web_row ∷ db_row ∷ []))),
    )
unfolding host_by_id
mark_stale_lem_example =
    mark_stale_lem (web_row ∷ db_row ∷ []) (102 * minute) (30 * second) (refl, (refl, tt))

-- The link is lost while the second sample is sent, and regained.
abbrev first_script : Script ℕ
first_script = record {
  dialled = true;
  hello_written = true;
  answer = welcomed (pos 10);
  replay_writes = [];
  events = ticked 1 true ∷ ticked 2 false ∷ [];
}

abbrev second_script : Script ℕ
second_script = record {
  dialled = true;
  hello_written = true;
  answer = welcomed (pos 10);
  replay_writes = true ∷ [];
  events = ticked 3 true ∷ read_failed ∷ [];
}

run-Sublist_example :
    Sublist
      ((run (λ n. n) (first_script ∷ second_script ∷ [])).sent
        ++ (run (λ n. n) (first_script ∷ second_script ∷ [])).buffer.items)
      (taken_all (first_script ∷ second_script ∷ []))
run-Sublist_example = run-Sublist (λ n. n) (first_script ∷ second_script ∷ [])

run-holds_one_example : length (run (λ n. n) (first_script ∷ second_script ∷ [])).buffer.items ≤ 1
run-holds_one_example = run-holds_one (λ n. n) (first_script ∷ second_script ∷ [])

-- The second connection of a host replaces the first, whose handler then ends.
reconnects :
    Reach
      (unregister (register (register (new_registry (pos 10)) 1 7) 1 8) 1 7)
      ((1, 8) ∷ (1, 7) ∷ [])
      (7 ∷ [])
reconnects = ends 1 7 (opens 1 8 (opens 1 7 (start (pos 10))))

Reach-one_live_example : ◌≡◌ {A = ℕ} 8 8
unfolding is_live was_opened is_in unregister register new_registry lookup insert ℕ_discrete
Reach-one_live_example = Reach-one_live 1 8 8 reconnects refl refl

abbrev reading : Reading ℕ
reading = record {
  hub = record { hosts = web_row ∷ []; tables = no_samples; published = [] };
  last_accepted = none;
}

abbrev late_sample : Sample ℕ
late_sample = record first_sample { at = 70 * second; docker_available = false; containers = [] }

-- Two samples, the first of which takes a while to be stored.
abbrev two_samples : List (Turn × Sample ℕ)
two_samples =
    (record { arrived = 61 * second; insert_took = 5; mark_took = 2 }, first_sample)
    ∷ (record { arrived = 62 * second + 5; insert_took = 3; mark_took = 1 }, late_sample)
    ∷ []

receive_all-stores_example :
    (receive_all second reading 1 two_samples).hub.tables.samples
    ≡ no_samples.samples ++ map (λ (a : Turn × Sample ℕ). sample_row 1 a.1) two_samples
unfolding newest_second
receive_all-stores_example =
    receive_all-stores second reading 1 two_samples 60 (omega arith)
      (refl, omega arith, (refl, omega arith, tt))

accepted-Spaced_example : Spaced second none (accepted second reading 1 two_samples)
accepted-Spaced_example = accepted-Spaced second reading 1 two_samples (omega arith)

-- A package whose texts are the messages themselves.
abbrev kept_hello : Message ℕ → Option Hello
kept_hello (hello m) = some m
kept_hello _ = none

abbrev kept_welcome : Message ℕ → Option Welcome
kept_welcome (welcome m) = some m
kept_welcome _ = none

abbrev kept_sample : Message ℕ → Option (Sample ℕ)
kept_sample (sample m) = some m
kept_sample _ = none

abbrev kept_reconfigure : Message ℕ → Option Reconfigure
kept_reconfigure (reconfigure m) = some m
kept_reconfigure _ = none

abbrev plain : Json ℕ (Message ℕ)
plain = record {
  read_type = λ m. some (type_of m);
  read_hello = kept_hello;
  read_welcome = kept_welcome;
  read_sample = kept_sample;
  read_reconfigure = kept_reconfigure;
  marshal = λ m. m;
}

abbrev slower : Message ℕ
slower = reconfigure (record { v = 0; type = "reconfigure"; interval_sec = pos 30 })
