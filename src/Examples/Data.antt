-- ===== src/Examples/Data.antt =====
-- A fleet of two hosts, its rules and samples, over numbers of two decimals.
use serversmonitor.Prelude.{
  ℕ, ◌*◌, ◌/◌, ◌+◌, ◌≡◌, true, false, none, some, List, [], ◌∷◌, ltb, leb, arith,
}
use serversmonitor.Prelude.Int.{pos, pos_part}
use serversmonitor.Time.{minute}
use serversmonitor.Float.{Float, FloatOrder}
use serversmonitor.Store.Rows.{
  Host, online, offline, Disk, SampleRow, Rule, fired, resolved, AlertEvent,
}
use serversmonitor.Store.AlertEvents.{EventTable}
use serversmonitor.Alerts.Machine.{Key}
use serversmonitor.Alerts.Evaluate.{Input}

-- Hundredths.
abbrev pub cents : Float
cents = record {
  F = ℕ;
  of_int = λ n. 100 * pos_part n;
  constant = λ n d. 100 * n / d;
  add = λ a b. a + b;
  mul = λ a b. a * b / 100;
  div = λ a b. a * 100 / b;
  gt = λ a b. ltb b a;
  ge = λ a b. leb b a;
}

ltb_irrefl : (a : ℕ) → ltb a a ≡ false
ltb_irrefl a = ground arith

ltb_cotrans : (a b c : ℕ) → ltb b a ≡ false → ltb c b ≡ false → ltb c a ≡ false
ltb_cotrans a b c h k = ground (arith, h, k)

ltb_asym : (a b : ℕ) → ltb b a ≡ true → ltb a b ≡ false
ltb_asym a b h = ground (arith, h)

pub cents-FloatOrder : FloatOrder cents
cents-FloatOrder = record { gt_irrefl = ltb_irrefl; gt_cotrans = ltb_cotrans; gt_asym = ltb_asym }

abbrev pub web : Host
web = record {
  id = 1;
  name = "web";
  status = online;
  last_seen = some (100 * minute);
  os = "linux";
  arch = "amd64";
  hostname = "web";
  agent_version = "1";
  cores = pos 4;
  mem_total = pos 1000;
  muted = false;
  created_at = 0;
}

abbrev pub db : Host
db = record web { id = 2; name = "db"; status = offline; hostname = "db" }

abbrev pub quiet_db : Host
quiet_db = record db { muted = true }

abbrev pub root_disk : Disk ℕ
root_disk = record { mount = "/"; used = pos 90; total = pos 100; read_bps = 0; write_bps = 0 }

abbrev pub data_disk : Disk ℕ
data_disk = record root_disk { mount = "/data"; used = pos 30 }

abbrev pub web_sample : SampleRow ℕ
web_sample = record {
  host_id = 1;
  at = 100 * minute;
  cpu = some 9700;
  mem_used = some (pos 500);
  mem_total = some (pos 1000);
  swap_used = none;
  swap_total = none;
  load1 = some 100;
  load5 = some 100;
  load15 = some 100;
  uptime = some (pos 10);
  net_sent_bps = none;
  net_recv_bps = none;
  disks = root_disk ∷ data_disk ∷ [];
  temps = [];
}

abbrev pub cpu_rule : Rule ℕ
cpu_rule = record {
  id = 7;
  host_id = none;
  metric = "cpu";
  threshold = 9000;
  duration = pos 0;
  channels = some ("smtp" ∷ []);
  remind = pos (60 * minute);
  created_at = 0;
}

abbrev pub web_cpu_rule : Rule ℕ
web_cpu_rule = record cpu_rule { id = 8; host_id = some 1; threshold = 9500 }

abbrev pub fleet : Input ℕ
fleet = record {
  now = 101 * minute;
  interval = pos minute;
  hosts = web ∷ quiet_db ∷ [];
  latest = (1, web_sample) ∷ [];
  rules = cpu_rule ∷ web_cpu_rule ∷ [];
}

abbrev pub as_listed : List (Rule ℕ) → List (Rule ℕ)
as_listed rules = rules

abbrev pub web_cpu : Key
web_cpu = record { rule_id = 8; host_id = 1 }

abbrev pub db_status : Key
db_status = record { rule_id = 0; host_id = 2 }

abbrev pub cpu_fired : AlertEvent ℕ
cpu_fired = record {
  id = 3;
  rule_id = 8;
  host_id = 1;
  metric = "cpu";
  kind = fired;
  value = 9700;
  at = 90 * minute;
}

abbrev pub cpu_resolved : AlertEvent ℕ
cpu_resolved = record cpu_fired { id = 5; kind = resolved; value = 100; at = 101 * minute }

abbrev pub one_event : EventTable ℕ
one_event = record { rows = cpu_fired ∷ []; next_id = 4 }
