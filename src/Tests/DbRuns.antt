-- ===== src/Tests/DbRuns.antt =====
-- Runs of the probe.
use llm_ctl.Base.{◌≡◌, refl, none, some, all}
use llm_ctl.Base.Text.{Text, lit, starts_with}
use llm_ctl.Db.{Url, DbWorld, in_time, invalid_addr, ok, probe, parse_v4, v4}
use llm_ctl.Db.Names.{probe-name}

-- A URL is its host, and everybody listens.
abbrev pub db_world : DbWorld
db_world = record {
  parse_url = λ t. some (record { host_str = some t; port = none });
  parse_v6 = λ t. none;
  connect = λ a. in_time;
}

abbrev localhost : Text
unfolding lit
localhost = lit "localhost"

abbrev localhost_url : Url
localhost_url = record { host_str = some localhost; port = none }

probe-name_example : probe db_world localhost ≡ invalid_addr
unfolding starts_with all localhost
probe-name_example = probe-name db_world localhost localhost_url localhost refl refl refl refl

probe_runs : probe db_world (lit "192.168.7.51") ≡ ok
unfolding probe lit
probe_runs = refl

parse_v4_runs : parse_v4 (lit "192.168.7.51:5432") ≡ some (v4 192 168 7 51 5432)
unfolding parse_v4 lit
parse_v4_runs = refl
