-- ===== src/Cmd/Settings.antt =====
-- nexusflow/cmd/nexusflow: what the other commands make of their flags, which are already parsed.
use cluster_performance_engi.Dashboard.Answer.{ServerConfig}
use cluster_performance_engi.Base.{
  ℕ, Bool, true, false, List, Option, none, some, Result, ok, err, is_nil, not, if◌then◌else◌,
}
use cluster_performance_engi.Base.Int.{ℤ, pos, leb_ℤ}
use cluster_performance_engi.Base.Text.{Bytes, trim_space}

-- `hugepages set`: `--count` wins unless it is negative.
abbrev pub page_count : ℤ → ℤ → ℤ
page_count pages count = if leb_ℤ (pos 0) count then count else pages

-- `daemon`: the flag, or else the environment.
abbrev pub cgroup_root : Bytes → Bytes → Bytes
cgroup_root flag env = if is_nil flag then env else flag

-- `shm create`: the name without white space, if there is one left, and the size.
pub data Segment : Type 0 where
  named : Bytes → ℤ → Segment
  random : ℤ → Segment

abbrev pub segment_of : Option ℤ → Bytes → Result ℕ Segment
segment_of none name = err 2
segment_of (some size) name =
    if leb_ℤ size (pos 0)
    then err 2
    else ok (if is_nil (trim_space name) then random size else named (trim_space name) size)

-- The networks come without white space around them.
pub record DashboardFlags : Type 0 where
  pub listen : Bytes
  pub tls_cert : Bytes
  pub tls_key : Bytes
  pub auth_token : Bytes
  pub allow_cidr : List Bytes

abbrev pub same_bool : Bool → Bool → Bool
same_bool true b = b
same_bool false b = not b

-- `dashboard`: a certificate and a key come together or not at all.
unfoldable pub dashboard_cmd :
    {E : Type 0} → DashboardFlags → Result E Bytes → Result ℕ ServerConfig
dashboard_cmd flags (err e) = err 1
dashboard_cmd flags (ok exe) =
    let cert = trim_space flags.tls_cert in
    let key = trim_space flags.tls_key in
    if same_bool (is_nil cert) (is_nil key)
    then ok (record {
      addr = trim_space flags.listen;
      nexusflow_binary = exe;
      tls_cert_file = cert;
      tls_key_file = key;
      auth_token = trim_space flags.auth_token;
      allowed_cidrs = flags.allow_cidr;
    })
    else err 2
