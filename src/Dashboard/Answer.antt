-- ===== src/Dashboard/Answer.antt =====
-- nexusflow/pkg/dashboard: the answer to a command that has ended (server.go), the health page
-- (health.go), the version (meta.go), and how the server listens (server.go).
use cluster_performance_engi.Base.{
  ℕ, Bool, not, ◌&&◌, List, [], ◌∷◌, ◌++◌, Option, none, some, Result, ok, ◌>>=◌, is_nil, length,
  take, leb, if◌then◌else◌, ◌/◌, ◌+◌, ◌-◌, ◌%◌,
}
use cluster_performance_engi.Base.Int.{ℤ, pos, negsuc, eqb_ℤ}
use cluster_performance_engi.Base.Text.{Bytes, codes, eqb, trim_space}
use cluster_performance_engi.Dashboard.{parse_allowed_networks}

pub record ExecResponse : Type 0 where
  pub stdout : Bytes
  pub stderr : Bytes
  pub exit_code : ℤ
  pub duration_ms : ℤ
  pub error : Bytes
  pub request_id : Bytes
  pub server_time : Bytes

-- The error of `cmd.Run`, with its text: an `ExitError`, whose code is -1 after a signal, or another.
pub data RunFailure : Type 0 where
  exit_error : ℤ → Bytes → RunFailure
  other_error : Bytes → RunFailure

abbrev pub exit_of : Option RunFailure → ℤ
exit_of none = pos 0
exit_of (some (exit_error code text)) = code
exit_of (some (other_error text)) = negsuc 0

abbrev pub text_of : RunFailure → Bytes
text_of (exit_error code text) = text
text_of (other_error text) = text

abbrev pub error_of : Option RunFailure → Bytes
error_of none = []
error_of (some e) = if eqb_ℤ (exit_of (some e)) (negsuc 0) then text_of e else []

abbrev pub exec_response : Bytes → Bytes → Option RunFailure → ℤ → Bytes → Bytes → ExecResponse
exec_response stdout stderr failure ms rid ts = record {
  stdout = stdout;
  stderr = stderr;
  exit_code = exit_of failure;
  duration_ms = ms;
  error = error_of failure;
  request_id = rid;
  server_time = ts;
}

-- For arguments that `validateArgv` refuses.
abbrev pub refused_response : Bytes → Bytes → Bytes → ExecResponse
refused_response text rid ts = record {
  stdout = [];
  stderr = [];
  exit_code = negsuc 0;
  duration_ms = pos 0;
  error = text;
  request_id = rid;
  server_time = ts;
}

abbrev hex_digit : ℕ → ℕ
hex_digit n = if leb n 9 then b'0' + n else b'a' + (n - 10)

-- `hex.EncodeToString`
unfoldable hex_text : Bytes → Bytes
hex_text [] = []
hex_text (b ∷ l) = hex_digit (b / 16) ∷ hex_digit (b % 16) ∷ hex_text l

-- Ten random bytes, or else the clock, as its decimal text.
unfoldable new_request_id : Option Bytes → Bytes → Bytes
unfolding hex_text
new_request_id none clock = codes "nf" ++ clock
new_request_id (some b) clock = hex_text b

pub record HealthResponse : Type 0 where
  pub status : Bytes
  pub service : Bytes
  pub version : Bytes
  pub time_utc : Bytes

-- `none` stands for the refusal of the method.
unfoldable health_handler : Bytes → Bytes → Bytes → Option HealthResponse
health_handler method version now =
    if not (eqb method (codes "GET")) && not (eqb method (codes "HEAD"))
    then none
    else some (record {
      status = codes "ok";
      service = codes "nexusflow-dashboard";
      version = version;
      time_utc = now;
    })

pub record BuildInfo : Type 0 where
  pub version : Bytes
  pub settings : List (Bytes × Bytes)

-- The loop over the settings.
unfoldable revision : List (Bytes × Bytes) → Bytes
revision [] = codes "dev"
revision ((key, value) ∷ settings) =
    let rest = revision settings in
    if eqb key (codes "vcs.revision") && leb 7 (length value)
    then codes "devel-" ++ take 7 value
    else rest

unfoldable pub binary_version : Option BuildInfo → Bytes
unfolding revision
binary_version none = codes "unknown"
binary_version (some info) =
    if not (is_nil info.version) && not (eqb info.version (codes "(devel)"))
    then info.version
    else revision info.settings

pub record ServerConfig : Type 0 where
  pub addr : Bytes
  pub nexusflow_binary : Bytes
  pub tls_cert_file : Bytes
  pub tls_key_file : Bytes
  pub auth_token : Bytes
  pub allowed_cidrs : List Bytes

-- Where the server listens, whether with TLS, and the networks that it lets in.
pub record Listening (Net : Type 0) : Type 0 where
  pub addr : Bytes
  pub use_tls : Bool
  pub nets : List Net

-- `parse` is `net.ParseCIDR`. The pages are embedded, so finding them does not fail.
unfoldable listen_and_serve :
    {Net E : Type 0} → (Bytes → Result E Net) → ServerConfig → Result E (Listening Net)
unfolding parse_allowed_networks
listen_and_serve parse cfg = do
  nets ← parse_allowed_networks parse cfg.allowed_cidrs
  ok (record {
    addr = if is_nil cfg.addr then codes "127.0.0.1:9842" else cfg.addr;
    use_tls =
        not (is_nil (trim_space cfg.tls_cert_file)) && not (is_nil (trim_space cfg.tls_key_file));
    nets = nets;
  })
