-- ===== src/Dashboard/Tests.antt =====
-- Runs of the dashboard's checks, and the theorem about them there.
use cluster_performance_engi.Base.{◌≡◌, refl, [], ◌∷◌, some, ok, err, ℕ, Bool, ◌==◌}
use cluster_performance_engi.Base.Int.{pos}
use cluster_performance_engi.Base.Text.{Bytes, codes, trim_space}
use cluster_performance_engi.Dashboard.{
  Request, ran, unauthorized, forbidden, serve_http, validate_argv, not_allowed, empty_argv,
  exec_path, exec_duration,
}
use cluster_performance_engi.Dashboard.Guard.{IsGuarded, serve_http-IsGuarded}

validate_runs :
    (validate_argv (codes "topology" ∷ []) ≡ ok tt)
    × (validate_argv (codes "sh" ∷ []) ≡ err (not_allowed (codes "sh")))
    × (validate_argv [] ≡ err empty_argv)
unfolding validate_argv
validate_runs = (refl, refl, refl)

-- A network is the one address that it contains.
abbrev same_ip : ℕ → ℕ → Bool
same_ip n ip = n == ip

abbrev token : Bytes
token = codes "secret"

abbrev asking : Bytes → Request ℕ
asking authorization = record {
  path = exec_path;
  method = codes "POST";
  authorization = authorization;
  remote = some 7;
  body = some (record { argv = codes "topology" ∷ []; timeout_sec = pos 0 });
}

refused : serve_http same_ip (7 ∷ []) token (asking (codes "Bearer guess")) ≡ unauthorized
unfolding serve_http trim_space
refused = refl

shut_out : serve_http same_ip (8 ∷ []) token (asking (codes "Bearer secret")) ≡ forbidden
unfolding serve_http trim_space
shut_out = refl

served :
    serve_http same_ip (7 ∷ []) token (asking (codes "Bearer secret"))
    ≡ ran (codes "topology" ∷ []) (pos 180)
unfolding serve_http trim_space validate_argv exec_duration
served = refl

serve_http-IsGuarded_example :
    IsGuarded same_ip
      (7 ∷ [])
      token
      (asking (codes "Bearer secret"))
      (codes "topology" ∷ [])
      (pos 180)
serve_http-IsGuarded_example =
    serve_http-IsGuarded same_ip (7 ∷ []) token (asking (codes "Bearer secret"))
      (codes "topology" ∷ []) (pos 180) served
