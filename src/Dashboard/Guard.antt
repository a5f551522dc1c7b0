-- ===== src/Dashboard/Guard.antt =====
-- What stands between a request and a command.
use cluster_performance_engi.Base.{
  ◌≡◌, refl, Bool, true, false, List, ◌++◌, Option, none, some, ok, err, is_nil, arith, inl, inr,
  Result-cases, subst,
}
use cluster_performance_engi.Base.Int.{ℤ, pos, ◌≤ℤ◌}
use cluster_performance_engi.Base.Text.{Bytes, codes, eqb, eqb_iff, trim_space}
use cluster_performance_engi.Dashboard.{
  exec_duration, validate_argv, ExecRequest, Request, Response, ran, exec_argv, exec_body,
  exec_path, is_post, exec_handler, mux, needs_token, bearer_auth, is_allowed, ip_allow, serve_http,
}

-- 10 seconds to 2 hours.
pub exec_duration-bounds : (n : ℤ) → (pos 10 ≤ℤ exec_duration n) × (exec_duration n ≤ℤ pos 7200)
unfolding exec_duration
exec_duration-bounds n = ground arith

pub record IsChecked (argv : List Bytes) (limit : ℤ) : Type 0 where
  pub valid : validate_argv argv ≡ ok tt
  pub at_least : pos 10 ≤ℤ limit
  pub at_most : limit ≤ℤ pos 7200

exec_body-IsChecked :
    (b : Option ExecRequest) (argv : List Bytes) (limit : ℤ)
    → exec_body b ≡ ran argv limit
    → IsChecked argv limit
exec_body-IsChecked none argv limit h = ground (arith, h)
exec_body-IsChecked (some req) argv limit h = elim (Result-cases (validate_argv req.argv)) [
  | inr (e, bad) ↦
      let h' : exec_argv req (err e) ≡ ran argv limit = rw bad at h in ground (arith, h')
  | inl (u, good) ↦
      let h' : exec_argv req (ok u) ≡ ran argv limit = rw good at h in
      let same : req.argv ≡ argv = ground (arith, h') in
      let time : exec_duration req.timeout_sec ≡ limit = ground (arith, h') in
      let (low, high) = exec_duration-bounds req.timeout_sec in
      record {
        valid = subst (λ a. validate_argv a ≡ ok tt) same good;
        at_least = subst (λ l. pos 10 ≤ℤ l) time low;
        at_most = subst (λ l. l ≤ℤ pos 7200) time high;
      }
]

module _ {Ip Net : Type 0} (contains_ip : Net → Ip → Bool) where
  -- What holds of a request whose command was run.
  pub record IsGuarded (nets : List Net) (token : Bytes) (r : Request Ip) (argv : List Bytes)
      (limit : ℤ) : Type 0 where
    pub posted : (r.path ≡ exec_path) × (is_post r.method ≡ true)
    pub authorized :
        is_nil (trim_space token) ≡ false → r.authorization ≡ codes "Bearer " ++ trim_space token
    pub admitted : is_nil nets ≡ false → is_allowed contains_ip nets r.remote ≡ true
    pub checked : IsChecked argv limit

  ip_allow-ran :
      (nets : List Net) (next : Request Ip → Response) (r : Request Ip) (argv : List Bytes)
      (limit : ℤ)
      → ip_allow contains_ip nets next r ≡ ran argv limit
      → (is_nil nets ≡ false → is_allowed contains_ip nets r.remote ≡ true)
        × (next r ≡ ran argv limit)
  unfolding ip_allow
  ip_allow-ran nets next r argv limit h = ground (arith, h)

  bearer_auth-ran :
      (token : Bytes) (next : Request Ip → Response) (r : Request Ip) (argv : List Bytes)
      (limit : ℤ)
      → bearer_auth contains_ip token next r ≡ ran argv limit
      → (is_nil (trim_space token) ≡ false
          → needs_token contains_ip r ≡ true
          → eqb r.authorization (codes "Bearer " ++ trim_space token) ≡ true)
        × (next r ≡ ran argv limit)
  unfolding bearer_auth
  bearer_auth-ran token next r argv limit h = ground (arith, h)

  mux-ran :
      (r : Request Ip) (argv : List Bytes) (limit : ℤ)
      → mux contains_ip r ≡ ran argv limit
      → (eqb r.path exec_path ≡ true)
        × (is_post r.method ≡ true)
        × (exec_body r.body ≡ ran argv limit)
  unfolding mux exec_handler
  mux-ran r argv limit h = ground (arith, h)

  -- If a request to the dashboard starts a command, it is a POST to the exec path; its
  -- authorization is the bearer token, if a token is configured; its address is in an allowed
  -- network, if there are any; its arguments pass `validateArgv`; and the time limit is between 10
  -- seconds and 2 hours.
  pub serve_http-IsGuarded :
      (nets : List Net) (token : Bytes) (r : Request Ip) (argv : List Bytes) (limit : ℤ)
      → serve_http contains_ip nets token r ≡ ran argv limit
      → IsGuarded nets token r argv limit
  unfolding serve_http
  serve_http-IsGuarded nets token r argv limit h =
      let (admitted, h1) =
        ip_allow-ran nets (bearer_auth contains_ip token (mux contains_ip)) r argv limit h in
      let (authorized, h2) = bearer_auth-ran token (mux contains_ip) r argv limit h1 in
      let (path, post, h3) = mux-ran r argv limit h2 in
      record {
        posted = ((eqb_iff r.path exec_path).0 path, post);
        authorized = λ k. (eqb_iff r.authorization _).0 (authorized k (rw (path, post) refl));
        admitted = admitted;
        checked = exec_body-IsChecked r.body argv limit h3;
      }
