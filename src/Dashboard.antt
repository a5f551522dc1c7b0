-- ===== src/Dashboard.antt =====
-- nexusflow/pkg/dashboard/server.go: the requests of the dashboard up to the start of a command.
-- Decoding JSON, parsing addresses and networks, and the lengths of the static pages are outside.
pub mod Guard
pub mod Answer
mod Tests
use cluster_performance_engi.Base.{
  ℕ, ◌≡◌, Bool, true, false, not, ◌&&◌, ◌||◌, List, [], ◌∷◌, ◌++◌, Option, none, some, Result, ok,
  err, ◌>>=◌, ◌>>◌, fail_if, is_nil, any, length, ltb, ◌==◌, if◌then◌else◌,
}
use cluster_performance_engi.Base.Int.{ℤ, pos, leb_ℤ, ltb_ℤ}
use cluster_performance_engi.Base.Text.{Bytes, codes, eqb, trim_space}
use cluster_performance_engi.Base.Member.{has}
use cluster_performance_engi.Base.Parts.{contains}

abbrev pub max_args : ℕ
max_args = 48

abbrev pub max_arg_len : ℕ
max_arg_len = 4096

-- In seconds: 3 minutes, or what the client asks for, between 10 and 7200.
unfoldable pub exec_duration : ℤ → ℤ
exec_duration timeout_sec =
    if leb_ℤ timeout_sec (pos 0)
    then pos 180
    else if ltb_ℤ timeout_sec (pos 10)
    then pos 10
    else if ltb_ℤ (pos 7200) timeout_sec
    then pos 7200
    else timeout_sec

pub data ArgvError : Type 0 where
  empty_argv too_many_args argument_too_long invalid_argument : ArgvError
  not_allowed : Bytes → ArgvError

pub check_args : List Bytes → Result ArgvError (Unit {0})
check_args [] = ok tt
check_args (a ∷ argv) = do
  fail_if (ltb max_arg_len (length a)) argument_too_long
  fail_if (contains 0 a) invalid_argument
  check_args argv

abbrev pub allowed_roots : List Bytes
allowed_roots =
    codes "topology"
    ∷ codes "topo"
    ∷ codes "run"
    ∷ codes "dag"
    ∷ codes "shm"
    ∷ codes "perf"
    ∷ codes "plasma"
    ∷ codes "hugepages"
    ∷ codes "help"
    ∷ codes "-h"
    ∷ codes "--help"
    ∷ []

unfoldable pub validate_argv : List Bytes → Result ArgvError (Unit {0})
unfolding check_args
validate_argv [] = err empty_argv
validate_argv (root ∷ argv) = do
  fail_if (ltb max_args (length (root ∷ argv))) too_many_args
  fail_if (not (has root allowed_roots)) (not_allowed root)
  check_args (root ∷ argv)

pub record ExecRequest : Type 0 where
  pub argv : List Bytes
  pub timeout_sec : ℤ

-- `remote`: the address behind `SplitHostPort` and `ParseIP`. `body`: what the decoder made of it.
pub record Request (Ip : Type 0) : Type 0 where
  pub path : Bytes
  pub method : Bytes
  pub authorization : Bytes
  pub remote : Option Ip
  pub body : Option ExecRequest

-- `ran`: the binary was started with these arguments and this limit.
pub data Response : Type 0 where
  forbidden unauthorized method_not_allowed bad_json other_page : Response
  bad_argv : ArgvError → Response
  ran : List Bytes → ℤ → Response

abbrev pub exec_argv : ExecRequest → Result ArgvError (Unit {0}) → Response
exec_argv req (err e) = bad_argv e
exec_argv req (ok u) = ran req.argv (exec_duration req.timeout_sec)

abbrev pub exec_body : Option ExecRequest → Response
exec_body none = bad_json
exec_body (some req) = exec_argv req (validate_argv req.argv)

abbrev pub exec_path : Bytes
exec_path = codes "/api/exec"

abbrev pub is_post : Bytes → Bool
is_post method = eqb method (codes "POST")

module _ {Ip Net : Type 0} (contains_ip : Net → Ip → Bool) where
  unfoldable pub exec_handler : Request Ip → Response
  exec_handler r = if not (is_post r.method) then method_not_allowed else exec_body r.body

  -- The pages that run nothing are one response here.
  unfoldable pub mux : Request Ip → Response
  unfolding exec_handler
  mux r = if eqb r.path exec_path then exec_handler r else other_page

  abbrev pub needs_token : Request Ip → Bool
  needs_token r = eqb r.path exec_path && is_post r.method

  unfoldable pub bearer_auth : Bytes → (Request Ip → Response) → Request Ip → Response
  bearer_auth token next r =
      if is_nil (trim_space token)
      then next r
      else if needs_token r && not (eqb r.authorization (codes "Bearer " ++ trim_space token))
      then unauthorized
      else next r

  abbrev pub is_allowed : List Net → Option Ip → Bool
  is_allowed allowed none = false
  is_allowed allowed (some ip) = any (λ n. contains_ip n ip) allowed

  unfoldable pub ip_allow : List Net → (Request Ip → Response) → Request Ip → Response
  ip_allow allowed next r =
      if is_nil allowed then next r else if is_allowed allowed r.remote then next r else forbidden

  -- The chain that `ServerConfig.ListenAndServe` builds.
  unfoldable pub serve_http : List Net → Bytes → Request Ip → Response
  unfolding ip_allow bearer_auth mux
  serve_http nets token = ip_allow nets (bearer_auth token mux)

-- `parse` is `net.ParseCIDR`. Blank entries are passed over.
abbrev pub add_network {ℓ} :
    {Net E : Type ℓ} → Result E Net → Result E (List Net) → Result E (List Net)
add_network (err e) rest = err e
add_network (ok n) (err e) = err e
add_network (ok n) (ok nets) = ok (n ∷ nets)

unfoldable pub parse_allowed_networks :
    {Net E : Type 0} → (Bytes → Result E Net) → List Bytes → Result E (List Net)
parse_allowed_networks parse [] = ok []
parse_allowed_networks parse (raw ∷ cidrs) =
    let rest = parse_allowed_networks parse cidrs in
    if is_nil (trim_space raw) then rest else add_network (parse (trim_space raw)) rest
