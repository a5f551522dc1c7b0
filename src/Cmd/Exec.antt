-- ===== src/Cmd/Exec.antt =====
-- What the dashboard can start: its requests run the program with their arguments.
use cluster_performance_engi.Base.{
  ◌≡◌, refl, sym, subst, Bool, true, false, List, [], ◌∷◌, ok, All, Bool-cases, inl, inr, arith,
  fail_if, >>=-eq-ok, not, ltb, length,
}
use cluster_performance_engi.Base.Int.{ℤ}
use cluster_performance_engi.Base.Text.{Bytes, codes, eqb, eqb_iff}
use cluster_performance_engi.Base.Member.{has}
use cluster_performance_engi.Dashboard.{
  allowed_roots, validate_argv, Request, ran, serve_http, not_allowed, max_args, too_many_args,
}
use cluster_performance_engi.Dashboard.Guard.{serve_http-IsGuarded}
use cluster_performance_engi.Cmd.{
  Started, kubermetrics, dag_run, shm_create, perf_sample, dashboard, daemon, hugepages_set,
  supervisor, topology_cmd, with_word, main,
}

-- A tool, in contrast to a server or a deployment.
abbrev pub is_tool : Started → Bool
is_tool (kubermetrics args) = false
is_tool (dashboard args) = false
is_tool (daemon args) = false
is_tool supervisor = false
is_tool _ = true

topology_cmd-is_tool : (args : List Bytes) → is_tool (topology_cmd args) ≡ true
unfolding topology_cmd
topology_cmd-is_tool [] = refl
topology_cmd-is_tool (a ∷ args) = elim (Bool-cases (eqb a (codes "hints"))) [
  | inl h ↦ rw h refl
  | inr h ↦ elim (Bool-cases (eqb a (codes "matrix"))) [
    | inl m ↦ rw h (rw m refl)
    | inr m ↦ rw h (rw m refl)
  ]
]

with_word-is_tool :
    (word : Bytes) (start : List Bytes → Started) (args : List Bytes)
    → ((l : List Bytes) → is_tool (start l) ≡ true)
    → is_tool (with_word word start args) ≡ true
with_word-is_tool word start [] h = refl
with_word-is_tool word start (a ∷ []) h = refl
with_word-is_tool word start (a ∷ b ∷ args) h = elim (Bool-cases (eqb a word)) [
  | inl e ↦ rw e (h (b ∷ args))
  | inr e ↦ rw e refl
]

All-has : (P : Bytes → Type 0) (l : List Bytes) (x : Bytes) → All P l → has x l ≡ true → P x
All-has P [] x h k = cc
All-has P (y ∷ l) x h k = elim (Bool-cases (eqb x y)) [
  | inl e ↦ subst P (sym ((eqb_iff x y).0 e)) h.0
  | inr e ↦ All-has P l x h.1 (ground (arith, k, e))
]

abbrev StartsTool : Bytes → Type 0
StartsTool root = (args : List Bytes) → is_tool (main false (root ∷ args)) ≡ true

allowed_roots-StartsTool : All StartsTool allowed_roots
unfolding main
allowed_roots-StartsTool = (
  topology_cmd-is_tool,
  (
    topology_cmd-is_tool,
    (
      λ args. refl,
      (
        λ args. with_word-is_tool (codes "run") dag_run args (λ l. refl),
        (
          λ args. with_word-is_tool (codes "create") shm_create args (λ l. refl),
          (
            λ args. with_word-is_tool (codes "sample") perf_sample args (λ l. refl),
            (
              λ args. refl,
              (
                λ args. with_word-is_tool (codes "set") hugepages_set args (λ l. refl),
                (λ args. refl, (λ args. refl, (λ args. refl, tt))),
              ),
            ),
          ),
        ),
      ),
    ),
  ),
)

passed :
    (root : Bytes) (v : Unit {0}) (b : Bool) → fail_if (not b) (not_allowed root) ≡ ok v → b ≡ true
passed root v true h = refl
passed root v false h = cc

validate_argv-root :
    (root : Bytes) (argv : List Bytes)
    → validate_argv (root ∷ argv) ≡ ok tt
    → has root allowed_roots ≡ true
unfolding validate_argv
validate_argv-root root argv h =
    let (u, e, k) = >>=-eq-ok (fail_if (ltb max_args (length (root ∷ argv))) too_many_args) _ h in
    let (v, f, m) = >>=-eq-ok (fail_if (not (has root allowed_roots)) (not_allowed root)) _ k in
    passed root v (has root allowed_roots) f

validate_argv-is_tool :
    (argv : List Bytes) → validate_argv argv ≡ ok tt → is_tool (main false argv) ≡ true
unfolding validate_argv
validate_argv-is_tool [] h = cc
validate_argv-is_tool (root ∷ argv) h =
    All-has StartsTool allowed_roots root allowed_roots-StartsTool (validate_argv-root root argv h)
      argv

-- If a request to the dashboard starts the program, under a name that is not kubermetrics, the
-- command line that it starts with is neither the kubermetrics deployment, nor the supervisor, nor
-- the daemon, nor another dashboard, whatever the request holds.
pub serve_http-is_tool :
    {Ip Net : Type 0} (contains_ip : Net → Ip → Bool) (nets : List Net) (token : Bytes)
    (r : Request Ip) (argv : List Bytes) (limit : ℤ)
    → serve_http contains_ip nets token r ≡ ran argv limit
    → is_tool (main false argv) ≡ true
serve_http-is_tool contains_ip nets token r argv limit h =
    validate_argv-is_tool argv
      (serve_http-IsGuarded contains_ip nets token r argv limit h).checked.valid
