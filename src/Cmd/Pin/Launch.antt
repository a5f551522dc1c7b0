-- ===== src/Cmd/Pin/Launch.antt =====
-- What `runCmd` hands to `affinity.Run`.
use cluster_performance_engi.Base.{
  ℕ, ◌≡◌, refl, sym, ◌∙◌, ap, subst, Bool, true, false, ◌⊎◌, inl, inr, List, [], ◌∷◌, ◌++◌, Option,
  none, some, Bool-cases, Result, ok, err, >>=-eq-ok, is_nil, All, In,
}
use cluster_performance_engi.Base.Int.{ℤ, pos, ◌≤ℤ◌}
use cluster_performance_engi.Base.Text.{Bytes, eqb, eqb_iff}
use cluster_performance_engi.Topology.CpuList.{uniq}
use cluster_performance_engi.Topology.Snapshot.{Topology}
use cluster_performance_engi.Topology.Placement.{all_cpu_ids, select_cpus, primary_numa_node}
use cluster_performance_engi.Topology.Placement.Members.{IsConsistent, select_cpus-In}
use cluster_performance_engi.Topology.Placement.Primary.{OnNode, primary_numa_node-OnNode}
use cluster_performance_engi.Cmd.Pin.{
  RunFlags, Pin, separator, flag_before, split_args, parts_of, exit_with, prefer, nice_of, bound_to,
  argv_of, run_cmd,
}

flag_before-some :
    (a : Bytes) (o : Option (List Bytes × List Bytes)) (flags cmd : List Bytes)
    → flag_before a o ≡ some (flags, cmd)
    → (rest : List Bytes) × (o ≡ some (rest, cmd)) × (flags ≡ a ∷ rest)
flag_before-some a none flags cmd h = cc
flag_before-some a (some (rest, c)) flags cmd h = (rest, ap some (ap (λ d. (rest, d)) cc), cc)

split_args-append :
    (args flags cmd : List Bytes)
    → split_args args ≡ some (flags, cmd)
    → args ≡ flags ++ (separator ∷ cmd)
unfolding split_args
split_args-append [] flags cmd h = cc
split_args-append (a ∷ args) flags cmd h = elim (Bool-cases (eqb a separator)) [
  | inl e ↦
      let none_before : List Bytes × List Bytes = ([], args) in
      let parts : List Bytes × List Bytes = (flags, cmd) in
      let k : some none_before ≡ some parts = rw e at h in
      let pair : none_before ≡ parts = cc in
      ap (λ x. x ∷ args) ((eqb_iff a separator).0 e) ∙ ap (λ q. q.0 ++ (separator ∷ q.1)) pair
  | inr e ↦
      let (rest, found, same) = flag_before-some a (split_args args) flags cmd (rw e at h) in
      ap (λ l. a ∷ l) (split_args-append args rest cmd found)
      ∙ ap (λ l. l ++ (separator ∷ cmd)) (sym same)
]

exit_with-ok :
    {E : Type 0} {A : Type 0} (code : ℕ) (r : Result E A) (a : A)
    → exit_with code r ≡ ok a
    → r ≡ ok a
exit_with-ok code (err e) a h = cc
exit_with-ok code (ok b) a h = ap ok cc

parts_of-ok :
    (o : Option (List Bytes × List Bytes)) (parts : List Bytes × List Bytes)
    → parts_of o ≡ ok parts
    → (o ≡ some parts) × (is_nil parts.1 ≡ false)
parts_of-ok none parts h = cc
parts_of-ok (some (flags, [])) parts h = cc
parts_of-ok (some (flags, c ∷ cmd)) parts h =
    let given : List Bytes × List Bytes = (flags, c ∷ cmd) in
    let same : given ≡ parts = cc in (ap some same, ap (λ q. is_nil q.1) (sym same))

-- The command as it is, or bound to the memory node that all its CPUs are on.
abbrev pub IsBound : Topology → List ℤ → List Bytes → List Bytes → Type 0
IsBound t cpus cmd argv =
    (argv ≡ cmd)
    ⊎ ((numactl : Bytes) × (node : ℤ) × (argv ≡ bound_to numactl node cmd)
        × (pos 0 ≤ℤ node)
        × All (OnNode (uniq [] cpus) node) t.cpus)

argv_of-IsBound :
    (t : Topology) (cpus : List ℤ) (membind : Bool) (o : Option ℤ) (numactl : Option Bytes)
    (cmd : List Bytes)
    → primary_numa_node (some t) cpus ≡ o
    → IsBound t cpus cmd (argv_of membind o numactl cmd)
argv_of-IsBound t cpus false o numactl cmd h = inl refl
argv_of-IsBound t cpus true none numactl cmd h = inl refl
argv_of-IsBound t cpus true (some node) none cmd h = inl refl
argv_of-IsBound t cpus true (some node) (some path) cmd h =
    let (sign, on) = primary_numa_node-OnNode t cpus node h in inr (path, node, refl, sign, on)

-- What `runCmd` hands over for the arguments `args` on a machine.
abbrev pub IsLaunch : Topology → List Bytes → Pin → Type 0
IsLaunch t args pin =
    (flags : List Bytes) × (cmd : List Bytes) × (args ≡ flags ++ (separator ∷ cmd))
    × (is_nil cmd ≡ false)
    × All (λ i. In i (all_cpu_ids t)) pin.cpus
    × IsBound t pin.cpus cmd pin.argv

launched :
    {F : Type 0} (parse : List Bytes → Result F RunFlags) (numactl : Option Bytes)
    (args : List Bytes) (pin : Pin) (t : Topology)
    → IsConsistent t
    → run_cmd {E = Unit {0}} parse (ok t) numactl args ≡ ok pin
    → IsLaunch t args pin
unfolding run_cmd
launched parse numactl args pin t good h =
    let (parts, e1, h1) = >>=-eq-ok (parts_of (split_args args)) _ h in
    let (flags, e2, h2) = >>=-eq-ok (exit_with 2 (parse parts.0)) _ h1 in
    let (cpus, e3, h3) =
      >>=-eq-ok (exit_with 1 (select_cpus t flags.cpus (prefer flags.numa) flags.strategy)) _ h2 in
    let (nice, e4, h4) = >>=-eq-ok (nice_of flags.priority) _ h3 in
    let (found, full) = parts_of-ok (split_args args) parts e1 in
    let node = primary_numa_node (some t) cpus in
    let made : Pin = record {
      cpus = cpus;
      argv = argv_of flags.membind node numactl parts.1;
      nice = nice;
    } in
    let same : made ≡ pin = cc in
    let chosen = select_cpus t flags.cpus (prefer flags.numa) flags.strategy in
    subst (λ p. IsLaunch t args p) same
      (
        parts.0,
        parts.1,
        split_args-append args parts.0 parts.1 found,
        full,
        select_cpus-In t flags.cpus (prefer flags.numa) flags.strategy cpus good
            (exit_with-ok 1 chosen cpus e3),
        argv_of-IsBound t cpus flags.membind node numactl parts.1 refl,
      )

-- If `runCmd` gets to `affinity.Run` on a snapshot whose nodes hold CPUs of the snapshot: the
-- command is what stands behind a separator of the arguments, and is not empty; the CPUs are CPUs
-- of the snapshot; and the command line is the command, or the command bound by numactl to a node
-- that is not negative and that all these CPUs are on.
pub run_cmd-IsLaunch :
    {E F : Type 0} (parse : List Bytes → Result F RunFlags) (discovered : Result E Topology)
    (numactl : Option Bytes) (args : List Bytes) (pin : Pin) (t : Topology)
    → discovered ≡ ok t
    → IsConsistent t
    → run_cmd parse discovered numactl args ≡ ok pin
    → IsLaunch t args pin
unfolding run_cmd
run_cmd-IsLaunch parse (err e) numactl args pin t found good h = cc
run_cmd-IsLaunch parse (ok u) numactl args pin t found good h =
    let here : u ≡ t = cc in
    subst (λ v. IsLaunch v args pin) here
      (launched parse numactl args pin u (subst IsConsistent (sym here) good) h)
