-- ===== src/Cmd/Tests.antt =====
-- Command lines, and a run on a machine of one memory node.
use cluster_performance_engi.Dashboard.{
  Request, ran, serve_http, exec_path, validate_argv, exec_duration,
}
use cluster_performance_engi.Cmd.Exec.{is_tool, serve_http-is_tool}
use cluster_performance_engi.Topology.CpuList.{uniq}
use cluster_performance_engi.Hugepages.{to_lower}
use cluster_performance_engi.Base.Sort.{sort, insert}
use cluster_performance_engi.Topology.Placement.{all_cpu_ids, select_cpus, primary_numa_node}
use cluster_performance_engi.Base.{
  ℕ, ◌≡◌, refl, List, [], ◌∷◌, some, ok, err, true, false, inl, ◌==◌, Bool,
}
use cluster_performance_engi.Base.Int.{pos, negsuc}
use cluster_performance_engi.Base.Text.{Bytes, codes, trim_space}
use cluster_performance_engi.Topology.Snapshot.{Topology}
use cluster_performance_engi.Topology.Located.{IsLocated}
use cluster_performance_engi.Topology.Placement.Members.{IsConsistent}
use cluster_performance_engi.Topology.Discover.{discover}
use cluster_performance_engi.Topology.Hwloc.{
  XmlObjs, xml_obj, no_objs, obj_and, discover_cli, enter, append_pu,
}
use cluster_performance_engi.Cmd.{main, exit}
use cluster_performance_engi.Cmd.Source.{discover_topology}
use cluster_performance_engi.Cmd.Source.Found.{discover_topology-IsLocated}
use cluster_performance_engi.Cmd.Pin.{RunFlags, Pin, run_cmd, bound_to}
use cluster_performance_engi.Cmd.Pin.Launch.{IsLaunch, run_cmd-IsLaunch}

-- Flags that are all optional are still wanted.
perf_sample_alone : main false (codes "perf" ∷ codes "sample" ∷ []) ≡ exit 2
unfolding main
perf_sample_alone = refl

plasma_unknown :
    main false (codes "plasma" ∷ codes "run" ∷ codes "--file" ∷ codes "p.yaml" ∷ []) ≡ exit 2
unfolding main
plasma_unknown = refl

abbrev machine : Topology
machine = record {
  cpus =
      record {
        id = pos 0;
        package_id = pos 0;
        core_id = pos 0;
        numa_node = pos 0;
        siblings = pos 0 ∷ [];
      }
      ∷ [];
  numa_nodes = record { id = pos 0; cpus = pos 0 ∷ []; distance = [] } ∷ [];
}

abbrev tree : XmlObjs
tree =
    obj_and
      (xml_obj (codes "NUMANode") (some (pos 0))
        (obj_and (xml_obj (codes "PU") (some (pos 0)) no_objs) no_objs))
      no_objs

-- No file can be read, so hwloc is asked.
machine_found :
    discover_topology
      (codes "auto")
      (discover {E = ℕ} 4 (λ path. err 2) (λ m. m) (err 2))
      (discover_cli {E = ℕ} (λ s. s) (λ s. ok tree) (λ m. m) (λ argv. ok []))
    ≡ ok (machine, codes "hwloc-xml(fallback)")
unfolding discover_topology discover discover_cli enter append_pu sort insert
machine_found = refl

discover_topology-IsLocated_example : IsLocated machine
discover_topology-IsLocated_example =
    discover_topology-IsLocated {D = ℕ} {X = ℕ} 4 (λ path. err 2) (λ s. s) (λ s. ok tree) (λ m. m)
      (λ m e. (λ h. h, λ h. h)) (codes "auto") (err 2) (λ argv. ok []) machine
      (codes "hwloc-xml(fallback)") machine_found

abbrev flags : RunFlags
flags = record {
  cpus = pos 1;
  numa = negsuc 0;
  strategy = codes "same-numa";
  priority = codes "high";
  membind = true;
}

abbrev pin : Pin
pin = record {
  cpus = pos 0 ∷ [];
  argv = bound_to (codes "/usr/bin/numactl") (pos 0) (codes "app" ∷ codes "--" ∷ []);
  nice = some (negsuc 9);
}

abbrev args : List Bytes
args = codes "--cpus" ∷ codes "1" ∷ codes "--" ∷ codes "app" ∷ codes "--" ∷ []

pinned :
    run_cmd {E = ℕ} {F = ℕ} (λ a. ok flags) (ok machine) (some (codes "/usr/bin/numactl")) args
    ≡ ok pin
unfolding run_cmd select_cpus sort insert to_lower trim_space primary_numa_node uniq
pinned = refl

machine-IsConsistent : IsConsistent machine
unfolding all_cpu_ids sort insert
machine-IsConsistent = ((inl refl, tt), tt)

run_cmd-IsLaunch_example : IsLaunch machine args pin
run_cmd-IsLaunch_example =
    run_cmd-IsLaunch {E = ℕ} {F = ℕ} (λ a. ok flags) (ok machine) (some (codes "/usr/bin/numactl"))
      args pin machine refl machine-IsConsistent pinned

-- A network is the one address that it contains.
abbrev same_ip : ℕ → ℕ → Bool
same_ip n ip = n == ip

abbrev asking : Request ℕ
asking = record {
  path = exec_path;
  method = codes "POST";
  authorization = [];
  remote = some 7;
  body = some (record { argv = codes "topology" ∷ codes "hints" ∷ []; timeout_sec = pos 0 });
}

asked : serve_http same_ip [] [] asking ≡ ran (codes "topology" ∷ codes "hints" ∷ []) (pos 180)
unfolding serve_http trim_space validate_argv exec_duration
asked = refl

serve_http-is_tool_example : is_tool (main false (codes "topology" ∷ codes "hints" ∷ [])) ≡ true
serve_http-is_tool_example =
    serve_http-is_tool same_ip [] [] asking (codes "topology" ∷ codes "hints" ∷ []) (pos 180) asked
