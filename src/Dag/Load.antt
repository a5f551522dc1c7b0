-- ===== src/Dag/Load.antt =====
-- nexusflow/pkg/dag/load.go: reading a pipeline. The file and `yaml.Unmarshal` are arguments.
use cluster_performance_engi.Base.{◌≡◌, refl, Result, ok, err, some, arith, subst}
use cluster_performance_engi.Base.Text.{Bytes}
use cluster_performance_engi.Dag.Spec.{Pipeline, SpecError, validate}
use cluster_performance_engi.Dag.Spec.Valid.{IsPipeline, validate_iff}

pub data LoadError (E : Type 0) : Type 0 where
  read_failed yaml_failed : E → LoadError E
  invalid : SpecError → LoadError E

abbrev pub validated :
    {E : Type 0} → Pipeline → Result SpecError (Unit {0}) → Result (LoadError E) Pipeline
validated p (err e) = err (invalid e)
validated p (ok u) = ok p

abbrev pub decoded : {E : Type 0} → Result E Pipeline → Result (LoadError E) Pipeline
decoded (err e) = err (yaml_failed e)
decoded (ok p) = validated p (validate (some p))

-- `yaml` gives the `pipeline` of the document.
unfoldable pub load_file :
    {E : Type 0} → (Bytes → Result E Pipeline) → Result E Bytes → Result (LoadError E) Pipeline
load_file yaml (err e) = err (read_failed e)
load_file yaml (ok raw) = decoded (yaml raw)

validated-IsPipeline :
    {E : Type 0} (p q : Pipeline) (v : Result SpecError (Unit {0}))
    → validate (some p) ≡ v
    → validated {E = E} p v ≡ ok q
    → IsPipeline q
validated-IsPipeline p q (err e) same h = ground (arith, h)
validated-IsPipeline p q (ok u) same h =
    let found : p ≡ q = ground (arith, h) in subst IsPipeline found ((validate_iff p).0 same)

decoded-IsPipeline :
    {E : Type 0} (r : Result E Pipeline) (p : Pipeline) → decoded r ≡ ok p → IsPipeline p
decoded-IsPipeline (err e) p h = ground (arith, h)
decoded-IsPipeline {E = E} (ok q) p h = validated-IsPipeline {E = E} q p (validate (some q)) refl h

-- What `LoadFile` returns is well formed.
pub load_file-IsPipeline :
    {E : Type 0} (yaml : Bytes → Result E Pipeline) (raw : Result E Bytes) (p : Pipeline)
    → load_file yaml raw ≡ ok p
    → IsPipeline p
unfolding load_file
load_file-IsPipeline yaml (err e) p h = ground (arith, h)
load_file-IsPipeline yaml (ok raw) p h = decoded-IsPipeline (yaml raw) p h
