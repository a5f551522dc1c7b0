-- ===== src/Dag/Spec/Tests.antt =====
-- Runs of `Validate`, and the theorem at one of them.
use cluster_performance_engi.Base.{◌≡◌, ◌↔◌, refl, List, [], ◌∷◌, none, some, ok, err}
use cluster_performance_engi.Base.Int.{pos}
use cluster_performance_engi.Base.Text.{Bytes, codes, trim_space}
use cluster_performance_engi.Dag.Spec.{
  Node, Pipeline, nil_pipeline, name_required, node_without_id, empty_cmd, unknown_dependency,
  validate,
}
use cluster_performance_engi.Dag.Spec.Valid.{IsPipeline, validate_iff}

abbrev task : Bytes → List Bytes → List Bytes → Node
task id cmd deps = record { id = id; cmd = cmd; cpus = pos 0; numa_node = none; depends_on = deps }

abbrev echo : List Bytes
echo = codes "echo" ∷ []

abbrev named : List Node → Pipeline
named nodes = record { name = codes "demo"; nodes = nodes }

abbrev two : Pipeline
two = named (task (codes "a") echo [] ∷ task (codes "b") echo (codes "a" ∷ []) ∷ [])

validate_runs :
    (validate none ≡ err nil_pipeline)
    × (validate (some (record { name = codes " "; nodes = [] })) ≡ err name_required)
    × (validate (some (named (task (codes " ") echo [] ∷ []))) ≡ err node_without_id)
    × (validate (some (named (task (codes "a") [] [] ∷ []))) ≡ err (empty_cmd (codes "a")))
    × (validate (some two) ≡ ok tt)
unfolding validate trim_space
validate_runs = (refl, refl, refl, refl, refl)

-- Names of a no-break space, of an ideographic space and of half a character.
validate_blank :
    (validate (some (record { name = 194 ∷ 160 ∷ []; nodes = [] })) ≡ err name_required)
    × (validate (some (record { name = 227 ∷ 128 ∷ 128 ∷ 32 ∷ []; nodes = [] }))
        ≡ err name_required)
    × (validate (some (record { name = 194 ∷ []; nodes = [] })) ≡ ok tt)
unfolding validate trim_space
validate_blank = (refl, refl, refl)

validate_dangling :
    validate (some (named (task (codes "a") echo (codes "z" ∷ []) ∷ [])))
    ≡ err (unknown_dependency (codes "a") (codes "z"))
unfolding validate trim_space
validate_dangling = refl

validate_iff_example : (validate (some two) ≡ ok tt) ↔ IsPipeline two
validate_iff_example = validate_iff two
