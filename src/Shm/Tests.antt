-- ===== src/Shm/Tests.antt =====
-- Runs of the segment functions, and the theorems about them there.
use cluster_performance_engi.Base.{◌≡◌, refl, [], ◌∷◌, ◌++◌, none, some, ok, true, false}
use cluster_performance_engi.Base.Int.{pos}
use cluster_performance_engi.Base.Text.{Bytes, codes}
use cluster_performance_engi.Shm.{
  Calls, create_named, is_shm_name, shm_dir, Segment, close_file, open_file, remove_file, truncate,
}
use cluster_performance_engi.Shm.Life.{
  Held, IsSettled, create_named-IsSettled, acts, torn_down, create_named-torn_down, remains,
}

abbrev all_well : Calls Bytes
all_well = record {
  open_error = none;
  truncate_error = none;
  map_error = none;
  close_error = none;
  unmap_error = none;
  remove_error = none;
}

abbrev no_memory : Calls Bytes
no_memory = record {
  open_error = none;
  truncate_error = none;
  map_error = some (codes "ENOMEM");
  close_error = none;
  unmap_error = none;
  remove_error = some (codes "EPERM");
}

abbrev plasma : Bytes
plasma = codes "plasma"

abbrev nothing_held : Held
nothing_held = record { files = []; handles = 0; mappings = 0 }

map_failure :
    (create_named plasma (pos 8) no_memory).0
    ≡ open_file (shm_dir ++ plasma)
      ∷ truncate
      ∷ close_file
      ∷ remove_file (shm_dir ++ plasma) false
      ∷ []
unfolding create_named
map_failure = refl

name_runs :
    (is_shm_name (codes "a.b-c_9") ≡ true)
    × (is_shm_name (codes "../x") ≡ false)
    × (is_shm_name (codes "a/b") ≡ false)
unfolding is_shm_name
name_runs = (refl, refl, refl)

create_named-IsSettled_example :
    IsSettled nothing_held (shm_dir ++ plasma) no_memory (create_named plasma (pos 8) no_memory)
create_named-IsSettled_example = create_named-IsSettled plasma (pos 8) no_memory nothing_held

abbrev made : Segment
made = record { path = shm_dir ++ plasma; size = pos 8; is_mapped = true }

create_named-made : (create_named plasma (pos 8) all_well).1 ≡ ok made
unfolding create_named
create_named-made = refl

create_named-torn_down_example :
    torn_down
      (acts nothing_held (create_named plasma (pos 8) all_well).0)
      made
      (some (codes "EINVAL"))
      none
    ≡ remains nothing_held (shm_dir ++ plasma) (some (codes "EINVAL")) none
create_named-torn_down_example =
    create_named-torn_down plasma (pos 8) all_well nothing_held made (some (codes "EINVAL")) none
      create_named-made

plasma-name : is_shm_name plasma ≡ true
unfolding is_shm_name
plasma-name = refl
