-- ===== src/Cells.antt =====
-- nexusflow/pkg/cgv2/manager_linux.go: the control group of a cell. What the file system returns
-- are arguments; the files that are written are a list of actions. An id is the list of its runes.
pub mod Watch
pub mod Stream
pub mod Output
pub mod Evicting
pub mod Server
pub mod Paths
pub mod Registry
mod Tests
use cluster_performance_engi.Base.{
  ℕ, ◌≡◌, Bool, true, false, ◌&&◌, ◌||◌, List, [], ◌∷◌, ◌++◌, map, Option, none, some, Result, ok,
  err, is_nil, leb, ◌==◌, if◌then◌else◌,
}
use cluster_performance_engi.Base.Int.{ℤ}
use cluster_performance_engi.Base.Text.{Bytes, codes, trim_space}
use cluster_performance_engi.Base.Decimal.{itoa, atoi}

unfoldable pub is_cell_char : ℕ → Bool
is_cell_char r =
    leb b'a' r && leb r b'z'
    || (leb b'A' r && leb r b'Z' || (leb b'0' r && leb r b'9' || (r == b'-' || r == b'_')))

abbrev pub cell_char : ℕ → ℕ
cell_char r = if is_cell_char r then r else b'-'

unfoldable pub sanitize_id : Bytes → Bytes
sanitize_id s = let out = map cell_char s in if is_nil out then codes "default" else out

-- `filepath.Join`, for a root that it leaves alone.
unfoldable pub cell_path : Bytes → Bytes → Bytes
unfolding sanitize_id
cell_path root cell_id = root ++ (codes "/cell-" ++ sanitize_id cell_id)

abbrev pub join_rest : Bytes → Bytes → List ℤ → Bytes
join_rest sep b [] = b
join_rest sep b (v ∷ xs) = join_rest sep (b ++ (sep ++ itoa v)) xs

unfoldable pub join_ints : List ℤ → Bytes → Bytes
join_ints [] sep = []
join_ints (v ∷ xs) sep = join_rest sep (itoa v) xs

unfoldable pub join_ints_non_empty : List ℤ → Bytes
unfolding join_ints
join_ints_non_empty xs = let s = join_ints xs (codes ",") in if is_nil s then codes "0" else s

-- What a request does to the system.
pub data Action : Type 0 where
  make_dir remove_all : Bytes → Action
  signal : ℤ → ℤ → Action
  write_file : Bytes → Bytes → Action

abbrev pub line : Bytes → Bytes
line s = s ++ (b'\n' ∷ [])

-- What the file system returns; `parent_mems` is empty if it cannot be read.
pub record CellCalls (E : Type 0) : Type 0 where
  pub make_error : Option E
  pub cpus_error : Option E
  pub parent_mems : Bytes
  pub mems_error : Option E

abbrev pub inherited_mems : Bytes → Bytes
inherited_mems parent_mems =
    let mem = trim_space parent_mems in if is_nil mem then codes "0" else mem

unfoldable pub mem_text : List ℤ → Bytes → Bytes
unfolding join_ints
mem_text mems parent_mems =
    if is_nil mems then inherited_mems parent_mems else join_ints mems (codes ",")

-- `err` stops a chain of steps, with what was written so far.
abbrev pub when_done :
    {E : Type 0} → Action → Option E → List Action × Result E Bytes → List Action × Result E Bytes
when_done a (some e) rest = (a ∷ [], err e)
when_done a none rest = (a ∷ rest.0, rest.1)

abbrev pub partition : Bool → Bytes → List Action
partition exclusive path =
    if exclusive
    then write_file (path ++ codes "/cpuset.cpus.partition") (line (codes "isolated")) ∷ []
    else []

-- `Manager.CreateCell`
unfoldable pub create_group :
    {E : Type 0}
    → Bytes
    → Bytes
    → List ℤ
    → List ℤ
    → Bool
    → CellCalls E
    → List Action × Result E Bytes
unfolding cell_path mem_text join_ints_non_empty
create_group root cell_id cpus mems exclusive calls =
    let path = cell_path root cell_id in
    when_done (make_dir path) calls.make_error (
      when_done (write_file (path ++ codes "/cpuset.cpus") (line (join_ints_non_empty cpus)))
        calls.cpus_error
        (when_done
          (write_file (path ++ codes "/cpuset.mems") (line (mem_text mems calls.parent_mems)))
          calls.mems_error (partition exclusive path, ok path)))

-- `Attach`
abbrev pub attach : Bytes → ℤ → Action
attach path pid = write_file (path ++ codes "/cgroup.procs") (line (itoa pid))

-- The lines of the process list; one that is no number is passed over.
abbrev pub pid_of : Option ℤ → List ℤ → List ℤ
pid_of none out = out
pid_of (some pid) out = out ++ pid ∷ []

unfoldable pub list_pids : List ℤ → List Bytes → List ℤ
list_pids out [] = out
list_pids out (text ∷ lines) = list_pids (pid_of (atoi (trim_space text)) out) lines

-- `NewManager`: the root that it uses.
abbrev pub manager_root : Bytes → Bytes
manager_root root = if is_nil root then codes "/sys/fs/cgroup/nexusflow-daemon" else root

abbrev pub has_prefix : Bytes → Bytes → Bool
has_prefix [] s = true
has_prefix (c ∷ part) [] = false
has_prefix (c ∷ part) (d ∷ s) = c == d && has_prefix part s

-- `strings.Contains`
unfoldable pub contains_text : Bytes → Bytes → Bool
contains_text part [] = has_prefix part []
contains_text part (c ∷ s) = has_prefix part (c ∷ s) || contains_text part s

-- `enableController`: the text that is appended to the control file, whose content is given.
unfoldable pub enable_controller : {E : Type 0} → Result E Bytes → Bytes → Result E (Option Bytes)
unfolding contains_text
enable_controller (err e) name = err e
enable_controller (ok text) name =
    ok (if contains_text name text then none else some (line (codes "+" ++ name)))

abbrev pub appended : {E : Type 0} → Result E (Option Bytes) → List Bytes
appended (err e) = []
appended (ok none) = []
appended (ok (some text)) = text ∷ []

-- `NewManager`: what is appended in the parent and in the root, once the root could be made. The
-- controllers' errors are passed over.
unfoldable pub new_manager :
    {E : Type 0}
    → Bytes
    → Option E
    → Result E Bytes
    → Result E Bytes
    → Result E Bytes
    → Result E (Bytes × List Bytes × List Bytes)
unfolding enable_controller
new_manager root (some e) parent parent' own = err e
new_manager root none parent parent' own = ok (
  manager_root root,
  appended (enable_controller parent (codes "cpuset"))
      ++ appended (enable_controller parent' (codes "memory")),
  appended (enable_controller own (codes "cpuset")),
)
