-- ===== src/Shm.antt =====
-- nexusflow/pkg/shm/shm_linux.go: shared-memory segments. What the system calls return are
-- arguments; the calls that are made are a list of actions.
pub mod Life
mod Tests
use cluster_performance_engi.Base.{
  ℕ, suc, ◌+◌, ◌≡◌, Bool, true, false, not, ◌&&◌, ◌||◌, List, [], ◌∷◌, ◌++◌, Option, none, some,
  Result, ok, err, length, is_nil, all, leb, ltb, ◌==◌, if◌then◌else◌,
}
use cluster_performance_engi.Base.Int.{ℤ, pos, leb_ℤ}
use cluster_performance_engi.Base.Text.{Bytes, codes}

-- `is_mapped`: `data` is not empty.
pub record Segment : Type 0 where
  pub path : Bytes
  pub size : ℤ
  pub is_mapped : Bool

-- The flag of a removal and of an unmapping says whether it worked. The others are noted when they
-- worked, but for `close_file`, since a descriptor is gone also when closing it reports an error.
pub data Action : Type 0 where
  open_file : Bytes → Action
  remove_file : Bytes → Bool → Action
  close_file truncate map_file : Action
  unmap : Bool → Action

pub data ShmError (E : Type 0) : Type 0 where
  invalid_size : ℤ → ShmError E
  invalid_name : Bytes → ShmError E
  failed : E → ShmError E

-- The errors of `OpenFile`, `Ftruncate`, `Mmap` and `Close`, and of the `Munmap` and the `Remove`
-- that clean up after a failure.
pub record Calls (E : Type 0) : Type 0 where
  pub open_error : Option E
  pub truncate_error : Option E
  pub map_error : Option E
  pub close_error : Option E
  pub unmap_error : Option E
  pub remove_error : Option E

abbrev pub works {ℓ} : {E : Type ℓ} → Option E → Bool
works none = true
works (some e) = false

abbrev pub is_alnum : ℕ → Bool
is_alnum c = leb b'a' c && leb c b'z' || (leb b'A' c && leb c b'Z' || leb b'0' c && leb c b'9')

abbrev pub is_name_char : ℕ → Bool
is_name_char c = is_alnum c || (c == b'.' || (c == b'_' || c == b'-'))

-- `^[a-zA-Z0-9][a-zA-Z0-9._-]{0,126}$`
unfoldable pub is_shm_name : Bytes → Bool
is_shm_name [] = false
is_shm_name (c ∷ s) = is_alnum c && (all is_name_char s && leb (length s) 126)

abbrev pub shm_dir : Bytes
shm_dir = codes "/dev/shm/nexusflow-"

module _ {E : Type 0} where
  abbrev pub after_close :
      Bytes → ℤ → Calls E → Option E → List Action × Result (ShmError E) Segment
  after_close path size calls (some e) = (
    close_file ∷ unmap (works calls.unmap_error) ∷ remove_file path (works calls.remove_error) ∷ [],
    err (failed e),
  )
  after_close path size calls none =
      (close_file ∷ [], ok (record { path = path; size = size; is_mapped = true }))

  abbrev pub after_map :
      Bytes
      → Calls E
      → Option E
      → List Action × Result (ShmError E) Segment
      → List Action × Result (ShmError E) Segment
  after_map path calls (some e) rest =
      (close_file ∷ remove_file path (works calls.remove_error) ∷ [], err (failed e))
  after_map path calls none rest = (map_file ∷ rest.0, rest.1)

  abbrev pub after_truncate :
      Bytes
      → Calls E
      → Option E
      → List Action × Result (ShmError E) Segment
      → List Action × Result (ShmError E) Segment
  after_truncate path calls (some e) rest =
      (close_file ∷ remove_file path (works calls.remove_error) ∷ [], err (failed e))
  after_truncate path calls none rest = (truncate ∷ rest.0, rest.1)

  abbrev pub after_open :
      Bytes
      → Option E
      → List Action × Result (ShmError E) Segment
      → List Action × Result (ShmError E) Segment
  after_open path (some e) rest = ([], err (failed e))
  after_open path none rest = (open_file path ∷ rest.0, rest.1)

  -- What `Create` and `CreateNamed` do once they have the path.
  unfoldable pub create_at : Bytes → ℤ → Calls E → List Action × Result (ShmError E) Segment
  create_at path size calls = after_open path calls.open_error (
      after_truncate path calls calls.truncate_error
        (after_map path calls calls.map_error (after_close path size calls calls.close_error)))

  abbrev pub with_random : ℤ → Result E Bytes → Calls E → List Action × Result (ShmError E) Segment
  with_random size (err e) calls = ([], err (failed e))
  with_random size (ok suffix) calls = create_at (shm_dir ++ suffix) size calls

  -- `random`: the hexadecimal digits of the random bytes.
  unfoldable pub create : ℤ → Result E Bytes → Calls E → List Action × Result (ShmError E) Segment
  unfolding create_at
  create size random calls =
      if leb_ℤ size (pos 0) then ([], err (invalid_size size)) else with_random size random calls

  unfoldable pub create_named : Bytes → ℤ → Calls E → List Action × Result (ShmError E) Segment
  unfolding create_at is_shm_name
  create_named name size calls =
      if leb_ℤ size (pos 0)
      then ([], err (invalid_size size))
      else if not (is_shm_name name)
      then ([], err (invalid_name name))
      else create_at (shm_dir ++ name) size calls

  abbrev pub opened : Bytes → ℤ → Option E → List Action × Result (ShmError E) Segment
  opened path size (some e) = (close_file ∷ [], err (failed e))
  opened path size none =
      (map_file ∷ close_file ∷ [], ok (record { path = path; size = size; is_mapped = true }))

  -- The file is closed at the return, by `defer`.
  unfoldable pub open_path : Bytes → ℤ → Calls E → List Action × Result (ShmError E) Segment
  open_path path size calls = after_open path calls.open_error (opened path size calls.map_error)

  -- `Close`: the mapping is forgotten even if `Munmap` fails.
  unfoldable pub close : Segment → Option E → List Action × Segment × Option E
  close s unmap_error =
      if s.is_mapped
      then (unmap (works unmap_error) ∷ [], record s { is_mapped = false }, unmap_error)
      else ([], s, none)

  abbrev pub remove_path : Segment → Option E → List Action × Segment × Option E
  remove_path s remove_error =
      if is_nil s.path
      then ([], s, none)
      else (remove_file s.path (works remove_error) ∷ [], record s { path = [] }, remove_error)

  abbrev pub after_unmap : Segment → Option E → Option E → List Action × Segment × Option E
  after_unmap s (some e) remove_error = (unmap false ∷ [], s, some e)
  after_unmap s none remove_error =
      let (acts, s', e) = remove_path (record s { is_mapped = false }) remove_error in
      (unmap true ∷ acts, s', e)

  unfoldable pub remove : Segment → Option E → Option E → List Action × Segment × Option E
  remove s unmap_error remove_error =
      if s.is_mapped then after_unmap s unmap_error remove_error else remove_path s remove_error
