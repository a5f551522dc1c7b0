-- ===== src/Shm/Life.antt =====
-- What the actions of a segment leave behind.
use cluster_performance_engi.Base.Parts.{Lacks}
use cluster_performance_engi.Base.{
  ℕ, suc, ◌-◌, ◌≡◌, refl, true, false, List, [], ◌∷◌, ◌++◌, Option, none, some, Result, ok, err,
  if◌then◌else◌, arith, all, is_nil, Bool-cases, inl, inr, ◌≢◌, ◌⊎◌,
}
use cluster_performance_engi.Base.Int.{ℤ, pos, leb_ℤ}
use cluster_performance_engi.Base.Text.{Bytes, eqb, eqb_refl}
use cluster_performance_engi.Shm.{
  Segment, Action, open_file, remove_file, close_file, truncate, map_file, unmap, Calls, create_at,
  create_named, is_shm_name, shm_dir, close, remove, is_name_char, works, ShmError,
}

-- The files that exist, the open descriptors and the mappings.
pub record Held : Type 0 where
  pub files : List Bytes
  pub handles : ℕ
  pub mappings : ℕ

-- One file of that path goes.
unfoldable pub unlink : Bytes → List Bytes → List Bytes
unlink p [] = []
unlink p (q ∷ files) = if eqb p q then files else q ∷ unlink p files

abbrev pub act : Held → Action → Held
act h (open_file p) = record { files = p ∷ h.files; handles = suc h.handles; mappings = h.mappings }
act h (remove_file p worked) = record {
  files = if worked then unlink p h.files else h.files;
  handles = h.handles;
  mappings = h.mappings;
}
act h close_file = record { files = h.files; handles = h.handles - 1; mappings = h.mappings }
act h truncate = h
act h map_file = record { files = h.files; handles = h.handles; mappings = suc h.mappings }
act h (unmap worked) = record {
  files = h.files;
  handles = h.handles;
  mappings = if worked then h.mappings - 1 else h.mappings;
}

abbrev pub acts : Held → List Action → Held
acts h [] = h
acts h (a ∷ l) = acts (act h a) l

-- One file and one mapping more.
abbrev pub with_segment : Bytes → Held → Held
with_segment path h = record {
  files = path ∷ h.files;
  handles = h.handles;
  mappings = suc h.mappings;
}

-- What is held after an attempt to create a file with that path, if the clean-up works.
abbrev pub outcome {ℓ} : {E : Type ℓ} → Held → Bytes → Result E Segment → Held
outcome h path (err e) = h
outcome h path (ok s) = with_segment path h

unlink-first : (p : Bytes) (files : List Bytes) → unlink p (p ∷ files) ≡ files
unfolding unlink
unlink-first p files = rw (eqb_refl p) refl

pub settled : (n : ℕ) → suc n - 1 ≡ n
settled n = omega arith

-- What is held is as it was, or one file and one mapping more.
abbrev IsClean {ℓ} : {E : Type ℓ} → Held → Bytes → List Action × Result E Segment → Type 0
IsClean h path r = acts h r.0 ≡ outcome h path r.1

create_at-IsClean :
    {E : Type 0} (path : Bytes) (size : ℤ) (h : Held) (o t m c : Option E)
    → IsClean h path (
        create_at path size (record {
          open_error = o;
          truncate_error = t;
          map_error = m;
          close_error = c;
          unmap_error = none;
          remove_error = none;
        }))
unfolding create_at unlink
create_at-IsClean path size h (some e) t m c = refl
create_at-IsClean path size h none (some e) m c = rw (eqb_refl path, settled h.handles) refl
create_at-IsClean path size h none none (some e) c = rw (eqb_refl path, settled h.handles) refl
create_at-IsClean path size h none none none (some e) =
    rw (eqb_refl path, settled h.handles, settled h.mappings) refl
create_at-IsClean path size h none none none none = rw (settled h.handles) refl

-- Where the clean-up works, a failed `CreateNamed` changes nothing that is held.
pub create_named-IsClean :
    {E : Type 0} (name : Bytes) (size : ℤ) (calls : Calls E) (h : Held)
    → calls.unmap_error ≡ none
    → calls.remove_error ≡ none
    → IsClean h (shm_dir ++ name) (create_named name size calls)
unfolding create_named
create_named-IsClean name size calls h unmaps removes = elim (Bool-cases (leb_ℤ size (pos 0))) [
  | inl e ↦ rw e refl
  | inr e ↦ elim (Bool-cases (is_shm_name name)) [
    | inl n ↦
        rw (e, n, unmaps, removes)
          (create_at-IsClean (shm_dir ++ name) size h calls.open_error calls.truncate_error
            calls.map_error calls.close_error)
    | inr n ↦ rw (e, n) refl
  ]
]

-- A success adds one file and one mapping. A failure leaves the descriptors, and the file or the
-- mapping at most, each only if the call that takes it away failed.
abbrev pub IsSettled :
    {E : Type 0} → Held → Bytes → Calls E → List Action × Result (ShmError E) Segment → Type 0
IsSettled h path calls (l, ok s) = acts h l ≡ with_segment path h
IsSettled h path calls (l, err e) =
    let k = acts h l in
    (k.handles ≡ h.handles)
    × ((k.files ≡ h.files) ⊎ ((k.files ≡ path ∷ h.files) × (calls.remove_error ≢ none)))
    × ((k.mappings ≡ h.mappings) ⊎ ((k.mappings ≡ suc h.mappings) × (calls.unmap_error ≢ none)))

failing : {E : Type 0} (e : E) → let r : Option E = some e in r ≢ none
failing e h = ground (arith, h)

removal-files :
    {E : Type 0} (path : Bytes) (files : List Bytes) (r : Option E)
    → let left = if works r then unlink path (path ∷ files) else path ∷ files in
      (left ≡ files) ⊎ ((left ≡ path ∷ files) × (r ≢ none))
removal-files path files none = inl (unlink-first path files)
removal-files path files (some e) = inr (refl, failing e)

unmapping-count :
    {E : Type 0} (n : ℕ) (r : Option E)
    → let left = if works r then suc n - 1 else suc n in (left ≡ n) ⊎ ((left ≡ suc n) × (r ≢ none))
unmapping-count n none = inl (settled n)
unmapping-count n (some e) = inr (refl, failing e)

create_at-IsSettled :
    {E : Type 0} (path : Bytes) (size : ℤ) (h : Held) (o t m c u r : Option E)
    → let calls : Calls E = record {
      open_error = o;
      truncate_error = t;
      map_error = m;
      close_error = c;
      unmap_error = u;
      remove_error = r;
    } in
      IsSettled h path calls (create_at path size calls)
unfolding create_at
create_at-IsSettled path size h (some e) t m c u r = (refl, inl refl, inl refl)
create_at-IsSettled path size h none (some e) m c u r =
    (settled h.handles, removal-files path h.files r, inl refl)
create_at-IsSettled path size h none none (some e) c u r =
    (settled h.handles, removal-files path h.files r, inl refl)
create_at-IsSettled path size h none none none (some e) u r =
    (settled h.handles, removal-files path h.files r, unmapping-count h.mappings u)
create_at-IsSettled path size h none none none none u r = rw (settled h.handles) refl

-- Whichever system calls of `CreateNamed` fail, those of its clean-up included: if it succeeds,
-- there is one file and one mapping more and no descriptor is left open; if it fails, the open
-- descriptors are as before, the files too unless the removal of its file failed, which then is
-- the only file more, and the mappings too unless unmapping failed, and then there is one more.
pub create_named-IsSettled :
    {E : Type 0} (name : Bytes) (size : ℤ) (calls : Calls E) (h : Held)
    → IsSettled h (shm_dir ++ name) calls (create_named name size calls)
unfolding create_named
create_named-IsSettled name size calls h = elim (Bool-cases (leb_ℤ size (pos 0))) [
  | inl e ↦ rw e (refl, inl refl, inl refl)
  | inr e ↦ elim (Bool-cases (is_shm_name name)) [
    | inl n ↦
        rw (e, n)
          (create_at-IsSettled (shm_dir ++ name) size h calls.open_error calls.truncate_error
            calls.map_error calls.close_error calls.unmap_error calls.remove_error)
    | inr n ↦ rw (e, n) (refl, inl refl, inl refl)
  ]
]

-- What is held after a `Close` and a `Remove`.
unfoldable pub torn_down : {E : Type 0} → Held → Segment → Option E → Option E → Held
torn_down h s close_error remove_error =
    let (a, s', e) = close s close_error in
    let (b, s'', e') = remove s' e remove_error in acts h (a ++ b)

abbrev pub creation : Bytes → List Action
creation path = open_file path ∷ truncate ∷ map_file ∷ close_file ∷ []

abbrev pub fresh : Bytes → ℤ → Segment
fresh path size = record { path = path; size = size; is_mapped = true }

create_at-ok :
    {E : Type 0} (path : Bytes) (size : ℤ) (o t m c u r : Option E) (s : Segment)
    → let made = create_at path size (record {
      open_error = o;
      truncate_error = t;
      map_error = m;
      close_error = c;
      unmap_error = u;
      remove_error = r;
    }) in
      made.1 ≡ ok s → (made.0 ≡ creation path) × (s ≡ fresh path size)
unfolding create_at
create_at-ok path size (some e) t m c u r s h = ground (arith, h)
create_at-ok path size none (some e) m c u r s h = ground (arith, h)
create_at-ok path size none none (some e) c u r s h = ground (arith, h)
create_at-ok path size none none none (some e) u r s h = ground (arith, h)
create_at-ok path size none none none none u r s h = (refl, ground (arith, h))

pub create_named-ok :
    {E : Type 0} (name : Bytes) (size : ℤ) (calls : Calls E) (s : Segment)
    → (create_named name size calls).1 ≡ ok s
    → ((create_named name size calls).0 ≡ creation (shm_dir ++ name))
      × (s ≡ fresh (shm_dir ++ name) size)
unfolding create_named
create_named-ok name size calls s h = elim (Bool-cases (leb_ℤ size (pos 0))) [
  | inl e ↦ ground (arith, h)
  | inr e ↦ elim (Bool-cases (is_shm_name name)) [
    | inl n ↦
        rw (e, n)
          (create_at-ok (shm_dir ++ name) size calls.open_error calls.truncate_error calls.map_error
            calls.close_error calls.unmap_error calls.remove_error s (rw (e, n) at h))
    | inr n ↦ ground (arith, h)
  ]
]

-- What a tear-down leaves of `h`, which is what was held before the segment was there.
abbrev pub remains : {E : Type 0} → Held → Bytes → Option E → Option E → Held
remains h path close_error remove_error = record {
  files = if works remove_error then h.files else path ∷ h.files;
  handles = h.handles;
  mappings = if works close_error then h.mappings else suc h.mappings;
}

torn_down-fresh :
    {E : Type 0} (h : Held) (path : Bytes) (size : ℤ) (close_error remove_error : Option E)
    → is_nil path ≡ false
    → torn_down (acts h (creation path)) (fresh path size) close_error remove_error
      ≡ remains h path close_error remove_error
unfolding torn_down close remove unlink
torn_down-fresh h path size none none full =
    rw (full, settled h.handles, settled h.mappings, eqb_refl path) refl
torn_down-fresh h path size none (some e) full =
    rw (full, settled h.handles, settled h.mappings) refl
torn_down-fresh h path size (some e) none full = rw (full, settled h.handles, eqb_refl path) refl
torn_down-fresh h path size (some e) (some f) full = rw (full, settled h.handles) refl

-- After a successful `CreateNamed`, a `Close` and then a `Remove`, whether or not they report
-- errors: the descriptors are those from before, the file is gone exactly if its removal works,
-- and the mapping is gone exactly if `Close` could unmap it. `Remove` does not try again what
-- `Close` failed to unmap.
pub create_named-torn_down :
    {E : Type 0} (name : Bytes) (size : ℤ) (calls : Calls E) (h : Held) (s : Segment)
    (close_error remove_error : Option E)
    → (create_named name size calls).1 ≡ ok s
    → torn_down (acts h (create_named name size calls).0) s close_error remove_error
      ≡ remains h (shm_dir ++ name) close_error remove_error
create_named-torn_down name size calls h s close_error remove_error e =
    let (made, same) = create_named-ok name size calls s e in
    rw (made, same) (torn_down-fresh h (shm_dir ++ name) size close_error remove_error refl)

abbrev pub slash : ℕ
slash = b'/'

-- A name that the pattern for segments accepts has no slash and is not empty.
pub is_shm_name-Lacks :
    (name : Bytes) → is_shm_name name ≡ true → Lacks slash name × (is_nil name ≡ false)
unfolding is_shm_name
is_shm_name-Lacks [] e = ground (arith, e)
is_shm_name-Lacks (c ∷ s) e = ((ground (arith, e), rest s (ground (arith, e))), refl)
  where
    rest : (s : Bytes) → all is_name_char s ≡ true → Lacks slash s
    rest [] h = tt
    rest (c ∷ s) h = (ground (arith, h), rest s (ground (arith, h)))
