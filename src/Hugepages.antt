-- ===== src/Hugepages.antt =====
-- nexusflow/pkg/hugepages/hugepages_linux.go: the number of huge pages. What the write and the read
-- of the file return are arguments.
use cluster_performance_engi.Base.{
  ◌&&◌, List, [], ◌∷◌, ◌++◌, map, any, Bool, Option, none, some, Result, ok, err, if◌then◌else◌,
  leb, ◌+◌,
}
use cluster_performance_engi.Base.Int.{ℤ, pos, ltb_ℤ}
use cluster_performance_engi.Base.Text.{Bytes, codes, eqb, trim_space}
use cluster_performance_engi.Base.Decimal.{itoa, atoi}

pub data PagesError (E : Type 0) : Type 0 where
  negative_count : PagesError E
  unknown_pagesize : Bytes → PagesError E
  write_failed : E → PagesError E

-- `strings.ToLower` on ASCII. Other letters are left alone, so U+0130, which Go turns into an i, is
-- not read as one.
unfoldable pub to_lower : Bytes → Bytes
to_lower s = map (λ c. if leb b'A' c && leb c b'Z' then c + 32 else c) s

abbrev pub one_of : Bytes → List Bytes → Bool
one_of s labels = any (eqb s) labels

unfoldable pub sysfs_path : {E : Type 0} → Bytes → Result (PagesError E) Bytes
unfolding to_lower
sysfs_path pagesize =
    let label = to_lower (trim_space pagesize) in
    if one_of label (codes "2m" ∷ codes "2mib" ∷ codes "2048" ∷ [])
    then ok (codes "/sys/kernel/mm/hugepages/hugepages-2048kB/nr_hugepages")
    else if one_of label (codes "1g" ∷ codes "1gib" ∷ codes "1048576" ∷ [])
    then ok (codes "/sys/kernel/mm/hugepages/hugepages-1048576kB/nr_hugepages")
    else err (unknown_pagesize pagesize)

-- The count that the kernel reports, or the one that was written.
abbrev pub parsed : ℤ → Option ℤ → ℤ
parsed n none = n
parsed n (some v) = v

abbrev pub read_back : ℤ → Option Bytes → ℤ
read_back n none = n
read_back n (some text) = parsed n (atoi (trim_space text))

abbrev pub written : {E : Type 0} → ℤ → Option E → Option Bytes → Result (PagesError E) ℤ
written n (some e) text = err (write_failed e)
written n none text = ok (read_back n text)

-- The writes that are made, each a path and a text, and the result.
abbrev pub Outcome : Type 0 → Type 0
Outcome E = List (Bytes × Bytes) × Result (PagesError E) ℤ

abbrev pub at_path :
    {E : Type 0}
    → Result (PagesError E) Bytes
    → ℤ
    → (Bytes → Bytes → Option E)
    → (Bytes → Option Bytes)
    → Outcome E
at_path (err e) n write read = ([], err e)
at_path (ok path) n write read =
    let text = itoa n ++ (b'\n' ∷ []) in
    ((path, text) ∷ [], written n (write path text) (read path))

unfoldable pub set_nr_hugepages :
    {E : Type 0} → Bytes → ℤ → (Bytes → Bytes → Option E) → (Bytes → Option Bytes) → Outcome E
unfolding sysfs_path
set_nr_hugepages pagesize n write read =
    if ltb_ℤ n (pos 0) then ([], err negative_count) else at_path (sysfs_path pagesize) n write read
