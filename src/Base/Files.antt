-- ===== src/Base/Files.antt =====
-- `os.DirEntry`: the name of a file in a directory, and whether it is a directory itself.
use cluster_performance_engi.Base.{Bool}
use cluster_performance_engi.Base.Text.{Bytes}

pub record Entry : Type 0 where
  pub name : Bytes
  pub is_dir : Bool
