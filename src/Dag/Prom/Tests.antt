-- ===== src/Dag/Prom/Tests.antt =====
-- Runs of the escaping: that of prom_test.go, and others.
use cluster_performance_engi.Base.{◌≡◌, refl, [], ◌∷◌, ◌++◌, map, some}
use cluster_performance_engi.Base.Text.{Bytes, codes}
use cluster_performance_engi.Base.Text.{replace_all}
use cluster_performance_engi.Dag.Prom.{
  prom_esc_label, read_label, read_label-prom_esc_label, quote, flat_char, backslash, newline,
}

abbrev hostile : Bytes
hostile = b'a' ∷ quote ∷ newline ∷ backslash ∷ []

escape_run : prom_esc_label hostile ≡ b'a' ∷ backslash ∷ quote ∷ b' ' ∷ backslash ∷ backslash ∷ []
unfolding prom_esc_label replace_all
escape_run = refl

read_label-prom_esc_label_example :
    read_label (prom_esc_label hostile ++ (quote ∷ codes "}"))
    ≡ some (map flat_char hostile, codes "}")
read_label-prom_esc_label_example = read_label-prom_esc_label hostile (codes "}")
