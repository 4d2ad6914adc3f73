-- ===== src/Config/Samples.antt =====
-- A reload of three programs; a configuration is its name and a number.
use rsupervisord.Prelude.{ℕ, refl, Bool, List, [], ◌∷◌, Text, text_eq, ◌==◌, ◌&&◌}
use rsupervisord.Dag.{contains, names}
use rsupervisord.Dag.Counts.{Distinct}
use rsupervisord.Config.Diff.{compute}
use rsupervisord.Config.Diff.Classified.{Classified, compute-Classified}

abbrev Sample : Type 0
Sample = Text × ℕ

abbrev sample_name : Sample → Text
sample_name s = s.0

sample_eq : Sample → Sample → Bool
unfolding text_eq
sample_eq a b = text_eq a.0 b.0 && (a.1 == b.1)

abbrev before_reload : List (Text × Sample)
before_reload = (b'a' ∷ [], (b'a' ∷ [], 1)) ∷ (b'b' ∷ [], (b'b' ∷ [], 1)) ∷ []

abbrev after_reload : List (Text × Sample)
after_reload = (b'b' ∷ [], (b'b' ∷ [], 2)) ∷ (b'c' ∷ [], (b'c' ∷ [], 1)) ∷ []

after_reload-Distinct : Distinct (names after_reload)
unfolding contains text_eq
after_reload-Distinct = (refl, (refl, tt))

compute-Classified_example :
    Classified sample_name sample_eq before_reload after_reload
      (compute sample_name sample_eq before_reload after_reload)
compute-Classified_example =
    compute-Classified sample_name sample_eq before_reload after_reload after_reload-Distinct
