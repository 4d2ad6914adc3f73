-- ===== src/Dag/Samples.antt =====
-- Three programs: the web server needs the database and the cache, the cache the database.
use rsupervisord.Prelude.{
  none, ℕ, ◌≡◌, refl, arith, Bool, false, [], ◌∷◌, Text, text_eq, if◌then◌else◌, concat,
}
use rsupervisord.Prelude.TextLaws.{eq_of_text_eq}
use rsupervisord.Dag.{
  get_dependents, spread, add_dependents, Programs, contains, names, depends_of, kahn, visit, relax,
  roots, adj, decrement, neighbors_of, layer_nodes, max_layer, sort_by, starts_before, stops_before,
  collect_layers, graph_of, find_unknown, DependencyGraph, BuildResult, build,
}
use rsupervisord.Dag.Counts.{Distinct}
use rsupervisord.Dag.Order.{Layered, build-Layered}
use rsupervisord.Dag.Dependents.{AllDependents, get_dependents-AllDependents}
use rsupervisord.Dag.Once.{build-Distinct}
use rsupervisord.Dag.Complete.{Ranked, build_ranked}

abbrev web : Text
web = b'w' ∷ []

abbrev cache : Text
cache = b'c' ∷ []

abbrev db : Text
db = b'd' ∷ []

abbrev site : Programs
site =
    (web, record { depends_on = db ∷ cache ∷ []; priority = 1 })
    ∷ (cache, record { depends_on = db ∷ []; priority = 5 })
    ∷ (db, record { depends_on = []; priority = 9 })
    ∷ []

abbrev acyclic : Programs → Bool
acyclic ps = false

abbrev site_graph : DependencyGraph
site_graph = record {
  start_layers = (db ∷ []) ∷ (cache ∷ []) ∷ (web ∷ []) ∷ [];
  stop_layers = (web ∷ []) ∷ (cache ∷ []) ∷ (db ∷ []) ∷ [];
}

program : Unit {0}
unfolding build kahn visit relax roots adj decrement neighbors_of layer_nodes max_layer sort_by
    starts_before stops_before collect_layers graph_of find_unknown text_eq depends_of
program = tt

build-site : build acyclic site ≡ BuildResult.ok site_graph
unfolding program
build-site = refl

site-Distinct : Distinct (names site)
unfolding contains text_eq
site-Distinct = (refl, (refl, (refl, tt)))

build-Layered_example : Layered site site_graph
build-Layered_example = build-Layered acyclic site site_graph site-Distinct build-site

build-Distinct_example : Distinct (concat site_graph.start_layers)
build-Distinct_example = build-Distinct acyclic site site_graph site-Distinct build-site

rank : Text → ℕ
unfolding text_eq
rank n = if text_eq n web then 2 else if text_eq n cache then 1 else 0

site-Ranked : Ranked site rank
unfolding depends_of contains rank
site-Ranked n d h = ground (
  arith,
  h,
  eq_of_text_eq d db,
  eq_of_text_eq d cache,
  eq_of_text_eq n web,
  eq_of_text_eq n cache,
  eq_of_text_eq n db,
)

site_known : find_unknown (names site) site ≡ none
unfolding program
site_known = refl

build_ranked_example : build acyclic site ≡ BuildResult.ok (graph_of site (kahn site))
build_ranked_example = build_ranked site rank site-Ranked site-Distinct site_known acyclic refl

get_dependents-AllDependents_example : AllDependents site db (cache ∷ web ∷ [])
unfolding get_dependents spread add_dependents contains text_eq
get_dependents-AllDependents_example = get_dependents-AllDependents site db
