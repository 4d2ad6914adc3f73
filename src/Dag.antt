-- ===== src/Dag.antt =====
-- src/manager/dag.rs: the layers in which programs start and stop.
-- A `HashMap` of programs is a list of entries with distinct names, in the order of its iteration;
-- `is_cyclic` stands for `petgraph::algo::is_cyclic_directed` on the graph of the dependencies.
pub mod Counts
pub mod Kahn
pub mod Loop
pub mod Roots
pub mod Layers
pub mod Order
pub mod Complete
pub mod Once
pub mod Priority
pub mod Dependents
mod Samples
use rsupervisord.Prelude.{
  ℕ, zero, suc, ◌+◌, ◌-◌, max, Bool, true, false, not, ◌&&◌, ◌||◌, Option, none, some, List, [],
  ◌∷◌, ◌++◌, map, reverse, Text, text_eq, ltb, ◌==◌, if◌then◌else◌, length, any, is_empty,
}

pub record ProgramConfig : Type 0 where
  pub depends_on : List Text
  pub priority : ℕ  -- u32

abbrev pub Programs : Type 0
Programs = List (Text × ProgramConfig)

-- `contains`
unfoldable pub contains : Text → List Text → Bool
contains x [] = false
contains x (y ∷ ys) = text_eq x y || contains x ys

abbrev pub names {ℓ} : {A : Type ℓ} → List (Text × A) → List Text
names [] = []
names ((n, a) ∷ es) = n ∷ names es

-- The dependencies of a program, none for a name that is not there.
unfoldable pub depends_of : Text → Programs → List Text
depends_of n [] = []
depends_of n ((m, c) ∷ ps) = if text_eq n m then c.depends_on else depends_of n ps

-- `adj[u]` after the loops over the programs and their dependencies.
unfoldable pub neighbors_of : (u name : Text) → List Text → List Text
neighbors_of u name [] = []
neighbors_of u name (dep ∷ deps) =
    let rest = neighbors_of u name deps in if text_eq dep u then name ∷ rest else rest

unfoldable pub adj : Text → Programs → List Text
unfolding neighbors_of
adj u [] = []
adj u ((name, c) ∷ ps) = neighbors_of u name c.depends_on ++ adj u ps

-- `*deg -= 1` in the map of in-degrees.
unfoldable pub decrement : (Text → ℕ) → Text → Text → ℕ
decrement in_degrees m n = if text_eq n m then in_degrees n - 1 else in_degrees n

-- The loop over the neighbors of a node of `layer`.
unfoldable pub relax :
    List Text → (layer : ℕ) → (Text → ℕ) → List (Text × ℕ) → (Text → ℕ) × List (Text × ℕ)
unfolding decrement
relax [] layer in_degrees queue = (in_degrees, queue)
relax (m ∷ ms) layer in_degrees queue =
    let degrees = decrement in_degrees m in
    relax ms layer degrees (if degrees m == 0 then queue ++ (m, layer + 1) ∷ [] else queue)

-- The loop over the queue. The result lists the pushes onto `layers_map`, in order: a node and its
-- layer.
unfoldable pub visit :
    (fuel : ℕ) → Programs → (Text → ℕ) → (queue placed : List (Text × ℕ)) → List (Text × ℕ)
visit zero ps in_degrees queue placed = placed
visit (suc fuel) ps in_degrees [] placed = placed
visit (suc fuel) ps in_degrees ((node, layer) ∷ queue) placed =
    let (degrees, queue') = relax (adj node ps) layer in_degrees queue in
    visit fuel ps degrees queue' (placed ++ (node, layer) ∷ [])

-- The queue at the start: the programs without dependencies, in layer 0.
unfoldable pub roots : Programs → List (Text × ℕ)
roots [] = []
roots ((name, c) ∷ ps) = if length c.depends_on == 0 then (name, 0) ∷ roots ps else roots ps

-- Kahn's algorithm. Every turn of the loop places one more program, so their number is enough fuel.
unfoldable pub kahn : Programs → List (Text × ℕ)
unfolding depends_of
kahn ps = visit (length ps) ps (λ n. length (depends_of n ps)) (roots ps) []

-- `layers_map.remove(&l)`: the nodes of layer `l`.
unfoldable pub layer_nodes : (l : ℕ) → List (Text × ℕ) → List Text
layer_nodes l [] = []
layer_nodes l ((n, k) ∷ es) = let rest = layer_nodes l es in if k == l then n ∷ rest else rest

unfoldable pub max_layer : List (Text × ℕ) → ℕ
max_layer [] = 0
max_layer ((n, k) ∷ es) = max k (max_layer es)

-- The order of `String`.
unfoldable pub text_le : Text → Text → Bool
text_le [] t = true
text_le (c ∷ s) [] = false
text_le (c ∷ s) (d ∷ t) = ltb c d || ((c == d) && text_le s t)

abbrev default_priority : ℕ
default_priority = 50

unfoldable pub priority_of : Programs → Text → ℕ
priority_of [] n = default_priority
priority_of ((m, c) ∷ ps) n = if text_eq n m then c.priority else priority_of ps n

unfoldable pub starts_before : Programs → Text → Text → Bool
unfolding text_le priority_of
starts_before ps a b =
    ltb (priority_of ps a) (priority_of ps b)
    || ((priority_of ps a == priority_of ps b) && text_le a b)

unfoldable pub stops_before : Programs → Text → Text → Bool
unfolding text_le priority_of
stops_before ps a b =
    ltb (priority_of ps b) (priority_of ps a)
    || ((priority_of ps b == priority_of ps a) && text_le a b)

-- `sort_by`, which is stable.
unfoldable pub insert : (Text → Text → Bool) → Text → List Text → List Text
insert before x [] = x ∷ []
insert before x (y ∷ ys) =
    let rest = insert before x ys in if before x y then x ∷ y ∷ ys else y ∷ rest

unfoldable pub sort_by : (Text → Text → Bool) → List Text → List Text
unfolding insert
sort_by before [] = []
sort_by before (x ∷ xs) = insert before x (sort_by before xs)

-- `for l in lo..`, `n` times.
unfoldable pub collect_layers : Programs → List (Text × ℕ) → (lo n : ℕ) → List (List Text)
collect_layers ps placed lo zero = []
collect_layers ps placed lo (suc n) =
    let rest = collect_layers ps placed (lo + 1) n in
    let progs = layer_nodes lo placed in
    if is_empty progs then rest else sort_by (starts_before ps) progs ∷ rest

pub record DependencyGraph : Type 0 where
  pub start_layers : List (List Text)
  pub stop_layers : List (List Text)

pub data BuildResult : Type 0 where
  ok : DependencyGraph → BuildResult
  unknown_program : (name dep : Text) → BuildResult
  circular circular_in_layers : BuildResult

-- The first dependency that is no program.
unfoldable pub unknown_in : (known : List Text) → List Text → Option Text
unfolding contains
unknown_in known [] = none
unknown_in known (dep ∷ deps) = if contains dep known then unknown_in known deps else some dep

unfoldable pub find_unknown : (known : List Text) → Programs → Option (Text × Text)
unfolding unknown_in
find_unknown known [] = none
find_unknown known ((name, c) ∷ ps) = elim (unknown_in known c.depends_on) [
  | some dep ↦ some (name, dep)
  | none ↦ find_unknown known ps
]

unfoldable pub graph_of : Programs → List (Text × ℕ) → DependencyGraph
unfolding collect_layers
graph_of ps placed =
    let start_layers =
      if is_empty ps then [] else collect_layers ps placed 0 (max_layer placed + 1) in
    record {
      start_layers = start_layers;
      stop_layers = map (sort_by (stops_before ps)) (reverse start_layers);
    }

unfoldable pub build : (is_cyclic : Programs → Bool) → Programs → BuildResult
build is_cyclic ps = elim (find_unknown (names ps) ps) [
  | some (name, dep) ↦ BuildResult.unknown_program name dep
  | none ↦
      if is_cyclic ps
      then BuildResult.circular
      else if not (length (kahn ps) == length ps)
      then BuildResult.circular_in_layers
      else BuildResult.ok (graph_of ps (kahn ps))
]

-- The loop over the programs for one node of the queue.
unfoldable pub add_dependents :
    Programs → (current : Text) → (dependents queue : List Text) → List Text × List Text
unfolding contains
add_dependents [] current dependents queue = (dependents, queue)
add_dependents ((name, c) ∷ ps) current dependents queue =
    if contains current c.depends_on && not (contains name dependents)
    then add_dependents ps current (name ∷ dependents) (queue ++ name ∷ [])
    else add_dependents ps current dependents queue

unfoldable pub spread : (fuel : ℕ) → Programs → (dependents queue : List Text) → List Text
spread zero ps dependents queue = dependents
spread (suc fuel) ps dependents [] = dependents
spread (suc fuel) ps dependents (current ∷ queue) =
    let (dependents', queue') = add_dependents ps current dependents queue in
    spread fuel ps dependents' queue'

-- The target and each program enter the queue at most once, so one turn more than there are
-- programs is enough. A `HashSet` is the list of its elements.
unfoldable pub get_dependents : Programs → (target : Text) → List Text
get_dependents ps target = spread (suc (length ps)) ps [] (target ∷ [])
