-- ===== src/Workflow/Graph.antt =====
-- domain/workflow.rs: `WorkflowDefinition` and `validate`. A canonical name is a text. `BTreeMap`
-- over the nodes is the list of its keys, in their order, with a function for the values;
-- `BTreeMap` over lists is a function, where a missing key and an empty list are the same.
use Prim.Native.String.{String}
use text.Mathlib.Text.{◌==◌ as str_eq}
use crono.Prelude.{
  ℕ, zero, suc, ◌+◌, ◌-◌, Bool, true, false, not, ◌&&◌, ◌||◌, Option, none, some, List, [], ◌∷◌,
  ◌++◌, any, length, ltb, ◌==◌, if◌then◌else◌, Text, codes, Result, ok, err, ◌>>=◌,
}

pub data DependencyCondition : Type 0 where
  success failure always : DependencyCondition

pub record WorkflowNode : Type 0 where
  pub name : String
  pub job_id : ℕ

pub record WorkflowEdge : Type 0 where
  pub from : String
  pub to : String
  pub condition : DependencyCondition

pub record WorkflowDefinition : Type 0 where
  pub name : String
  pub description : Option Text
  pub nodes : List WorkflowNode
  pub edges : List WorkflowEdge

abbrev pub member : String → List String → Bool
member name names = any (λ n. str_eq n name) names

-- the order of texts: by their code points, as their UTF-8 bytes
before : Text → Text → Bool
before s [] = false
before [] (d ∷ t) = true
before (c ∷ s) (d ∷ t) = if ltb c d then true else if c == d then before s t else false

-- a new key of the map
unfoldable pub place : String → List String → List String
unfolding before
place name [] = name ∷ []
place name (n ∷ names) =
    if before (codes name) (codes n) then name ∷ n ∷ names else n ∷ place name names

-- `incoming` with its keys
unfoldable pub add_nodes : List WorkflowNode → List String → Result String (List String)
add_nodes [] names = ok names
add_nodes (node ∷ nodes) names =
    if member node.name names
    then err "node names must be unique within the Workflow"
    else add_nodes nodes (place node.name names)

abbrev pub update : {A : Type 0} → (String → A) → String → A → String → A
update f key value k = if str_eq k key then value else f k

-- `incoming`, `outgoing` and `pairs`
pub record Links : Type 0 where
  pub incoming : String → ℕ
  pub outgoing : String → List String
  pub pairs : List (String × String)

abbrev pub has_pair : String → String → List (String × String) → Bool
has_pair from to pairs = any (λ (p : String × String). str_eq p.0 from && str_eq p.1 to) pairs

-- whether the ends of an edge are distinct existing nodes
abbrev pub is_proper : List String → WorkflowEdge → Bool
is_proper names e = not (str_eq e.from e.to || not (member e.from names) || not (member e.to names))

-- the edge is entered
abbrev pub link : WorkflowEdge → Links → Links
link e l = record {
  incoming = update l.incoming e.to (l.incoming e.to + 1);
  outgoing = update l.outgoing e.from (l.outgoing e.from ++ e.to ∷ []);
  pairs = (e.from, e.to) ∷ l.pairs;
}

-- the `for edge`
unfoldable pub add_edges : List String → List WorkflowEdge → Links → Result String Links
add_edges names [] l = ok l
add_edges names (e ∷ edges) l =
    let rest = add_edges names edges (link e l) in
    if is_proper names e
    then if has_pair e.from e.to l.pairs
      then err "duplicate dependency endpoints are not allowed"
      else rest
    else err "edges must reference distinct existing nodes in this Workflow"

-- the counts and the queue of the search
pub record Search : Type 0 where
  pub count : String → ℕ
  pub ready : List String

-- `if let Some(count) = incoming.get_mut(downstream)`
abbrev pub lower : List String → String → Search → Search
lower names d s =
    if member d names
    then record {
      count = update s.count d (s.count d - 1);
      ready = if s.count d - 1 == 0 then s.ready ++ d ∷ [] else s.ready;
    }
    else s

-- the `for downstream`
unfoldable pub relax : List String → List String → Search → Search
relax names [] s = s
relax names (d ∷ downstream) s = relax names downstream (lower names d s)

-- the `while let`, `none` where the fuel runs out; `visited` counts its rounds
unfoldable pub visit :
    List String → (String → List String) → ℕ → ℕ → (String → ℕ) → List String → Option ℕ
visit names outgoing zero visited count ready = none
visit names outgoing (suc fuel) visited count [] = some visited
visit names outgoing (suc fuel) visited count (node ∷ ready) =
    let s = relax names (outgoing node) (record { count = count; ready = ready }) in
    visit names outgoing fuel (visited + 1) s.count s.ready

-- the nodes with no incoming edge
unfoldable pub roots : (String → ℕ) → List String → List String
roots count [] = []
roots count (name ∷ names) =
    let rest = roots count names in if count name == 0 then name ∷ rest else rest

abbrev pub no_links : Links
no_links = record { incoming = λ name. 0; outgoing = λ name. []; pairs = [] }

-- The comparison behind the search; the fuel is one more than the nodes (`visit_ends` in `Verdict`).
unfoldable pub verdict : ℕ → Option ℕ → Result String (Unit {0})
verdict expected none = err "the search did not end"
verdict expected (some visited) =
    if visited == expected then ok tt else err "Workflow dependencies must not contain cycles"

unfoldable pub search_graph : ℕ → List String → Links → Result String (Unit {0})
unfolding verdict
search_graph expected names l =
    verdict expected (visit names l.outgoing (suc expected) 0 l.incoming (roots l.incoming names))

abbrev pub is_sized : WorkflowDefinition → Bool
is_sized d = not (length d.nodes == 0 || ltb 64 (length d.nodes) || ltb 256 (length d.edges))

-- NUL-free, and at most 500 characters
abbrev pub is_described : Option Text → Bool
is_described none = true
is_described (some text) = not (any (λ c. c == 0) text || ltb 500 (length text))

unfoldable pub validate : WorkflowDefinition → Result String (Unit {0})
unfolding search_graph add_edges add_nodes
validate d =
    if is_sized d
    then if is_described d.description
      then (add_nodes d.nodes [] >>= λ names.
          add_edges names d.edges no_links >>= λ l. search_graph (length d.nodes) names l)
      else err "description must be NUL-free and at most 500 characters"
    else err "a Workflow requires 1–64 nodes and at most 256 edges"
