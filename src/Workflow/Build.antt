-- ===== src/Workflow/Build.antt =====
-- What the loops over nodes and edges build.
use Prim.Native.String.{String}
use text.Mathlib.Text.{◌==◌ as str_eq}
use text.Mathlib.TextEquality.{eq_iff}
use text.Mathlib.TextPositions.{eq_refl}
use crono.Prelude.{
  suc, ◌+◌, ◌≤◌, ◌≡◌, refl, inl, inr, false, List, [], ◌∷◌, length, arith, Bool-cases, ok, ok-inj,
}
use crono.Workflow.Graph.{WorkflowNode, member, place, add_nodes}
use crono.Workflow.Counting.{occ, one_if, member-occ}

occ-place :
    (v name : String) (names : List String)
    → occ v (place name names) ≡ one_if (str_eq name v) + occ v names
unfolding occ place
occ-place v name [] = refl
occ-place v name (n ∷ names) = ground (arith, occ-place v name names)

length-place :
    (name : String) (names : List String) → length (place name names) ≡ suc (length names)
unfolding place
length-place name [] = refl
length-place name (n ∷ names) = ground (arith, length-place name names)

-- the names of the nodes
abbrev pub node_names : List WorkflowNode → List String
node_names [] = []
node_names (node ∷ nodes) = node.name ∷ node_names nodes

pub record IsKeys (names : List String) (nodes : List WorkflowNode) (known : List String)
    : Type 0 where
  pub occurs : (v : String) → occ v names ≡ occ v (node_names nodes) + occ v known
  pub long : length names ≡ length nodes + length known

pub add_nodes-IsKeys :
    (nodes : List WorkflowNode) (known names : List String)
    → add_nodes nodes known ≡ ok names
    → IsKeys names nodes known
unfolding add_nodes occ
add_nodes-IsKeys [] known names h =
    let same = ok-inj h in rw (← same) (record { occurs = λ v. omega arith; long = omega arith })
add_nodes-IsKeys (node ∷ nodes) known names h = elim (Bool-cases (member node.name known)) [
  | inl twice ↦ absurd (cc (rw twice at h))
  | inr new ↦
      let ih = add_nodes-IsKeys nodes (place node.name known) names (rw new at h) in
      record {
        occurs = λ v. omega (arith, ih.occurs v, occ-place v node.name known);
        long = omega (arith, ih.long, length-place node.name known);
      }
]

-- no name twice
abbrev pub IsUnique : List String → Type 0
IsUnique names = (v : String) → occ v names ≤ 1

pub add_nodes-IsUnique :
    (nodes : List WorkflowNode) (known names : List String)
    → IsUnique known
    → add_nodes nodes known ≡ ok names
    → IsUnique names
unfolding add_nodes
add_nodes-IsUnique [] known names unique h = rw (← ok-inj h) unique
add_nodes-IsUnique (node ∷ nodes) known names unique h =
    elim (Bool-cases (member node.name known)) [
      | inl twice ↦ absurd (cc (rw twice at h))
      | inr new ↦
          add_nodes-IsUnique nodes (place node.name known) names
            (λ v. ground (
              arith,
              unique v,
              occ-place v node.name known,
              member-occ node.name known,
              eq_iff node.name v,
            ))
            (rw new at h)
    ]

-- unique names are accepted
pub add_nodes-total :
    (nodes : List WorkflowNode) (known : List String)
    → ((v : String) → occ v (node_names nodes) + occ v known ≤ 1)
    → (names : List String) × (add_nodes nodes known ≡ ok names)
unfolding add_nodes occ
add_nodes-total [] known unique = (known, refl)
add_nodes-total (node ∷ nodes) known unique =
    let (names, h) =
      add_nodes-total nodes (place node.name known)
        (λ v. omega (arith, unique v, occ-place v node.name known)) in
    let new : member node.name known ≡ false =
      ground (arith, member-occ node.name known, unique node.name, eq_refl node.name) in
    (names, rw new h)
