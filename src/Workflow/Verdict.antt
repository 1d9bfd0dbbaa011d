-- ===== src/Workflow/Verdict.antt =====
-- What a definition must be to pass `WorkflowDefinition::validate`.
use Prim.Native.String.{String}
use crono.Prelude.{
  ℕ, suc, ◌≤◌, ◌<◌, ◌≡◌, ◌↔◌, refl, ◌∙◌, inl, inr, true, List, [], ◌∷◌, length, ◌==◌, arith,
  Bool-cases, All-at, Memᴰ, ok, >>=-ok, some,
}
use crono.Workflow.Graph.{
  WorkflowNode, WorkflowEdge, WorkflowDefinition, member, add_nodes, add_edges, Links, no_links,
  visit, roots, verdict, search_graph, is_sized, is_described, validate,
}
use crono.Workflow.Counting.{occ, member-occ}
use crono.Workflow.Build.{
  node_names, IsKeys, add_nodes-IsKeys, IsUnique, add_nodes-IsUnique, add_nodes-total,
}
use crono.Workflow.Edges.{IsProper, IsNew, IsSimple, IsLinked, add_edges-IsLinked, add_edges-total}
use crono.Workflow.Kahn.{Inv-bound, Ended, visit-Ended}
use crono.Workflow.Order.{rank, IsRanked, roots-Inv, all_visited, rank-IsRanked}

-- The nodes bear distinct names, the edges join two distinct nodes, no pair twice, and can be
-- ranked: there is an order of the nodes in which each edge goes forward.
pub record IsValid (d : WorkflowDefinition) : Type 0 where
  pub some_nodes : 1 ≤ length d.nodes
  pub few_nodes : length d.nodes ≤ 64
  pub few_edges : length d.edges ≤ 256
  pub described : is_described d.description ≡ true
  pub unique : IsUnique (node_names d.nodes)
  pub proper : IsProper (node_names d.nodes) d.edges
  pub simple : IsSimple d.edges
  pub place : String → ℕ
  pub ranked : IsRanked place d.edges

all_new : (edges : List WorkflowEdge) → IsNew no_links edges
all_new [] = tt
all_new (e ∷ edges) = (refl, all_new edges)

same_members :
    (nodes : List WorkflowNode) (names : List String) (v : String)
    → IsKeys names nodes []
    → member v names ≡ member v (node_names nodes)
unfolding occ
same_members nodes names v keys =
    ground (arith, keys.occurs v, member-occ v names, member-occ v (node_names nodes))

same-IsProper :
    (nodes : List WorkflowNode) (names : List String) (edges : List WorkflowEdge)
    → IsKeys names nodes []
    → IsProper names edges ≡ IsProper (node_names nodes) edges
same-IsProper nodes names [] keys = refl
same-IsProper nodes names (e ∷ edges) keys =
    rw
      (
        same_members nodes names e.from keys,
        same_members nodes names e.to keys,
        same-IsProper nodes names edges keys,
      )
      refl

-- the search over the graph that the loops have built
searched :
    (nodes : List WorkflowNode) (edges : List WorkflowEdge) (names : List String) (l : Links)
    → add_nodes nodes [] ≡ ok names
    → (linked : IsLinked names edges no_links l)
    → Ended names edges linked.proper
        (visit names l.outgoing (suc (length nodes)) 0 l.incoming (roots l.incoming names))
unfolding occ
searched nodes edges names l h linked =
    let keys = add_nodes-IsKeys nodes [] names h in
    let unique = add_nodes-IsUnique nodes [] names (λ v. omega arith) h in
    let start = roots-Inv names edges l.incoming unique (λ v. linked.incoming v ∙ omega arith) in
    visit-Ended names edges linked.proper l.outgoing (suc (length nodes)) []
      (roots l.incoming names) l.incoming linked.outgoing (omega (arith, keys.long)) start

-- the verdict on a search that has ended
search_graph-ok :
    (nodes : List WorkflowNode) (edges : List WorkflowEdge) (names : List String) (l : Links)
    → (h : add_nodes nodes [] ≡ ok names) → (linked : IsLinked names edges no_links l)
    → search_graph (length nodes) names l ≡ ok tt
      ↔ (length (searched nodes edges names l h linked).done ≡ length nodes)
unfolding search_graph verdict
search_graph-ok nodes edges names l h linked =
    let ended = searched nodes edges names l h linked in
    rw ended.returned (elim (Bool-cases (length ended.done == length nodes)) [
      | inl full ↦ rw full ((λ good. ground arith), (λ good. refl))
      | inr partial ↦ rw partial ((λ good. cc), (λ good. absurd (ground arith)))
    ])

-- a graph that passes the three loops is valid
passed :
    (d : WorkflowDefinition) (names : List String) (l : Links)
    → is_sized d ≡ true
    → is_described d.description ≡ true
    → add_nodes d.nodes [] ≡ ok names
    → add_edges names d.edges no_links ≡ ok l
    → search_graph (length d.nodes) names l ≡ ok tt
    → IsValid d
unfolding occ
passed d names l sized told h linked good =
    let keys = add_nodes-IsKeys d.nodes [] names h in
    let unique = add_nodes-IsUnique d.nodes [] names (λ v. omega arith) h in
    let links = add_edges-IsLinked names d.edges no_links l linked in
    let ended = searched d.nodes d.edges names l h links in
    let full = (search_graph-ok d.nodes d.edges names l h links).0 good in
    record {
      some_nodes = ground arith;
      few_nodes = ground arith;
      few_edges = ground arith;
      described = told;
      unique = λ v. omega (arith, unique v, keys.occurs v);
      proper = rw (← same-IsProper d.nodes names d.edges keys) links.proper;
      simple = links.simple;
      place = rank ended.done;
      ranked =
          rank-IsRanked names d.edges ended.done ended.count ended.inv links.proper
            (omega (arith, full, keys.long));
    }

-- and a valid graph passes them
record Passed (d : WorkflowDefinition) : Type 0 where
  names : List String
  l : Links
  placed : add_nodes d.nodes [] ≡ ok names
  linked : add_edges names d.edges no_links ≡ ok l
  searched_all : search_graph (length d.nodes) names l ≡ ok tt

passes : (d : WorkflowDefinition) → IsValid d → Passed d
unfolding occ
passes d v =
    let (names, placed) = add_nodes-total d.nodes [] (λ u. omega (arith, v.unique u)) in
    let keys = add_nodes-IsKeys d.nodes [] names placed in
    let unique = add_nodes-IsUnique d.nodes [] names (λ u. omega arith) placed in
    let proper : IsProper names d.edges = rw (same-IsProper d.nodes names d.edges keys) v.proper in
    let (l, linked) = add_edges-total names d.edges no_links proper (all_new d.edges) v.simple in
    let links = add_edges-IsLinked names d.edges no_links l linked in
    let ended = searched d.nodes d.edges names l placed links in
    let all =
      all_visited names d.edges ended.done ended.count ended.inv links.proper v.place unique
        v.ranked in
    record {
      names = names;
      l = l;
      placed = placed;
      linked = linked;
      searched_all =
          (search_graph-ok d.nodes d.edges names l placed links).1 (omega (arith, all, keys.long));
    }

-- A definition is accepted just if it is valid: the loops reject what is not, and the search
-- rejects the graphs that cannot be ranked.
pub validate_iff : (d : WorkflowDefinition) → validate d ≡ ok tt ↔ IsValid d
unfolding validate
validate_iff d = (
  λ good. elim (Bool-cases (is_sized d)) [
    | inr unsized ↦ absurd (cc (rw unsized at good))
    | inl sized ↦ elim (Bool-cases (is_described d.description)) [
      | inr untold ↦ absurd (cc (rw (sized, untold) at good))
      | inl told ↦
          let (names, placed, more) = >>=-ok _ _ (rw (sized, told) at good) in
          let (l, linked, last) = >>=-ok _ _ more in passed d names l sized told placed linked last
    ]
  ],
  λ v.
      let p = passes d v in
      let sized : is_sized d ≡ true = ground (arith, v.some_nodes, v.few_nodes, v.few_edges) in
      rw (sized, v.described, p.placed, p.linked) p.searched_all,
)

-- Over a graph that the two loops have built, the search ends within its fuel, and visits no more
-- nodes than there are.
pub visit_ends :
    (d : WorkflowDefinition) (names : List String) (l : Links)
    → add_nodes d.nodes [] ≡ ok names
    → add_edges names d.edges no_links ≡ ok l
    → (n : ℕ) × (visit names l.outgoing (suc (length d.nodes)) 0 l.incoming (roots l.incoming names)
        ≡ some n)
      × (n ≤ length d.nodes)
visit_ends d names l placed linked =
    let links = add_edges-IsLinked names d.edges no_links l linked in
    let ended = searched d.nodes d.edges names l placed links in
    let keys = add_nodes-IsKeys d.nodes [] names placed in
    let bound = Inv-bound names d.edges links.proper ended.done [] ended.count ended.inv in
    (length ended.done, ended.returned, omega (arith, bound, keys.long))

-- one edge after another
pub data Walk (edges : List WorkflowEdge) : String → String → Type 0 where
  one : (e : WorkflowEdge) → Memᴰ e edges → Walk edges e.from e.to
  more : (e : WorkflowEdge) {v : String} → Memᴰ e edges → Walk edges e.to v → Walk edges e.from v

forward :
    (edges : List WorkflowEdge) (place : String → ℕ) (u v : String)
    → IsRanked place edges
    → Walk edges u v
    → place u < place v
forward edges place u v ranked (one e m) = All-at _ e edges ranked m
forward edges place u v ranked (more e m rest) =
    let first : place e.from < place e.to =
      All-at (λ e. place e.from < place e.to) e edges ranked m in
    omega (arith, forward edges place e.to v ranked rest)

-- In an accepted definition no walk along the edges comes back to where it began.
pub validate-acyclic :
    (d : WorkflowDefinition) (u : String) → validate d ≡ ok tt → ¬ Walk d.edges u u
validate-acyclic d u good walk =
    let v = (validate_iff d).0 good in omega (arith, forward d.edges v.place u u v.ranked walk)
