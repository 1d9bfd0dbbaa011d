-- ===== src/Authorization/Visible.antt =====
-- The Namespaces that a read may see. The map of assignments has each scope once, which the
-- operations keep.
use crono.Prelude.{
  ℕ, ◌+◌, ◌≡◌, refl, sym, ap, ◌∙◌, inl, inr, Bool, true, false, none, List, [], ◌∷◌, any, leb, ◌==◌,
  arith, Bool-cases, ok, >>=-ok, ok-inj,
}
use crono.Authorization.Capabilities.{Capability, permission_scope}
use crono.Authorization.Grants.{
  GrantScope, same_scope, Assignments, get, insert, GrantSet, Entry, compatible, max_grant_entries,
  add_permissions, add_entries, new_grants, contains, visible_ids, visibility, VisibilityScope,
  scope_of, allows_namespace,
}
use crono.Authorization.Normal.{same_scope_iff, holds_at}

abbrev pub Distinct : Assignments → Type 0
Distinct [] = Unit
Distinct ((s, set) ∷ rest) = (get s rest ≡ none) × Distinct rest

get-insert :
    (u s : GrantScope) (c : Capability) (known : Assignments)
    → same_scope s u ≡ false
    → get u known ≡ none
    → get u (insert s c known) ≡ none
unfolding get insert
get-insert u s c [] apart h = rw apart refl
get-insert u s c ((v, set) ∷ rest) apart h =
    ground
      (arith, get-insert u s c rest, same_scope_iff v s, same_scope_iff v u, same_scope_iff s u)

insert-Distinct :
    (s : GrantScope) (c : Capability) (known : Assignments)
    → Distinct known
    → Distinct (insert s c known)
unfolding insert get
insert-Distinct s c [] h = (refl, tt)
insert-Distinct s c ((v, set) ∷ rest) h = elim (Bool-cases (same_scope v s)) [
  | inl found ↦ rw found h
  | inr apart ↦
      let other : same_scope s v ≡ false = ground (arith, same_scope_iff v s, same_scope_iff s v) in
      rw apart (get-insert v s c rest other h.0, insert-Distinct s c rest h.1)
]

add_permissions-Distinct :
    (s : GrantScope) (cs : List Capability) (known m : Assignments)
    → Distinct known
    → add_permissions s cs known ≡ ok m
    → Distinct m
unfolding add_permissions
add_permissions-Distinct s [] known m d h = rw (← ok-inj h) d
add_permissions-Distinct s (c ∷ cs) known m d h =
    elim (Bool-cases (compatible s (permission_scope c))) [
      | inl fits ↦
          add_permissions-Distinct s cs (insert s c known) m (insert-Distinct s c known d)
            (rw fits at h)
      | inr misfit ↦ absurd (cc (rw misfit at h))
    ]

add_entries-Distinct :
    (index : ℕ) (es : List Entry) (known m : Assignments)
    → Distinct known
    → add_entries index es known ≡ ok m
    → Distinct m
unfolding add_entries
add_entries-Distinct index [] known m d h = rw (← ok-inj h) d
add_entries-Distinct index ((s, cs) ∷ es) known m d h =
    elim (Bool-cases (leb max_grant_entries index)) [
      | inl full ↦ absurd (cc (rw full at h))
      | inr room ↦
          let (next, first, rest) =
            >>=-ok (add_permissions s cs known) (add_entries (index + 1) es) (rw room at h) in
          add_entries-Distinct (index + 1) es next m
            (add_permissions-Distinct s cs known next d first) rest
    ]

pub new_grants-Distinct :
    (entries : List Entry) (g : GrantSet) → new_grants entries ≡ ok g → Distinct g.assignments
unfolding new_grants
new_grants-Distinct entries g h =
    let (m, added, made) = >>=-ok (add_entries 0 entries []) _ h in
    rw (← ok-inj made) (add_entries-Distinct 0 entries [] m tt added)

unseen :
    (c : Capability) (ns : ℕ) (known : Assignments)
    → get (GrantScope.namespace ns) known ≡ none
    → any (λ id. id == ns) (visible_ids c known) ≡ false
unfolding get visible_ids
unseen c ns [] h = refl
unseen c ns ((GrantScope.global, set) ∷ rest) h = unseen c ns rest h
unseen c ns ((GrantScope.all_namespaces, set) ∷ rest) h = unseen c ns rest h
unseen c ns ((GrantScope.namespace id, set) ∷ rest) h = ground (arith, unseen c ns rest)

-- the listed Namespaces are those whose entry holds the capability
listed :
    (c : Capability) (ns : ℕ) (known : Assignments)
    → Distinct known
    → any (λ id. id == ns) (visible_ids c known) ≡ holds_at known (GrantScope.namespace ns) c
unfolding get visible_ids
listed c ns [] d = refl
listed c ns ((GrantScope.global, set) ∷ rest) d = listed c ns rest d.1
listed c ns ((GrantScope.all_namespaces, set) ∷ rest) d = listed c ns rest d.1
listed c ns ((GrantScope.namespace id, set) ∷ rest) d = elim (Bool-cases (id == ns)) [
  | inl here ↦
      let same : id ≡ ns = ground arith in
      let gone : any (λ k. k == ns) (visible_ids c rest) ≡ false =
        unseen c ns rest (ap (λ n. get (GrantScope.namespace n) rest) (sym same) ∙ d.0) in
      ground arith
  | inr elsewhere ↦ ground (arith, listed c ns rest d.1)
]

-- whether a read may see a Namespace
abbrev pub sees : VisibilityScope → ℕ → Bool
sees VisibilityScope.all ns = true
sees (VisibilityScope.namespaces ids) ns = any (λ id. id == ns) ids
sees VisibilityScope.nothing ns = false

sees-scope_of : (ids : List ℕ) (ns : ℕ) → sees (scope_of ids) ns ≡ any (λ id. id == ns) ids
sees-scope_of [] ns = refl
sees-scope_of (id ∷ ids) ns = refl

pub sees-visibility :
    (g : GrantSet) (capability : Capability) (ns : ℕ)
    → Distinct g.assignments
    → sees (visibility g capability) ns ≡ allows_namespace g capability ns
unfolding visibility allows_namespace contains
sees-visibility g capability ns d =
    elim (Bool-cases (contains g GrantScope.all_namespaces capability)) [
      | inl everywhere ↦ rw everywhere refl
      | inr some_places ↦ rw some_places (
          sees-scope_of (visible_ids capability g.assignments) ns
          ∙ listed capability ns g.assignments d)
    ]

-- For a grant set that was built from entries, the Namespaces that a read of a capability may see
-- are exactly those in which the capability is allowed: lists and single lookups agree.
pub sees-visibility_new :
    (entries : List Entry) (g : GrantSet) (capability : Capability) (ns : ℕ)
    → new_grants entries ≡ ok g
    → sees (visibility g capability) ns ≡ allows_namespace g capability ns
sees-visibility_new entries g capability ns h =
    sees-visibility g capability ns (new_grants-Distinct entries g h)
