-- ===== src/Authorization/Normal.antt =====
-- What normalizing grants means: `GrantSet::new` keeps each permission at its own scope, whatever
-- the order and the repetitions of the entries.
use crono.Prelude.{
  ℕ, ◌+◌, ◌≡◌, refl, sym, ap, ◌∙◌, ◌↔◌, inl, inr, Bool, true, false, ◌&&◌, ◌||◌, none, some, List,
  [], ◌∷◌, any, leb, ◌==◌, arith, Bool-cases, ok, >>=-ok, ok-inj,
}
use crono.Authorization.Capabilities.{Capability, number, same_capability, permission_scope}
use crono.Authorization.Grants.{
  GrantScope, same_scope, has, add, Assignments, get, insert, GrantSet, Entry, compatible,
  max_grant_entries, add_permissions, add_entries, new_grants, contains,
}

pub same_scope_iff : (a b : GrantScope) → (same_scope a b ≡ true) ↔ (a ≡ b)
same_scope_iff a b = ground arith

-- `contains` on the entries
abbrev pub holds_at : Assignments → GrantScope → Capability → Bool
holds_at assignments scope capability = elim (get scope assignments) [
  | none ↦ false
  | some set ↦ has set capability
]

has-same :
    (c d : Capability) (set : List Capability) → same_capability c d ≡ true → has set c ≡ has set d
has-same c d set h =
    let same : number c ≡ number d = ground arith in ap (λ n. any (λ x. number x == n) set) same

has-add :
    (c d : Capability) (set : List Capability)
    → has (add c set) d ≡ (same_capability c d || has set d)
has-add c d set = elim (Bool-cases (has set c)) [
  | inl old ↦
      rw (old, add)
        (elim (Bool-cases (same_capability c d)) [
          | inl same ↦ rw same (sym (has-same c d set same) ∙ old)
          | inr other ↦ rw other
        ])
  | inr new ↦ rw (new, add)
]

-- equal scopes are equal to the same scopes
same_scope-left : (u s t : GrantScope) → same_scope u s ≡ true → same_scope u t ≡ same_scope s t
same_scope-left u s t h = ap (λ x. same_scope x t) ((same_scope_iff u s).0 h)

pub same_scope-apart :
    (u s t : GrantScope) → same_scope u s ≡ false → same_scope u t ≡ true → same_scope s t ≡ false
same_scope-apart u s t apart same = elim (Bool-cases (same_scope s t)) [
  | inl both ↦
      let one : u ≡ s = (same_scope_iff u t).0 same ∙ sym ((same_scope_iff s t).0 both) in
      absurd (cc (apart, (same_scope_iff u s).1 one))
  | inr fine ↦ fine
]

-- Adding one permission at one scope adds that one.
holds_at-insert :
    (s t : GrantScope) (c d : Capability) (known : Assignments)
    → holds_at (insert s c known) t d
      ≡ ((same_scope s t && same_capability c d) || holds_at known t d)
unfolding get insert
holds_at-insert s t c d [] = ground arith
holds_at-insert s t c d ((u, set) ∷ rest) = elim (Bool-cases (same_scope u s)) [
  | inl found ↦ let same = same_scope-left u s t found in ground (arith, has-add c d set)
  | inr apart ↦ elim (Bool-cases (same_scope u t)) [
    | inl same ↦ let other = same_scope-apart u s t apart same in ground arith
    | inr other ↦ ground (arith, holds_at-insert s t c d rest)
  ]
]

-- What the entries grant, read off the entries themselves.
abbrev pub granted : List Entry → GrantScope → Capability → Bool
granted entries scope capability =
    any (λ (e : Entry). same_scope e.0 scope && has e.1 capability) entries

regroup :
    (same one more before : Bool)
    → ((same && more) || ((same && one) || before)) ≡ ((same && (one || more)) || before)
regroup same one more before = ground arith

holds_at-add_permissions :
    (s t : GrantScope) (d : Capability) (cs : List Capability) (known m : Assignments)
    → add_permissions s cs known ≡ ok m
    → holds_at m t d ≡ ((same_scope s t && has cs d) || holds_at known t d)
unfolding add_permissions
holds_at-add_permissions s t d [] known m h = rw (sym (ok-inj h)) (ground arith)
holds_at-add_permissions s t d (c ∷ cs) known m h =
    elim (Bool-cases (compatible s (permission_scope c))) [
      | inl fits ↦
          holds_at-add_permissions s t d cs (insert s c known) m (rw fits at h)
          ∙ ap (λ b. (same_scope s t && has cs d) || b) (holds_at-insert s t c d known)
          ∙ regroup (same_scope s t) (same_capability c d) (has cs d) (holds_at known t d)
      | inr misfit ↦ absurd (cc (rw misfit at h))
    ]

join : (a b before : Bool) → (b || (a || before)) ≡ ((a || b) || before)
join a b before = ground arith

holds_at-add_entries :
    (index : ℕ) (t : GrantScope) (d : Capability) (es : List Entry) (known m : Assignments)
    → add_entries index es known ≡ ok m
    → holds_at m t d ≡ (granted es t d || holds_at known t d)
unfolding add_entries
holds_at-add_entries index t d [] known m h = rw (sym (ok-inj h)) refl
holds_at-add_entries index t d ((s, cs) ∷ es) known m h =
    elim (Bool-cases (leb max_grant_entries index)) [
      | inl full ↦ absurd (cc (rw full at h))
      | inr room ↦
          let (next, first, rest) =
            >>=-ok (add_permissions s cs known) (add_entries (index + 1) es) (rw room at h) in
          holds_at-add_entries (index + 1) t d es next m rest
          ∙ ap (λ b. granted es t d || b) (holds_at-add_permissions s t d cs known next first)
          ∙ join (same_scope s t && has cs d) (granted es t d) (holds_at known t d)
    ]

contains-holds_at :
    (m : Assignments) (t : GrantScope) (d : Capability)
    → contains (record { assignments = m }) t d ≡ holds_at m t d
unfolding contains
contains-holds_at m t d = refl

nothing_held : (b : Bool) (t : GrantScope) (d : Capability) → (b || holds_at [] t d) ≡ b
unfolding get
nothing_held true t d = refl
nothing_held false t d = refl

-- A grant set that is built holds a permission at a scope exactly if one entry lists that very
-- permission at that very scope: entries combine within one scope only, and no scope lends a
-- permission to another.
pub contains-new_grants :
    (entries : List Entry) (g : GrantSet) (scope : GrantScope) (capability : Capability)
    → new_grants entries ≡ ok g
    → contains g scope capability ≡ granted entries scope capability
unfolding new_grants
contains-new_grants entries g scope capability h =
    let (m, added, made) = >>=-ok (add_entries 0 entries []) _ h in
    let built : record { assignments = m } ≡ g = ok-inj made in
    ap (λ (x : GrantSet). contains x scope capability) (sym built)
    ∙ contains-holds_at m scope capability
    ∙ holds_at-add_entries 0 scope capability entries [] m added
    ∙ nothing_held (granted entries scope capability) scope capability
