-- ===== src/Authorization/Admission.antt =====
-- Which entries `GrantSet::new` admits, and what an admitted set cannot hold.
use crono.Prelude.{
  ℕ, ◌+◌, ◌≤◌, ◌≡◌, refl, ◌↔◌, inl, inr, true, false, List, [], ◌∷◌, All, length, leb, arith,
  Bool-cases, ok, >>=-ok,
}
use crono.Authorization.Capabilities.{Capability, permission_scope}
use crono.Authorization.Grants.{
  GrantScope, Assignments, insert, GrantSet, Entry, compatible, max_grant_entries, add_permissions,
  add_entries, new_grants,
}

-- every permission fits the scope of its entry
abbrev pub Fits : Entry → Type 0
Fits entry = All (λ c. compatible entry.0 (permission_scope c) ≡ true) entry.1

permissions-fit :
    (s : GrantScope) (cs : List Capability) (known m : Assignments)
    → add_permissions s cs known ≡ ok m
    → Fits (s, cs)
unfolding add_permissions
permissions-fit s [] known m h = tt
permissions-fit s (c ∷ cs) known m h = elim (Bool-cases (compatible s (permission_scope c))) [
  | inl fits ↦ (fits, permissions-fit s cs (insert s c known) m (rw fits at h))
  | inr misfit ↦ absurd (cc (rw misfit at h))
]

fit-permissions :
    (s : GrantScope) (cs : List Capability) (known : Assignments)
    → Fits (s, cs)
    → (m : Assignments) × (add_permissions s cs known ≡ ok m)
unfolding add_permissions
fit-permissions s [] known fits = (known, refl)
fit-permissions s (c ∷ cs) known fits = rw fits.0 (fit-permissions s cs (insert s c known) fits.1)

entries-fit :
    (index : ℕ) (es : List Entry) (known m : Assignments)
    → add_entries index es known ≡ ok m
    → index ≤ max_grant_entries
    → (index + length es ≤ max_grant_entries) × All Fits es
unfolding add_entries
entries-fit index [] known m h low = (omega arith, tt)
entries-fit index ((s, cs) ∷ es) known m h low = elim (Bool-cases (leb max_grant_entries index)) [
  | inl full ↦ absurd (cc (rw full at h))
  | inr room ↦
      let (next, first, rest) =
        >>=-ok (add_permissions s cs known) (add_entries (index + 1) es) (rw room at h) in
      let (few, fits) = entries-fit (index + 1) es next m rest (ground arith) in
      (omega arith, (permissions-fit s cs known next first, fits))
]

fit-entries :
    (index : ℕ) (es : List Entry) (known : Assignments)
    → index + length es ≤ max_grant_entries
    → All Fits es
    → (m : Assignments) × (add_entries index es known ≡ ok m)
unfolding add_entries
fit-entries index [] known few fits = (known, refl)
fit-entries index ((s, cs) ∷ es) known few fits =
    let (next, first) = fit-permissions s cs known fits.0 in
    let (m, rest) = fit-entries (index + 1) es next (omega arith) fits.1 in
    let room : leb max_grant_entries index ≡ false = ground arith in (m, rw (room, first) rest)

-- A grant set is built exactly from at most 256 entries in which every permission is assigned at a
-- scope that it accepts: a global one globally, a Namespace one to a Namespace or to all.
pub new_grants_iff :
    (entries : List Entry)
    → ((g : GrantSet) × (new_grants entries ≡ ok g))
      ↔ ((length entries ≤ max_grant_entries) × All Fits entries)
unfolding new_grants
new_grants_iff entries = (
  λ h.
      let (m, added, made) = >>=-ok (add_entries 0 entries []) _ h.1 in
      let (few, fits) = entries-fit 0 entries [] m added (omega arith) in (omega arith, fits),
  λ h.
      let (m, added) = fit-entries 0 entries [] (omega arith) h.1 in
      (record { assignments = m }, rw added refl),
)
