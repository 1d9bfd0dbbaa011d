-- ===== src/Authorization/Document.antt =====
-- Where authority comes from: the verified grant document, and its way through the wire.
use Prim.Native.String.{String}
use crono.Prelude.{
  ℕ, ◌≤◌, ◌≡◌, refl, sym, ap, ◌∙◌, inl, inr, true, ◌&&◌, ◌||◌, Option, none, some, List, [], ◌∷◌,
  Memᴰ, length, ltb, ◌==◌, arith, Bool-cases, ok, ok_or, >>=-ok, ok_or-ok, ok-inj,
}
use crono.Authorization.Capabilities.{Capability, same_capability, identifier, from_permission_id}
use crono.Authorization.Registry.{same_capability_iff, from_permission_id_iff}
use crono.Authorization.Grants.{
  GrantScope, same_scope, GrantError, has, GrantSet, Entry, new_grants, contains, Assignment,
  GrantDocument, Wire, read_permissions, read_assignments, read_document, from_verified_json,
  max_grant_document_bytes, max_grant_entries, get,
}
use crono.Authorization.Normal.{same_scope_iff, granted, contains-new_grants}

-- An assignment of the document that lists the permission at the scope.
abbrev pub Listed : GrantDocument → GrantScope → Capability → Type 0
Listed document scope capability =
    (a : Assignment) × Memᴰ a document.grants
    × (a.scope ≡ scope)
    × Memᴰ (identifier capability) a.permissions

read-listed :
    (texts : List String) (cs : List Capability) (c : Capability)
    → read_permissions texts ≡ ok cs
    → has cs c ≡ true
    → Memᴰ (identifier c) texts
unfolding read_permissions
read-listed [] cs c h held = absurd (cc (ok-inj h, held))
read-listed (text ∷ texts) cs c h held =
    let (d, named, next) =
      >>=-ok (ok_or (from_permission_id text) GrantError.unknown_permission) _ h in
    let (ds, read, made) = >>=-ok (read_permissions texts) _ next in
    let known : (same_capability d c || has ds c) ≡ true =
      ap (λ set. has set c) (ok-inj made) ∙ held in
    elim (Bool-cases (same_capability d c)) [
      | inl same ↦
          let its =
            (from_permission_id_iff text d).0 (ok_or-ok (from_permission_id text) _ named) in
          Memᴰ.head (sym (its ∙ ap identifier ((same_capability_iff d c).0 same)))
      | inr other ↦ Memᴰ.tail (read-listed texts ds c read (rw other at known))
    ]

entries-listed :
    (assignments : List Assignment) (es : List Entry) (scope : GrantScope) (c : Capability)
    → read_assignments assignments ≡ ok es
    → granted es scope c ≡ true
    → (a : Assignment) × Memᴰ a assignments × (a.scope ≡ scope) × Memᴰ (identifier c) a.permissions
unfolding read_assignments
entries-listed [] es scope c h held = absurd (cc (ok-inj h, held))
entries-listed (a ∷ rest) es scope c h held =
    let (cs, own, next) = >>=-ok (read_permissions a.permissions) _ h in
    let (more, read, made) = >>=-ok (read_assignments rest) _ next in
    let known : ((same_scope a.scope scope && has cs c) || granted more scope c) ≡ true =
      ap (λ list. granted list scope c) (ok-inj made) ∙ held in
    elim (Bool-cases (same_scope a.scope scope && has cs c)) [
      | inl here ↦
          let (same, holds) : (same_scope a.scope scope ≡ true) × (has cs c ≡ true) =
            ground arith in
          (
            a,
            Memᴰ.head refl,
            (same_scope_iff a.scope scope).0 same,
            read-listed a.permissions cs c own holds,
          )
      | inr elsewhere ↦
          let (b, among, at, lists) =
            entries-listed rest more scope c read (rw elsewhere at known) in
          (b, Memᴰ.tail among, at, lists)
    ]

document-Listed :
    (document : GrantDocument) (g : GrantSet) (scope : GrantScope) (c : Capability)
    → read_document document ≡ ok g
    → contains g scope c ≡ true
    → (document.version ≡ 1) × Listed document scope c
unfolding read_document
document-Listed document g scope c h held = elim (Bool-cases (document.version == 1)) [
  | inr newer ↦ absurd (cc (rw newer at h))
  | inl current ↦ elim (Bool-cases (ltb max_grant_entries (length document.grants))) [
    | inl long ↦ absurd (cc (rw (current, long) at h))
    | inr short ↦
        let (es, read, built) =
          >>=-ok (read_assignments document.grants) new_grants (rw (current, short) at h) in
        (
          ground arith,
          entries-listed document.grants es scope c read
              (sym (contains-new_grants es g scope c built) ∙ held),
        )
  ]
]

-- Authority comes from the document alone: if the grant set that is read for a caller holds a
-- permission at a scope, then there is a document of at most 65 536 bytes and of version 1, and one
-- of its assignments has that scope and lists the identifier of that permission. Where there is no
-- document there is no authority.
pub from_verified_json-Listed :
    (w : Wire) (source : Option (List ℕ)) (g : GrantSet) (scope : GrantScope)
    (capability : Capability)
    → from_verified_json w source ≡ ok g
    → contains g scope capability ≡ true
    → (bytes : List ℕ) × (document : GrantDocument) × (source ≡ some bytes)
      × (length bytes ≤ max_grant_document_bytes)
      × (w.from_slice bytes ≡ some document)
      × (document.version ≡ 1)
      × Listed document scope capability
unfolding from_verified_json contains get
from_verified_json-Listed w none g scope capability h held = absurd (cc (rw (← ok-inj h) at held))
from_verified_json-Listed w (some bytes) g scope capability h held =
    elim (Bool-cases (ltb max_grant_document_bytes (length bytes))) [
      | inl long ↦ absurd (cc (rw long at h))
      | inr short ↦
          let (document, parsed, read) =
            >>=-ok (ok_or (w.from_slice bytes) GrantError.invalid_document) read_document
              (rw short at h) in
          let (version, listed) = document-Listed document g scope capability read held in
          (
            bytes,
            document,
            refl,
            ground arith,
            ok_or-ok (w.from_slice bytes) _ parsed,
            version,
            listed,
          )
    ]
