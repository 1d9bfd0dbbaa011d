-- ===== src/Application/Authorized.antt =====
-- The use cases of application/service.rs over `GrantAuthorizer` of application/auth/policy.rs.
use crono.Prelude.{
  ℕ, Option, List, [], ◌∷◌, All, All-at, ◌≡◌, refl, sym, ap, ◌∙◌, Bool-cases, inl, inr, Result, ok,
  err, ok-inj,
}
use crono.Domain.Json.{Value}
use crono.Scheduler.Recurrence.{Calendar}
use crono.Dispatch.Tables.{StoreError}
use crono.Authorization.Capabilities.{Capability, ResourceScope}
use crono.Authorization.Grants.{GrantSet, Entry, VisibilityScope, new_grants, allows_namespace}
use crono.Authorization.Visible.{sees, sees-visibility_new, new_grants-Distinct}
use crono.Authorization.Policy.{Resolver, authorize, authorize_read}
use crono.Authorization.Decision.{Permitted, authorize_iff}
use crono.Authorization.Refusal.{reads, authorize_read-eq}
use crono.Application.Program.{Call, Answer, Program}
use crono.Application.Permissions
use crono.Application.Permissions.Map.{Allowed-map}
use crono.Application.Policy.{Event, History, Granted, Saw, Answered}
use crono.Application.Trace.{Backend, run, Each, Lawful}
use crono.Application.Request.{Request, serve}
use crono.Application.Served.{serve-Lawful}

abbrev pub Store : Type 0
Store = History → (c : Call) → Result StoreError (Answer c)

-- the visibility shows exactly the Namespaces where the caller holds the capability
abbrev pub Sees : GrantSet → Capability → VisibilityScope → Type 0
Sees g capability v = (ns : ℕ) → sees v ns ≡ allows_namespace g capability ns

module _ (g : GrantSet) (resolver : Resolver) where
  -- the authorizer of one caller, over any store
  abbrev pub grant_backend : Store → (History → ℕ) → Backend
  grant_backend store now_utc = record {
    authorize = λ h capability resource. authorize g resolver capability resource;
    visibility = λ h capability. authorize_read g capability;
    store = store;
    now_utc = now_utc;
  }

  -- The table over the authority that the caller holds.
  abbrev pub Entitled : History → Call → Type 0
  Entitled h = Permissions.Allowed (Permitted g resolver) (Sees g) (Answered h)

  Held : Event → Type 0
  Held (Event.asked capability resource result) = result ≡ authorize g resolver capability resource
  Held (Event.saw capability result) = result ≡ authorize_read g capability
  Held (Event.called c result) = Unit

  run-Held :
      {A : Type 0} (store : Store) (now_utc : History → ℕ) (p : Program A) (h : History)
      → All Held h
      → All Held (run (grant_backend store now_utc) h p).0
  unfolding run Held
  run-Held store now_utc (Program.done result) h held = held
  run-Held store now_utc (Program.check (ok x) next) h held = run-Held store now_utc (next x) h held
  run-Held store now_utc (Program.check (err failure) next) h held = held
  run-Held store now_utc (Program.ask capability resource answer) h held =
      run-Held store now_utc (answer (authorize g resolver capability resource)) _ (refl, held)
  run-Held store now_utc (Program.see capability answer) h held =
      run-Held store now_utc (answer (authorize_read g capability)) _ (refl, held)
  run-Held store now_utc (Program.call c answer) h held =
      run-Held store now_utc (answer (store h c)) _ (tt, held)
  run-Held store now_utc (Program.now_utc answer) h held =
      run-Held store now_utc (answer (now_utc h)) h held

  module _ (entries : List Entry) (built : new_grants entries ≡ ok g) where
    Permitted-of :
        (capability : Capability) (resource : ResourceScope)
        → ok tt ≡ authorize g resolver capability resource
        → Permitted g resolver capability resource
    Permitted-of capability resource h =
        ((authorize_iff g resolver capability resource (new_grants-Distinct entries g built)).0
          (sym h)).1

    Sees-of :
        (capability : Capability) (v : VisibilityScope)
        → ok v ≡ authorize_read g capability
        → Sees g capability v
    Sees-of capability v h ns =
        let settled = h ∙ authorize_read-eq capability g in
        elim (Bool-cases (reads capability)) [
          | inl readable ↦
              ap (λ shown. sees shown ns) (ok-inj (rw readable at settled))
              ∙ sees-visibility_new entries g capability ns built
          | inr unreadable ↦ absurd (cc (rw unreadable at settled))
        ]

    Lawful-Entitled : (h : History) → Lawful h → All Held h → Each Entitled h
    unfolding Held
    Lawful-Entitled [] lawful held = tt
    Lawful-Entitled (Event.called c result ∷ h) lawful held = (
      Allowed-map (Granted h) (Permitted g resolver) (Saw h) (Sees g) (Answered h) (Answered h)
          (λ capability resource m. Permitted-of capability resource (All-at Held _ h held.1 m))
          (λ capability v m. Sees-of capability v (All-at Held _ h held.1 m)) (λ call answer m. m) c
          lawful.0,
      Lawful-Entitled h lawful.1 held.1,
    )
    Lawful-Entitled (Event.asked capability resource result ∷ h) lawful held =
        Lawful-Entitled h lawful held.1
    Lawful-Entitled (Event.saw capability result ∷ h) lawful held = Lawful-Entitled h lawful held.1

    -- When `GrantAuthorizer` decides for a caller whose grants were built from entries, every call of
    -- the store that a request makes is covered by authority that the caller holds, as the table of
    -- Permissions asks for that call, and a list gets a visibility that shows exactly the Namespaces
    -- where the caller holds the capability.
    pub serve-Entitled :
        (store : Store) (now_utc : History → ℕ) (c : Calendar) (e : Value → Option ℕ) (q : Request)
        → Each Entitled (run (grant_backend store now_utc) [] (serve c e q)).0
    serve-Entitled store now_utc c e q =
        Lawful-Entitled (run (grant_backend store now_utc) [] (serve c e q)).0
          (serve-Lawful (grant_backend store now_utc) c e q)
          (run-Held store now_utc (serve c e q) [] tt)
