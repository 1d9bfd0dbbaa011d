-- ===== src/Application/Guarded/Selections.antt =====
-- The checks of application/service.rs on the members of a Target Set and on what an execution
-- selects keep to the table, and leave their permissions behind.
use crono.Prelude.{ℕ, Option, none, some, ok, List, [], ◌∷◌, at0, at1, refl, Memᴰ, All, All-imp}
use crono.Domain.Json.{Value}
use crono.Domain.Schedule.{TargetSelection}
use crono.Domain.Entities.{Target}
use crono.Authorization.Capabilities.{Capability, ResourceScope, accepts_resource}
use crono.Application.Program.{checked}
use crono.Application.Policy.{Event, History, Granted, Usable, Readable}
use crono.Application.Guarded.{Guarded, >>=-Guarded}
use crono.Application.Targets.{validate_target_members, authorize_use, execution_targets}

-- What has happened stays in the history.
abbrev pub Later : History → History → Type 0
Later h later = (e : Event) → Memᴰ e h → Memᴰ e later

pub Usable-Later :
    (h later : History) (selection : TargetSelection)
    → Later h later
    → Usable h selection
    → Usable later selection
Usable-Later h later (TargetSelection.target id) l u = l _ u
Usable-Later h later (TargetSelection.target_set id) l (set, found, answered, members) =
    (l _ set, found, l _ answered, All-imp _ _ found.targets (λ member m. l _ m) members)

pub members-Guarded :
    (Q : History → Unit {0} → Type 0) (namespace_id : ℕ) (ids : List ℕ) (h : History)
    → ((later : History) → Later h later → Readable later ids → Q later tt)
    → Guarded Q h (validate_target_members namespace_id ids)
unfolding validate_target_members accepts_resource
members-Guarded Q namespace_id [] h k = λ u _. k h (λ e m. m) tt
members-Guarded Q namespace_id (id ∷ ids) h k = (
  refl,
  (
    (Capability.target_read, at0),
    λ found u _.
        members-Guarded Q namespace_id ids _
          (λ later l readable. k later (λ e m. l e (Memᴰ.tail (Memᴰ.tail m))) (l _ at1, readable)),
    λ e. tt,
  ),
  λ e. refl,
)

use-Guarded :
    (Q : History → Unit {0} → Type 0) (members : List Target) (h : History)
    → ((later : History)
        → Later h later
        → All (λ m. Granted later Capability.target_use (ResourceScope.target m.id)) members
        → Q later tt)
    → Guarded Q h (authorize_use members)
unfolding authorize_use accepts_resource
use-Guarded Q [] h k = λ u _. k h (λ e m. m) tt
use-Guarded Q (member ∷ members) h k = (
  refl,
  use-Guarded Q members _
      (λ later l granted. k later (λ e m. l e (Memᴰ.tail m)) (l _ at0, granted)),
  λ e. refl,
)

-- what `execution_targets` leaves behind
abbrev pub Selected : History → TargetSelection → History → ℕ × Option Value × List Target → Type 0
Selected h selection later result = Later h later × Usable later selection

pub execution_targets-Guarded :
    (selection : TargetSelection) (h : History)
    → Guarded (Selected h selection) h (execution_targets selection)
unfolding execution_targets accepts_resource
execution_targets-Guarded (TargetSelection.target id) h = (
  refl,
  ((Capability.target_use, at0), λ found x _. ((λ e m. Memᴰ.tail (Memᴰ.tail m)), at1), λ e. tt),
  λ e. refl,
)
execution_targets-Guarded (TargetSelection.target_set id) h = (
  refl,
  (
    (Capability.target_set_use, at0),
    λ found.
        >>=-Guarded (λ later u. Selected h (TargetSelection.target_set id) later (0, none, []))
          (Selected h (TargetSelection.target_set id)) _ (authorize_use found.targets)
          (λ u.
            checked
              (ok (found.target_set.namespace_id, some found.target_set.inputs, found.targets)))
          (use-Guarded _ found.targets _ (λ later l granted.
            ((λ e m. l e (Memᴰ.tail (Memᴰ.tail m))), (l _ at1, found, l _ at0, granted))))
          (λ later u ready x _. ready),
    λ e. tt,
  ),
  λ e. refl,
)
