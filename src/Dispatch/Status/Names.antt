-- ===== src/Dispatch/Status/Names.antt =====
-- The stored names of the states of a Run.
use Prim.Native.String.{String}
use text.Mathlib.Text.{◌==◌ as str_eq}
use text.Mathlib.TextEquality.{eq_iff}
use crono.Prelude.{
  ◌≡◌, refl, sym, ◌∙◌, ap, inl, inr, ◌↔◌, Bool-cases, if◌then◌else◌, Result, ok, ok-inj,
}
use crono.Dispatch.Status.{RunStatus, run_status_name, parse_run_status}

-- one link of the chain of comparisons
link :
    (value name : String) (found status : RunStatus) {rest : Result (Unit {0}) RunStatus}
    → run_status_name found ≡ name
    → (rest ≡ ok status → value ≡ run_status_name status)
    → (if str_eq value name then ok found else rest) ≡ ok status
    → value ≡ run_status_name status
link value name found status named next h = elim (Bool-cases (str_eq value name)) [
  | inl same ↦ (eq_iff value name).0 same ∙ sym named ∙ ap run_status_name (ok-inj (rw same at h))
  | inr other ↦ next (rw other at h)
]

back : (status : RunStatus) → parse_run_status (run_status_name status) ≡ ok status
unfolding run_status_name parse_run_status
back RunStatus.pending_dispatch = refl
back RunStatus.queued = refl
back RunStatus.running = refl
back RunStatus.retry_wait = refl
back RunStatus.succeeded = refl
back RunStatus.failed = refl
back RunStatus.dead = refl
back RunStatus.skipped = refl
back RunStatus.cancelled = refl
back RunStatus.unknown = refl

forth :
    (value : String) (status : RunStatus)
    → parse_run_status value ≡ ok status
    → value ≡ run_status_name status
unfolding run_status_name parse_run_status
forth value status = link value "pending_dispatch" RunStatus.pending_dispatch status refl (
    link value "queued" RunStatus.queued status refl (
      link value "running" RunStatus.running status refl (
        link value "retry_wait" RunStatus.retry_wait status refl (
          link value "succeeded" RunStatus.succeeded status refl (
            link value "failed" RunStatus.failed status refl (
              link value "dead" RunStatus.dead status refl (
                link value "skipped" RunStatus.skipped status refl (
                  link value "cancelled" RunStatus.cancelled status refl
                    (link value "unknown" RunStatus.unknown status refl ((λ h. cc)))))))))))

-- The parser of stored names accepts the name of a state alone, and gives that state back.
pub parse_run_status_iff :
    (value : String) (status : RunStatus)
    → (parse_run_status value ≡ ok status) ↔ (value ≡ run_status_name status)
parse_run_status_iff value status = (forth value status, λ e. ap parse_run_status e ∙ back status)
