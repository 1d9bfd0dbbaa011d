-- ===== src/Tests/Application.antt =====
-- A caller that may update Queues, and requests of that caller.
use crono.Prelude.{
  ℕ, true, false, ◌≡◌, refl, Option, none, some, List, [], ◌∷◌, codes, trim, is_whitespace,
  same_text, ok, err,
}
use crono.Domain.Json.{Value, Members}
use crono.Domain.Name.{parse, validate_resource_name}
use crono.Domain.Entities.{Queue}
use crono.Dispatch.Tables.{StoreError}
use crono.Authorization.Capabilities.{Capability, accepts_resource}
use crono.Authorization.Grants.{
  GrantScope, GrantSet, Entry, new_grants, insert, contains, get, allows_global,
}
use crono.Authorization.Policy.{AuthorizationError, Resolver, authorize, authorize_scoped}
use crono.Execution.Inputs.{valid_segment}
use crono.Execution.Template.{parse_template}
use crono.Execution.Template.Pieces.{Piece, print_all, render_pieces}
use crono.Execution.Template.Rendering.{parse_template-render_pieces}
use crono.Application.Program.{ApplicationError, Call}
use crono.Application.Checks.{parsed_name, validate_queue_description, ensure_queue_name_available}
use crono.Application.Catalog.{update_queue, delete_queue}
use crono.Application.Policy.{History}
use crono.Application.Trace.{Backend, run, Each, Lawful, Ends}
use crono.Application.Request.{Request, serve}
use crono.Application.Served.{serve-Lawful, serve-Ends}
use crono.Application.Authorized.{Store, grant_backend, Entitled, serve-Entitled}
use crono.Tests.Scheduler.{hourly}

abbrev entries : List Entry
entries = (GrantScope.global, Capability.queue_update ∷ []) ∷ []

abbrev caller : GrantSet
caller = record { assignments = (GrantScope.global, Capability.queue_update ∷ []) ∷ [] }

caller_built : new_grants entries ≡ ok caller
unfolding new_grants insert
caller_built = refl

abbrev nowhere : Resolver
nowhere resource = ok none

abbrev fast : Queue
fast = record {
  id = 3;
  name = codes "fast";
  description = none;
  enabled = true;
  system = false;
  created_at = 0;
  updated_at = 0;
}

-- a store with one Queue
abbrev one_queue : Store
one_queue h (Call.get_queue id) = ok fast
one_queue h (Call.update_queue id name description enabled) =
    ok (record fast { name = name; enabled = enabled })
one_queue h call = err StoreError.not_found

abbrev noon : History → ℕ
noon h = 12

abbrev tiny : Value → Option ℕ
tiny value = some 2

abbrev backend : Backend
backend = grant_backend caller nowhere one_queue noon

abbrev renaming : Request
renaming =
    Request.update_queue 3 (record { name = codes " slow "; description = none; enabled = true })

abbrev deletion : Request
deletion = Request.delete_queue 3

renamed :
    (run backend [] (serve hourly tiny renaming)).1
    ≡ ok (record fast { name = codes "slow"; enabled = true })
unfolding run serve update_queue parsed_name parse validate_resource_name trim is_whitespace
    validate_queue_description ensure_queue_name_available same_text accepts_resource authorize
    authorize_scoped allows_global contains get
renamed = refl

-- the refusal of a request that the caller holds no permission for
refused :
    (run backend [] (serve hourly tiny deletion)).1
    ≡ err (ApplicationError.authorization AuthorizationError.forbidden)
unfolding run serve delete_queue authorize authorize_scoped accepts_resource allows_global contains
    get
refused = refl

serve-Lawful_example : Lawful (run backend [] (serve hourly tiny renaming)).0
serve-Lawful_example = serve-Lawful backend hourly tiny renaming

serve-Ends_example :
    Ends
      (run backend [] (serve hourly tiny deletion)).0
      (run backend [] (serve hourly tiny deletion)).1
serve-Ends_example = serve-Ends backend hourly tiny deletion

serve-Entitled_example :
    Each (Entitled caller nowhere) (run backend [] (serve hourly tiny renaming)).0
serve-Entitled_example =
    serve-Entitled caller nowhere entries caller_built one_queue noon hourly tiny renaming

-- `--user={{user.name}} \{{`
abbrev pieces : List Piece
pieces =
    Piece.literal (codes "--user=")
    ∷ Piece.variable (codes "user") (codes "name" ∷ [])
    ∷ Piece.literal (codes " ")
    ∷ Piece.braces
    ∷ []

abbrev inputs : Value
inputs = Value.object (
    Members.member (codes "user")
      (Value.object (Members.member (codes "name") (Value.string (codes "ada")) Members.end))
      Members.end)

rendered : parse_template (print_all pieces) (some inputs) ≡ ok (codes "--user=ada {{")
unfolding parse_template trim is_whitespace same_text
rendered = refl

parse_template-render_pieces_example :
    parse_template (print_all pieces) (some inputs) ≡ render_pieces pieces inputs
unfolding valid_segment
parse_template-render_pieces_example =
    parse_template-render_pieces pieces inputs
      ((refl, refl), ((refl, (refl, tt)), ((refl, refl), (tt, tt))))
