-- ===== src/Common/Audit.antt =====
-- control-plane/lib/control.ts, `audit`: one row of audit_events for each change. The row's payload
-- is kept as a JSON object.
use Prim.Native.String.{String}
use mathlib.Core.Option.{Option}
use mathlib.Core.List.{List, [], ◌∷◌, ◌++◌}
use papi.Common.Json.{Fields}

pub record AuditEvent : Type 0 where
  pub action : String
  pub resource_type : String
  pub resource_id : Option String
  pub payload : Fields

unfoldable pub audit : List AuditEvent → String → String → Option String → Fields → List AuditEvent
audit events action kind id payload =
    events
    ++ record { action = action; resource_type = kind; resource_id = id; payload = payload } ∷ []
