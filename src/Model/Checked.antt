-- ===== src/Model/Checked.antt =====
-- The result of a `Validate` method: the object after its changes, and the error.
use adaptive_api_routing_gat.Base.{Option, Error, validation_error, codes}
use Prim.Native.String.{String}

abbrev pub Checked : Type 0 → Type 0
Checked A = A × Option Error

-- `NewValidationError(field, message)`
abbrev pub invalid : String → String → Error
invalid field message = validation_error (codes field) (codes message)
