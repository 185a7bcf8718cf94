-- ===== src/Handler/Replies.antt =====
-- pkg/httpx/httpx.go and `writeServiceError` of internal/handler/server.go: the replies, less their
-- encoding as JSON, which `encoding/json` does.
use adaptive_api_routing_gat.Base.{
  ℕ, Text, codes, ◌++◌, is_empty, Error, err_not_found, err_conflict, validation_error,
  if◌then◌else◌,
}

-- A reply: the HTTP status, and the code and message of the body.
pub record Reply : Type 0 where
  pub status : ℕ
  pub code : ℕ
  pub message : Text

-- `Error`
abbrev pub error_reply : ℕ → ℕ → Text → Reply
error_reply status code message = record { status = status; code = code; message = message }

abbrev pub bad_request : Text → Reply
bad_request = error_reply 400 400

abbrev pub unauthorized : Text → Reply
unauthorized = error_reply 401 401

abbrev pub forbidden : Text → Reply
forbidden = error_reply 403 403

abbrev pub not_found : Text → Reply
not_found = error_reply 404 404

abbrev pub conflict : Text → Reply
conflict = error_reply 409 409

abbrev pub internal_error : Text → Reply
internal_error = error_reply 500 500

-- `Error()` of each error value.
unfoldable pub error_text : Error → Text
error_text err_not_found = codes "记录不存在"
error_text err_conflict = codes "记录已存在或状态冲突"
error_text (validation_error field message) =
    if is_empty field then message else field ++ (codes ": " ++ message)

-- Every error that the service returns is one of the three kinds.
unfoldable pub write_service_error : Error → Reply
write_service_error (validation_error field message) =
    bad_request (error_text (validation_error field message))
write_service_error err_not_found = not_found (error_text err_not_found)
write_service_error err_conflict = conflict (error_text err_conflict)
