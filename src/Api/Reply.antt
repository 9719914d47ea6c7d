-- ===== src/Api/Reply.antt =====
-- `AllExceptionsFilter`: what the caller is told of an exception.
use help_mi.Common.{ℕ, String}
use help_mi.World.{World}
use help_mi.Handler.{
  Error, not_found, bad_request, forbidden, unauthorized, conflict, internal, Result, ok, err,
}

-- `getStatus()` of Nest's exceptions, and 500 for all others.
abbrev pub status_of : Error → ℕ
status_of (not_found message) = 404
status_of (bad_request message) = 400
status_of (forbidden message) = 403
status_of (unauthorized message) = 401
status_of (conflict message) = 409
status_of (internal message) = 500
status_of _ = 500

-- The message of a Nest exception, and a fixed text for all others.
abbrev pub message_of : Error → String
message_of (not_found message) = message
message_of (bad_request message) = message
message_of (forbidden message) = message
message_of (unauthorized message) = message
message_of (conflict message) = message
message_of (internal message) = message
message_of _ = "Internal server error"

pub record ErrorBody : Type 0 where
  pub status_code : ℕ
  pub error : String
  pub message : String
  pub path : String
  pub timestamp : ℕ

pub data Reply : Type 0 where
  answered : Reply
  failed : (body : ErrorBody) → Reply

-- `catch`, with the names that Nest has for the statuses.
abbrev pub error_body : (ℕ → String) → String → Error → ℕ → ErrorBody
error_body status_name path e now = record {
  status_code = status_of e;
  error = status_name (status_of e);
  message = message_of e;
  path = path;
  timestamp = now;
}

-- The reply to a request, by how its handler ended.
abbrev pub reply : (ℕ → String) → String → Result (Unit {0}) × World → Reply
reply status_name path (ok a, w) = answered
reply status_name path (err e, w) = failed (error_body status_name path e w.clock)
