-- ===== src/Transports/Token.antt =====
-- `getAccessToken` of backend/src/payments/providers/payhere.client.ts: the OAuth token and its
-- cache, a field of the client. `Date.now()` is an argument, and the reply of the token endpoint
-- a function of the time of the call.
use help_mi.Common.{
  ℕ, ◌+◌, ◌*◌, String, Option, none, some, Bool, true, false, not, ◌==◌, or_default, ltb, nat_eq,
  to_lower_case, if◌then◌else◌, truthy,
}
use help_mi.Config.{Env}

-- `baseUrl`
unfoldable pub api_host : Env → String
api_host env =
    if to_lower_case (or_default (env "PAYHERE_MODE") "sandbox") == "live"
    then "https://www.payhere.lk"
    else "https://sandbox.payhere.lk"

pub record CachedToken : Type 0 where
  pub value : String
  pub expires_at : ℕ

-- The reply: `res.ok`, `access_token`, `Number(expires_in)`, where none is no number, and the time
-- at which it has been read.
pub record TokenReply : Type 0 where
  pub is_ok : Bool
  pub access_token : Option String
  pub expires_in : Option ℕ
  pub received_at : ℕ

-- `this.token && Date.now() < this.token.expiresAt - 60_000`
abbrev pub is_fresh : ℕ → CachedToken → Bool
is_fresh now t = ltb (now + 60000) t.expires_at

-- `Number(data.expires_in) || 600`
abbrev pub seconds_of : Option ℕ → ℕ
seconds_of none = 600
seconds_of (some n) = if nat_eq n 0 then 600 else n

-- What the token endpoint gives: none where the client throws.
abbrev pub token_of : TokenReply → Option CachedToken
token_of r =
    if not r.is_ok
    then none
    else if not (truthy r.access_token)
    then none
    else some (record {
      value = or_default r.access_token "";
      expires_at = r.received_at + seconds_of r.expires_in * 1000;
    })

-- A call: the token, or none where it throws; the field afterwards; and whether the endpoint was
-- called.
pub record TokenCall : Type 0 where
  pub result : Option String
  pub cached : Option CachedToken
  pub fetched : Bool

abbrev pub refreshed : Option CachedToken → Option CachedToken → TokenCall
refreshed before none = record { result = none; cached = before; fetched = true }
refreshed before (some t) = record { result = some t.value; cached = some t; fetched = true }

-- `getAccessToken`
unfoldable pub get_access_token : (ℕ → TokenReply) → ℕ → Option CachedToken → TokenCall
get_access_token reply now none = refreshed none (token_of (reply now))
get_access_token reply now (some t) =
    if is_fresh now t
    then record { result = some t.value; cached = some t; fetched = false }
    else refreshed (some t) (token_of (reply now))
