-- ===== src/Transports/Push.antt =====
-- backend/src/notifications/providers/push.provider.ts.
use help_mi.Common.{String, Option, none, some, ◌==◌, concat, or_default, truthy, if◌then◌else◌}
use help_mi.Config.{Env}
use help_mi.Messages.{slice}
use help_mi.Transports.Sms.{kind_of}

-- `PushPayload`, less its data.
pub record PushPayload : Type 0 where
  pub title : String
  pub body : String

pub record FcmRequest : Type 0 where
  pub url : String
  pub authorization : String
  pub token : String
  pub payload : PushPayload

-- How `sendToToken` ends; it never throws.
pub data PushOutcome : Type 0 where
  push_logged : (line : String) → PushOutcome
  skipped : PushOutcome
  posted : (request : FcmRequest) → PushOutcome

pub data PushProvider : Type 0 where
  console_push fcm : PushProvider

-- `pushProviderFactory`
unfoldable pub push_provider : Env → PushProvider
push_provider env =
    if kind_of env "PUSH_PROVIDER" == "fcm" then PushProvider.fcm else PushProvider.console_push

-- `ConsolePushProvider.sendToToken`
abbrev pub console_push_line : String → PushPayload → String
console_push_line token payload =
    concat "[PUSH→"
      (concat (slice 12 token) (concat "…] " (concat payload.title (concat " — " payload.body))))

-- `getAccessToken`: the exchange is not written yet, and both branches give null.
unfoldable pub fcm_access_token : Env → Option String
fcm_access_token env = if truthy (env "FCM_SERVICE_ACCOUNT_JSON") then none else none

-- `FcmPushProvider.sendToToken`, from the access token on.
abbrev pub fcm_post : String → String → PushPayload → Option String → PushOutcome
fcm_post project_id token payload none = skipped
fcm_post project_id token payload (some access_token) =
    if access_token == ""
    then skipped
    else posted (record {
      url = concat "https://fcm.googleapis.com/v1/projects/" (concat project_id "/messages:send");
      authorization = concat "Bearer " access_token;
      token = token;
      payload = payload;
    })

-- `FcmPushProvider.sendToToken`
unfoldable pub fcm_send : Env → String → PushPayload → PushOutcome
fcm_send env token payload =
    if truthy (env "FCM_PROJECT_ID")
    then fcm_post (or_default (env "FCM_PROJECT_ID") "") token payload (fcm_access_token env)
    else skipped

abbrev pub push_by : PushProvider → Env → String → PushPayload → PushOutcome
push_by PushProvider.console_push env token payload = push_logged (console_push_line token payload)
push_by PushProvider.fcm env token payload = fcm_send env token payload

-- `sendToToken` of the provider that the factory picks.
unfoldable pub send_push : Env → String → PushPayload → PushOutcome
send_push env token payload = push_by (push_provider env) env token payload
