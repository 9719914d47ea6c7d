-- ===== src/Transports/Sms.antt =====
-- backend/src/auth/providers/sms.provider.ts.
use help_mi.Common.{
  String, Bool, not, ◌||◌, ◌==◌, concat, or_default, truthy, to_lower_case, if◌then◌else◌,
}
use help_mi.Config.{Env}

-- `otpMessage`
abbrev pub otp_message : String → String
otp_message code =
    concat "Your HelpMi verification code is "
      (concat code ". It expires in 5 minutes. Do not share it with anyone.")

-- One `fetch`: the endpoint, the header, and the fields of the body.
pub record SmsRequest : Type 0 where
  pub url : String
  pub authorization : String
  pub recipient : String
  pub message : String
  pub sender : String

-- How `sendOtp` ends: by a line in the log, by a request that the gateway takes, or by an exception,
-- which is thrown before or after the request.
pub data SmsOutcome : Type 0 where
  logged : (line : String) → SmsOutcome
  delivered : (request : SmsRequest) → SmsOutcome
  rejected : (request : SmsRequest) → SmsOutcome
  not_configured : SmsOutcome

pub data SmsProvider : Type 0 where
  console_sms dialog twilio : SmsProvider

abbrev pub kind_of : Env → String → String
kind_of env key = to_lower_case (or_default (env key) "console")

-- `smsProviderFactory`
unfoldable pub sms_provider : Env → SmsProvider
sms_provider env =
    let kind = kind_of env "SMS_PROVIDER" in
    if kind == "dialog"
    then SmsProvider.dialog
    else if kind == "twilio"
    then SmsProvider.twilio
    else SmsProvider.console_sms

-- `ConsoleSmsProvider.sendOtp`
abbrev pub console_line : String → String → String
console_line phone code = concat "[SMS→" (concat phone (concat "] " (otp_message code)))

abbrev pub dialog_request : Env → String → String → SmsRequest
dialog_request env phone code = record {
  url = or_default (env "SMS_GATEWAY_URL") "";
  authorization = concat "Bearer " (or_default (env "SMS_GATEWAY_API_KEY") "");
  recipient = phone;
  message = otp_message code;
  sender = or_default (env "SMS_SENDER_ID") "HelpMi";
}

module _ (base64 : String → String) (fetch_ok : SmsRequest → Bool) where
  abbrev fetched : SmsRequest → SmsOutcome
  fetched request = if fetch_ok request then delivered request else rejected request

  -- `DialogSmsProvider.sendOtp`
  unfoldable pub dialog_send : Env → String → String → SmsOutcome
  dialog_send env phone code =
      if not (truthy (env "SMS_GATEWAY_URL")) || not (truthy (env "SMS_GATEWAY_API_KEY"))
      then not_configured
      else fetched (dialog_request env phone code)

  abbrev pub twilio_request : Env → String → String → SmsRequest
  twilio_request env phone code =
      let sid = or_default (env "TWILIO_ACCOUNT_SID") "" in
      let token = or_default (env "TWILIO_AUTH_TOKEN") "" in
      record {
        url = concat "https://api.twilio.com/2010-04-01/Accounts/" (concat sid "/Messages.json");
        authorization = concat "Basic " (base64 (concat sid (concat ":" token)));
        recipient = phone;
        message = otp_message code;
        sender = or_default (env "TWILIO_FROM_NUMBER") "";
      }

  -- `TwilioSmsProvider.sendOtp`
  unfoldable pub twilio_send : Env → String → String → SmsOutcome
  twilio_send env phone code =
      if not (truthy (env "TWILIO_ACCOUNT_SID"))
        || not (truthy (env "TWILIO_AUTH_TOKEN"))
        || not (truthy (env "TWILIO_FROM_NUMBER"))
      then not_configured
      else fetched (twilio_request env phone code)

  abbrev pub send_by : SmsProvider → Env → String → String → SmsOutcome
  send_by SmsProvider.console_sms env phone code = logged (console_line phone code)
  send_by SmsProvider.dialog env phone code = dialog_send env phone code
  send_by SmsProvider.twilio env phone code = twilio_send env phone code

  -- `sendOtp` of the provider that the factory picks.
  unfoldable pub send_sms : Env → String → String → SmsOutcome
  send_sms env phone code = send_by (sms_provider env) env phone code
