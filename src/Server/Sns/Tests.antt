-- ===== src/Server/Sns/Tests.antt =====
-- Requests with a certificate of the service and with one of another host.
use review_agent.Common.{
  ◌≡◌, refl, Bool, true, false, Option, none, some, [], Text, text, text_eq, ok, arith,
}
use review_agent.Server.Sns.{
  RawSnsMessage, VerifySnsSignatureOpts, get_cached_cert, CertCache, SnsResponse, unauthorized,
  passed_on, verify_sns_signature,
}
use review_agent.Server.Sns.Cache.{IsSound, IsJustified, verify_sns_signature-IsJustified}

abbrev raw_message : Text → RawSnsMessage
raw_message url = record {
  type_of = some (text "Notification");
  message_id = some (text "id");
  topic_arn = some (text "arn:1");
  timestamp = some (text "t");
  signature = some (text "s");
  signature_version = some (text "2");
  signing_cert_url = some url;
  message = some (text "hello");
  subject = none;
  token = none;
  subscribe_url = none;
}

-- an address is its host
abbrev opts : VerifySnsSignatureOpts
opts = record {
  parse_url = λ url. some (record { protocol = text "https:"; hostname = url });
  fetch_cert = λ now url. ok (text "pem");
  verify_signature = λ v. ok (text_eq v.certificate_pem (text "pem"));
  allowed_cert_host_pattern = none;
}

abbrev service : Text
service = text "sns.eu-1.amazonaws.com"

abbrev parse : Text → Option RawSnsMessage
parse t = some (raw_message t)

abbrev answer : Text → SnsResponse × CertCache
answer url = verify_sns_signature opts parse url 5 6 []

abbrev is_passed : SnsResponse → Bool
is_passed (passed_on m) = true
is_passed _ = false

service_passes : is_passed (answer service).0 ≡ true
unfolding verify_sns_signature
service_passes = refl

other_host_fails : (answer (text "s3.amazonaws.com")).0 ≡ unauthorized
unfolding verify_sns_signature
other_host_fails = refl

expires : (get_cached_cert service 86400006 (answer service).1).0 ≡ none
unfolding get_cached_cert verify_sns_signature
expires = refl

kept : (get_cached_cert service 86400005 (answer service).1).0 ≡ some (text "pem")
unfolding get_cached_cert verify_sns_signature
kept = refl

empty_cache : IsSound opts []
empty_cache = record { origins = tt; bounded = omega arith }

verify_sns_signature-IsJustified_example :
    IsSound opts (answer service).1 × IsJustified opts parse service (answer service).0
verify_sns_signature-IsJustified_example =
    verify_sns_signature-IsJustified opts parse service 5 6 [] empty_cache
