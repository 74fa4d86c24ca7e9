-- ===== src/Server/Sns.antt =====
-- packages/server/src/middleware/verify-sns-signature.ts: the signature of an SNS delivery, with the
-- cache of certificates. The parser of addresses, the fetch of a certificate and the check of the
-- signature are parameters; a time is a number of milliseconds. The cache is the entries of the map
-- in their order of insertion.
pub mod Cache
mod Tests
use review_agent.Common.{
  ℕ, ◌+◌, Bool, true, false, ◌&&◌, ◌||◌, not, Option, none, some, List, [], ◌∷◌, ◌++◌, map, filter,
  all, any, length, Text, text, text_eq, starts_with, Result, ok, err, leb, ◌==◌, is_empty,
  if◌then◌else◌,
}

pub data SnsMessageType : Type 0 where
  notification subscription_confirmation unsubscribe_confirmation : SnsMessageType

pub data SignatureVersion : Type 0 where
  sha1 sha256 : SignatureVersion

pub record SnsMessage : Type 0 where
  pub type_of : SnsMessageType
  pub message_id : Text
  pub topic_arn : Text
  pub timestamp : Text
  pub signature : Text
  pub signature_version : SignatureVersion
  pub signing_cert_url : Text
  pub message : Option Text
  pub subject : Option Text
  pub token : Option Text
  pub subscribe_url : Option Text

abbrev pub type_name : SnsMessageType → Text
type_name notification = text "Notification"
type_name subscription_confirmation = text "SubscriptionConfirmation"
type_name unsubscribe_confirmation = text "UnsubscribeConfirmation"

-- a field that is there, as its key and its value
abbrev pub present : Text → Option Text → List Text
present key none = []
present key (some value) = key ∷ value ∷ []

abbrev pub last_lines : SnsMessage → List Text
last_lines m = text "TopicArn" ∷ m.topic_arn ∷ text "Type" ∷ type_name m.type_of ∷ []

-- the keys and values that are signed, in the order that the service gives
abbrev pub signed_lines : SnsMessage → SnsMessageType → List Text
signed_lines m notification =
    present (text "Message") m.message
    ++ (text "MessageId" ∷ m.message_id ∷ present (text "Subject") m.subject
        ++ (text "Timestamp" ∷ m.timestamp ∷ last_lines m))
signed_lines m _ =
    present (text "Message") m.message
    ++ (text "MessageId" ∷ m.message_id ∷ present (text "SubscribeURL") m.subscribe_url
        ++ (text "Timestamp" ∷ m.timestamp ∷ present (text "Token") m.token ++ last_lines m))

-- each line with its line feed
unfoldable pub terminated : List Text → Text
terminated [] = []
terminated (l ∷ lines) = l ++ (0x0a ∷ terminated lines)

unfoldable pub build_sns_canonical_string : SnsMessage → Text
unfolding terminated
build_sns_canonical_string m = terminated (signed_lines m m.type_of)

pub record CertCacheEntry : Type 0 where
  pub pem : Text
  pub expires_at : ℕ

abbrev pub CertCache : Type 0
CertCache = List (Text × CertCacheEntry)

abbrev pub cert_cache_ttl_ms : ℕ
cert_cache_ttl_ms = 86400000

abbrev pub cert_cache_max_entries : ℕ
cert_cache_max_entries = 64

unfoldable pub find_cert : Text → CertCache → Option CertCacheEntry
find_cert url [] = none
find_cert url ((u, e) ∷ cache) =
    let rest = find_cert url cache in if text_eq u url then some e else rest

-- `certCache.delete(url)`
abbrev pub without : Text → CertCache → CertCache
without url = filter (λ p. not (text_eq p.0 url))

-- `certCache.set(url, e)`: an entry that is there keeps its place
unfoldable pub set_cert : Text → CertCacheEntry → CertCache → CertCache
set_cert url e [] = (url, e) ∷ []
set_cert url e ((u, f) ∷ cache) =
    let rest = set_cert url e cache in if text_eq u url then (u, e) ∷ cache else (u, f) ∷ rest

abbrev pub touched : (url : Text) → ℕ → CertCache → Option CertCacheEntry → Option Text × CertCache
touched url now cache none = (none, cache)
touched url now cache (some hit) =
    if leb hit.expires_at now
    then (none, without url cache)
    else (some hit.pem, set_cert url hit (without url cache))

unfoldable pub get_cached_cert : (url : Text) → (now : ℕ) → CertCache → Option Text × CertCache
unfolding find_cert set_cert
get_cached_cert url now cache = touched url now cache (find_cert url cache)

abbrev pub is_cached : Option CertCacheEntry → Bool
is_cached none = false
is_cached (some e) = true

-- the oldest entry is the first
abbrev pub without_oldest : CertCache → CertCache
without_oldest [] = []
without_oldest (p ∷ cache) = cache

abbrev pub room : Text → CertCache → CertCache
room url cache =
    if leb cert_cache_max_entries (length cache) && not (is_cached (find_cert url cache))
    then without_oldest cache
    else cache

unfoldable pub set_cached_cert : (url pem : Text) → (now : ℕ) → CertCache → CertCache
unfolding set_cert find_cert
set_cached_cert url pem now cache =
    set_cert url (record { pem = pem; expires_at = now + cert_cache_ttl_ms }) (room url cache)

-- `/^sns\.[a-z0-9-]+\.amazonaws\.com$/`: what lies between the two parts
abbrev pub is_region_char : ℕ → Bool
is_region_char c = leb b'a' c && leb c b'z' || leb b'0' c && leb c b'9' || c == b'-'

unfoldable pub region_then : Text → Bool
unfolding text_eq
region_then [] = false
region_then (c ∷ t) = is_region_char c && (text_eq t (text ".amazonaws.com") || region_then t)

abbrev pub drop_prefix : Text → Text → Option Text
drop_prefix [] t = some t
drop_prefix (c ∷ p) [] = none
drop_prefix (c ∷ p) (d ∷ t) = if c == d then drop_prefix p t else none

abbrev pub region_of : Option Text → Bool
region_of none = false
region_of (some t) = region_then t

unfoldable pub default_cert_host_pattern : Text → Bool
unfolding region_then
default_cert_host_pattern host = region_of (drop_prefix (text "sns.") host)

pub record ParsedUrl : Type 0 where
  pub protocol : Text
  pub hostname : Text

pub record Verification : Type 0 where
  pub canonical : Text
  pub signature_base64 : Text
  pub version : SignatureVersion
  pub certificate_pem : Text

pub record VerifySnsSignatureOpts : Type 0 where
  pub parse_url : Text → Option ParsedUrl
  pub fetch_cert : (now : ℕ) → Text → Result Text Text
  pub verify_signature : Verification → Result Text Bool
  pub allowed_cert_host_pattern : Option (Text → Bool)

abbrev pub host_pattern : Option (Text → Bool) → Text → Bool
host_pattern none = default_cert_host_pattern
host_pattern (some p) = p

module _ (opts : VerifySnsSignatureOpts) where
  abbrev pub is_aws_url : Option ParsedUrl → Bool
  is_aws_url none = false
  is_aws_url (some u) =
      text_eq u.protocol (text "https:") && host_pattern opts.allowed_cert_host_pattern u.hostname

  abbrev pub verified_with : SnsMessage → Text → Result Text Bool
  verified_with m pem = opts.verify_signature (record {
    canonical = build_sns_canonical_string m;
    signature_base64 = m.signature;
    version = m.signature_version;
    certificate_pem = pem;
  })

  abbrev pub fetched :
      SnsMessage → (now : ℕ) → CertCache → Result Text Text → Result Text Bool × CertCache
  fetched m now cache (err e) = (err e, cache)
  fetched m now cache (ok pem) =
      (verified_with m pem, set_cached_cert m.signing_cert_url pem now cache)

  -- the cache is read at `now`, and a certificate is stored at `later`
  abbrev pub with_cached :
      SnsMessage → (now later : ℕ) → Option Text × CertCache → Result Text Bool × CertCache
  with_cached m now later (some pem, cache) = (verified_with m pem, cache)
  with_cached m now later (none, cache) =
      fetched m later cache (opts.fetch_cert now m.signing_cert_url)

  unfoldable pub verify_sns_message :
      SnsMessage → (now later : ℕ) → CertCache → Result Text Bool × CertCache
  unfolding get_cached_cert set_cached_cert build_sns_canonical_string default_cert_host_pattern
  verify_sns_message m now later cache =
      if is_aws_url (opts.parse_url m.signing_cert_url)
      then with_cached m now later (get_cached_cert m.signing_cert_url now cache)
      else (ok false, cache)

-- the texts of the envelope; what is absent, null or no text is `none`, in an optional field too
pub record RawSnsMessage : Type 0 where
  pub type_of : Option Text
  pub message_id : Option Text
  pub topic_arn : Option Text
  pub timestamp : Option Text
  pub signature : Option Text
  pub signature_version : Option Text
  pub signing_cert_url : Option Text
  pub message : Option Text
  pub subject : Option Text
  pub token : Option Text
  pub subscribe_url : Option Text

infixl 5 ◌>>=◌
abbrev pub ◌>>=◌ : {A B : Type 0} → Option A → (A → Option B) → Option B
none >>= f = none
some a >>= f = f a

unfoldable pub read_type : Text → Option SnsMessageType
unfolding text_eq
read_type t =
    if text_eq t (text "Notification")
    then some notification
    else if text_eq t (text "SubscriptionConfirmation")
    then some subscription_confirmation
    else if text_eq t (text "UnsubscribeConfirmation")
    then some unsubscribe_confirmation
    else none

unfoldable pub read_version : Text → Option SignatureVersion
unfolding text_eq
read_version t =
    if text_eq t (text "1") then some sha1 else if text_eq t (text "2") then some sha256 else none

unfoldable pub read_envelope : RawSnsMessage → Option SnsMessage
unfolding read_type read_version
read_envelope r = do
  type_text ← r.type_of
  message_id ← r.message_id
  topic_arn ← r.topic_arn
  timestamp ← r.timestamp
  signature ← r.signature
  signing_cert_url ← r.signing_cert_url
  type_of ← read_type type_text
  version_text ← r.signature_version
  signature_version ← read_version version_text
  some (record {
    type_of = type_of;
    message_id = message_id;
    topic_arn = topic_arn;
    timestamp = timestamp;
    signature = signature;
    signature_version = signature_version;
    signing_cert_url = signing_cert_url;
    message = r.message;
    subject = r.subject;
    token = r.token;
    subscribe_url = r.subscribe_url;
  })

pub data SnsResponse : Type 0 where
  bad_request unauthorized : SnsResponse
  passed_on : SnsMessage → SnsResponse

module _ (opts : VerifySnsSignatureOpts) (parse : Text → Option RawSnsMessage) where
  abbrev pub judged : SnsMessage → Result Text Bool × CertCache → SnsResponse × CertCache
  judged m (ok true, cache) = (passed_on m, cache)
  judged m (ok false, cache) = (unauthorized, cache)
  judged m (err e, cache) = (unauthorized, cache)

  abbrev pub on_envelope : (now later : ℕ) → CertCache → Option SnsMessage → SnsResponse × CertCache
  on_envelope now later cache none = (bad_request, cache)
  on_envelope now later cache (some m) = judged m (verify_sns_message opts m now later cache)

  -- what passes on is handed to `next`, which the response names
  unfoldable pub verify_sns_signature :
      (raw : Text) → (now later : ℕ) → CertCache → SnsResponse × CertCache
  unfolding read_envelope verify_sns_message
  verify_sns_signature raw now later cache =
      on_envelope now later cache (parse raw >>= read_envelope)
