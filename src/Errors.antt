-- ===== src/Errors.antt =====
-- src/coreai/errors.py: provider failures as kinds, and what each kind allows.
--
-- An exception is a record of the attributes that the code reads. Durations are whole
-- microseconds, so a `retry-after` header has up to six decimals and `retry-after-ms` up to three;
-- what `float` and `parsedate_to_datetime` make of a header is part of the header's value. Class
-- names and the message are taken in lower case.
mod Attributes
mod Decisions
mod Tests
use text.Mathlib.Text.{find?, ◌==◌ as str_eq}
use core_ai_protocol_suite.Prelude.{
  ℕ, ◌*◌, String, Bool, true, false, ◌&&◌, ◌||◌, Option, none, some, List, [], ◌∷◌, ltb, leb, ◌==◌,
  if◌then◌else◌, is_some, any,
}

pub data ErrorKind : Type 0 where
  rate_limit overloaded server_error timeout connection auth quota bad_request : ErrorKind
  deadline circuit_open unknown : ErrorKind

-- `RETRYABLE`
unfoldable pub retryable : ErrorKind → Bool
retryable rate_limit = true
retryable overloaded = true
retryable server_error = true
retryable timeout = true
retryable connection = true
retryable _ = false

-- `FAILOVER`, the set built on `RETRYABLE`
unfoldable pub failover : ErrorKind → Bool
unfolding retryable
failover auth = true
failover quota = true
failover circuit_open = true
failover k = retryable k

-- `BREAKER_COUNTED`
unfoldable pub breaker_counted : ErrorKind → Bool
unfolding retryable
breaker_counted auth = true
breaker_counted quota = true
breaker_counted k = retryable k

pub record ErrorInfo : Type 0 where
  pub kind : ErrorKind
  pub status : Option ℕ
  pub retry_after : Option ℕ

-- What `getattr(exc, name, None)` may give: nothing or `None`, a bool, a non-negative int, a
-- non-negative float (here in microseconds of a second), a negative number, a text.
pub data Attribute : Type 0 where
  absent negative : Attribute
  flag : Bool → Attribute
  int real : ℕ → Attribute
  words : String → Attribute

-- A header: absent, a number in thousandths, a negative number, a date that lies so many
-- microseconds ahead (0 where it has passed), or text that neither parser reads.
pub data Header : Type 0 where
  missing below_zero unreadable : Header
  thousandths date : ℕ → Header

pub record Headers : Type 0 where
  pub retry_after_ms : Header
  pub retry_after : Header

pub record Response : Type 0 where
  pub status_code : Attribute
  pub headers : Option Headers

-- The classes that `classify` tests by `isinstance` first.
pub data OwnClass : Type 0 where
  deadline_exceeded circuit_open_error rate_limited foreign : OwnClass

pub record Exc : Type 0 where
  pub own_class : OwnClass
  pub status_code : Attribute
  pub status : Attribute
  pub code : Attribute
  pub retry_after : Attribute
  pub response : Option Response
  pub is_timeout_error : Bool
  pub is_connection_error : Bool
  pub class_names : List String
  pub message : String

http_range : ℕ → Option ℕ
http_range n = if leb 100 n && leb n 599 then some n else none

-- An int, and no bool, from 100 to 599.
status_value : Attribute → Option ℕ
unfolding http_range
status_value (int n) = http_range n
status_value _ = none

first_some : Option ℕ → Option ℕ → Option ℕ
first_some (some n) o = some n
first_some none o = o

response_status : Option Response → Option ℕ
unfolding status_value
response_status (some r) = status_value r.status_code
response_status none = none

unfoldable pub status_of : Exc → Option ℕ
unfolding response_status first_some
status_of e = first_some (status_value e.status_code) (
    first_some (status_value e.status)
      (first_some (status_value e.code) (response_status e.response)))

abbrev second : ℕ
second = 1_000_000

-- `isinstance(explicit, (int, float)) and explicit >= 0`; a bool is an int.
explicit_delay : Attribute → Option ℕ
explicit_delay (flag true) = some second
explicit_delay (flag false) = some 0
explicit_delay (int n) = some (n * second)
explicit_delay (real n) = some n
explicit_delay _ = none

seconds_header : Header → Option ℕ
seconds_header (thousandths n) = some (n * 1000)
seconds_header below_zero = some 0
seconds_header (date n) = some n
seconds_header missing = none
seconds_header unreadable = none

header_delay : Header → Header → Option ℕ
unfolding seconds_header
header_delay missing seconds = seconds_header seconds
header_delay (thousandths n) seconds = some n
header_delay below_zero seconds = some 0
header_delay _ seconds = none

headers_delay : Option Headers → Option ℕ
unfolding header_delay
headers_delay none = none
headers_delay (some h) = header_delay h.retry_after_ms h.retry_after

response_headers : Option Response → Option Headers
response_headers none = none
response_headers (some r) = r.headers

unfoldable pub retry_after_of : Exc → Option ℕ
unfolding explicit_delay headers_delay response_headers first_some
retry_after_of e =
    first_some (explicit_delay e.retry_after) (headers_delay (response_headers e.response))

-- `hint in message`
mentions : String → String → Bool
mentions message hint = is_some (find? message hint)

abbrev quota_hints : List String
quota_hints =
    "insufficient_quota" ∷ "exceeded your current quota" ∷ "billing" ∷ "credit balance" ∷ []

code_is : Attribute → String → Bool
code_is (words s) t = str_eq s t
code_is _ t = false

-- `quota` of the branch for 429 and 402.
pub quota_exhausted : ℕ → Exc → Bool
unfolding mentions code_is
quota_exhausted status e =
    status == 402 || any (mentions e.message) quota_hints || code_is e.code "insufficient_quota"

unfoldable pub kind_of_status : ℕ → Exc → ErrorKind
kind_of_status status e =
    if status == 429 || status == 402
    then if quota_exhausted status e then quota else rate_limit
    else if status == 503 || status == 529
    then overloaded
    else if status == 408
    then timeout
    else if leb 500 status
    then server_error
    else if status == 401 || status == 403
    then auth
    else if leb 400 status && ltb status 500
    then bad_request
    else unknown

-- The names are joined by blanks in the source; no hint holds a blank.
class_mentions : Exc → String → Bool
unfolding mentions
class_mentions e hint = any (λ name. mentions name hint) e.class_names

plain : ErrorKind → Option ℕ → ErrorInfo
plain k wait = record { kind = k; status = none; retry_after = wait }

pub classify_unnumbered : Exc → Option ℕ → ErrorInfo
unfolding class_mentions mentions plain
classify_unnumbered e wait =
    if e.is_timeout_error || class_mentions e "timeout"
    then plain timeout wait
    else if e.is_connection_error || class_mentions e "connect"
    then plain connection wait
    else if mentions e.message "overloaded"
    then plain overloaded wait
    else if any (mentions e.message) quota_hints
    then plain quota none
    else if any (mentions e.message) ("rate limit" ∷ "429" ∷ "too many requests" ∷ [])
    then plain rate_limit wait
    else if any (mentions e.message) ("timeout" ∷ "timed out" ∷ [])
    then plain timeout wait
    else if mentions e.message "connection"
    then plain connection wait
    else plain unknown wait

classify_foreign : Option ℕ → Option ℕ → Exc → ErrorInfo
classify_foreign (some s) wait e = record {
  kind = kind_of_status s e;
  status = some s;
  retry_after = wait;
}
classify_foreign none wait e = classify_unnumbered e wait

classify_as : OwnClass → Exc → ErrorInfo
unfolding explicit_delay plain classify_foreign
classify_as deadline_exceeded e = plain deadline none
classify_as circuit_open_error e = plain circuit_open (explicit_delay e.retry_after)
classify_as rate_limited e = plain rate_limit (explicit_delay e.retry_after)
classify_as foreign e = classify_foreign (status_of e) (retry_after_of e) e

unfoldable pub classify : Exc → ErrorInfo
unfolding classify_as
classify e = classify_as e.own_class e
