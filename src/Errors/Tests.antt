-- ===== src/Errors/Tests.antt =====
-- Classifications of sample exceptions (coreai/errors.py) and instances of the theorems.
use core_ai_protocol_suite.Prelude.{◌≡◌, refl, true, false, none, some, [], ◌∷◌}
use core_ai_protocol_suite.Errors.{kind_of_status, classify_unnumbered}
use core_ai_protocol_suite.Errors.{
  overloaded, quota, timeout, Exc, absent, int, words, thousandths, missing, foreign,
  deadline_exceeded, status_of, retry_after_of, quota_exhausted, classify,
}

abbrev plain_error : Exc
plain_error = record {
  own_class = foreign;
  status_code = absent;
  status = absent;
  code = absent;
  retry_after = absent;
  response = none;
  is_timeout_error = false;
  is_connection_error = false;
  class_names = "apierror" ∷ "exception" ∷ "object" ∷ [];
  message = "something went wrong";
}

-- Anthropic's 529 with `retry-after: 1.5`.
abbrev busy : Exc
busy = record plain_error {
  response = some (record {
    status_code = int 529;
    headers = some (record { retry_after_ms = missing; retry_after = thousandths 1500 });
  });
}

busy_info :
    classify busy ≡ record { kind = overloaded; status = some 529; retry_after = some 1_500_000 }
unfolding classify status_of retry_after_of kind_of_status
busy_info = refl

quota_429 :
    (classify
      (record plain_error { status_code = int 429; code = words "insufficient_quota" })).kind
    ≡ quota
unfolding classify status_of retry_after_of kind_of_status quota_exhausted
quota_429 = refl

named_timeout :
    (classify (record plain_error { class_names = "readtimeout" ∷ "exception" ∷ [] })).kind
    ≡ timeout
unfolding classify status_of retry_after_of classify_unnumbered
named_timeout = refl

busy_status : status_of busy ≡ some 529
unfolding status_of
busy_status = refl

abbrev late : Exc
late = record busy { own_class = deadline_exceeded; is_timeout_error = true }
