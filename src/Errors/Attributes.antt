-- ===== src/Errors/Attributes.antt =====
-- Statuses that exceptions carry (coreai/errors.py).
use core_ai_protocol_suite.Prelude.{ℕ, ◌≤◌, ◌≡◌, Option, none, some, arith}
use core_ai_protocol_suite.Errors.{
  Exc, Attribute, int, Response, status_value, first_some, response_status, status_of,
}

abbrev IsHttp : Option ℕ → Type 0
IsHttp o = (s : ℕ) → o ≡ some s → (100 ≤ s) × (s ≤ 599)

status_value-IsHttp : (a : Attribute) → IsHttp (status_value a)
unfolding status_value
status_value-IsHttp (int n) s h = ground arith
status_value-IsHttp _ s h = absurd (ground arith)

response_status-IsHttp : (r : Option Response) → IsHttp (response_status r)
unfolding response_status
response_status-IsHttp none s h = absurd (ground arith)
response_status-IsHttp (some r) s h = status_value-IsHttp r.status_code s h

first_some-IsHttp : (a b : Option ℕ) → IsHttp a → IsHttp b → IsHttp (first_some a b)
unfolding first_some
first_some-IsHttp none b p q = q
first_some-IsHttp (some n) b p q = p

-- A status, wherever the exception carries it, is an HTTP status.
pub status_of_range : (e : Exc) (s : ℕ) → status_of e ≡ some s → (100 ≤ s) × (s ≤ 599)
unfolding status_of
status_of_range e = first_some-IsHttp _ _ (status_value-IsHttp e.status_code) (
    first_some-IsHttp _ _ (status_value-IsHttp e.status)
      (first_some-IsHttp _ _ (status_value-IsHttp e.code) (response_status-IsHttp e.response)))
