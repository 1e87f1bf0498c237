-- ===== src/Router/Tests.antt =====
-- A request over two providers (coreai/router.py), and instances of the theorems.
use core_ai_protocol_suite.Router.Stream.OneFlow.{IsSingleFlow, stream-IsSingleFlow}
use core_ai_protocol_suite.Router.Stream.Balanced.{stream-IsBalanced}
use core_ai_protocol_suite.Router.Stream.{
  Body, leaves, Streamed, gone, stream, stream_from, open_stream, opened, received,
}
use mathlib.Core.Option
use core_ai_protocol_suite.Prelude.{
  Option, ℕ, String, ℕ, ◌≡◌, refl, String-discrete, true, false, none, some, [], ◌∷◌, ◌==◌,
  if◌then◌else◌,
}
use core_ai_protocol_suite.Errors.{
  Exc, absent, int, foreign, overloaded, classify, status_of, retry_after_of, kind_of_status,
  failover,
}
use core_ai_protocol_suite.Deadline.{Deadline, clamp, check}
use core_ai_protocol_suite.CircuitBreaker.{CircuitBreaker, closed, allow, observe}
use core_ai_protocol_suite.Retry.{returned, raised}
use core_ai_protocol_suite.Router.{
  count_failover, Router, Call, route_from, call_provider, answer, finish, take_slot, free_slot,
  with_breaker, one_call, settle, goes_on, Ending, answered, route,
}
use core_ai_protocol_suite.Router.Balance.{IsBalanced, route-IsBalanced}
use core_ai_protocol_suite.Router.Embed.{Site}
use core_ai_protocol_suite.Router.Failover.{IsExplained, route-IsExplained}

abbrev busy : Exc
busy = record {
  own_class = foreign;
  status_code = int 503;
  status = absent;
  code = absent;
  retry_after = absent;
  response = none;
  is_timeout_error = false;
  is_connection_error = false;
  class_names = [];
  message = "";
}

abbrev breaker : CircuitBreaker
breaker = record {
  name = "";
  failure_threshold = 5;
  reset_timeout = 60;
  half_open_max_calls = 1;
  state = closed;
  failures = 0;
  opened_at = 0;
  probes_in_flight = 0;
  total_opened = 0;
  changes = [];
}

abbrev router : Router
router = record {
  config = record {
    max_retry_attempts = 3;
    max_attempts_before_failover = 2;
    enable_failover = true;
    timeout_for = λ _. 30;
  };
  breakers = λ _. breaker;
  active_requests = λ _. 0;
  retry_manager = none;
  failover_count = 0;
}

-- The first candidate is overloaded, the second answers.
abbrev calls : ℕ → Call ℕ
calls i = record {
  asked = 10;
  hint = 10;
  checked = 10;
  admission = none;
  tries = λ n. record {
    started = 11;
    takes = 5;
    outcome = if i == 0 then raised busy else returned 7;
    ended = 16;
    draw = 0;
    now = 16;
  };
  settled = 16;
  later = 16;
}

abbrev limit : Deadline
limit = record { end = some 100 }

route-IsBalanced_example :
    (x : Router × Ending ℕ) × (route calls limit ("anthropic" ∷ "openai" ∷ []) router ≡ some x)
    × IsBalanced router x.0
route-IsBalanced_example = route-IsBalanced calls limit ("anthropic" ∷ "openai" ∷ []) router

route-IsExplained_example :
    (x : Router × Ending ℕ) × (route calls limit ("anthropic" ∷ "openai" ∷ []) router ≡ some x)
    × IsExplained calls limit ("anthropic" ∷ "openai" ∷ []) router x
route-IsExplained_example = route-IsExplained calls limit ("anthropic" ∷ "openai" ∷ []) router

the_run :
    Option.map
      (λ (x : Router × Ending ℕ). x.1)
      (route calls limit ("anthropic" ∷ "openai" ∷ []) router)
    ≡ some (answered "openai" 7 (("anthropic", overloaded) ∷ []))
unfolding route route_from call_provider answer finish allow observe take_slot with_breaker one_call
    settle classify status_of retry_after_of kind_of_status goes_on failover String-discrete clamp
    check free_slot
the_run = refl

abbrev sites : String → Site ℕ
sites name = record { registered = true; supports = true; call = calls 0; outcome = raised busy }

-- The first candidate is overloaded, the second streams, and the client leaves.
abbrev openings : ℕ → Call (Option String)
openings i = record {
  asked = 10;
  hint = 10;
  checked = 10;
  admission = none;
  tries = λ n. record {
    started = 11;
    takes = 5;
    outcome = if i == 0 then raised busy else returned (some "Once");
    ended = 16;
    draw = 0;
    now = 16;
  };
  settled = 16;
  later = 16;
}

abbrev bodies : ℕ → Body
bodies i = record { chunks = " upon" ∷ " a" ∷ []; close = leaves; settled = 20; later = 20 }

the_stream :
    Option.map
      (λ (x : Router × Streamed). x.1)
      (stream openings bodies limit ("anthropic" ∷ "openai" ∷ []) router)
    ≡ some (gone "openai" ("Once" ∷ " upon" ∷ " a" ∷ []) (("anthropic", overloaded) ∷ []))
unfolding stream stream_from open_stream opened answer finish allow observe take_slot with_breaker
    one_call settle classify status_of retry_after_of kind_of_status goes_on failover
    String-discrete clamp check free_slot received count_failover
the_stream = refl

stream-IsBalanced_example :
    (x : Router × Streamed) × (stream openings bodies limit ("anthropic" ∷ "openai" ∷ []) router
      ≡ some x)
    × IsBalanced router x.0
stream-IsBalanced_example =
    stream-IsBalanced openings bodies limit ("anthropic" ∷ "openai" ∷ []) router

stream-IsSingleFlow_example :
    (x : Router × Streamed) × (stream openings bodies limit ("anthropic" ∷ "openai" ∷ []) router
      ≡ some x)
    × IsSingleFlow openings bodies limit ("anthropic" ∷ "openai" ∷ []) router x
stream-IsSingleFlow_example =
    stream-IsSingleFlow openings bodies limit ("anthropic" ∷ "openai" ∷ []) router
