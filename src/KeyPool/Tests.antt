-- ===== src/KeyPool/Tests.antt =====
-- Requests over a pool of three keys (providers/pool.py), and instances of the theorems.
use core_ai_protocol_suite.Errors.{
  Exc, absent, int, foreign, status_of, retry_after_of, classify, kind_of_status,
}
use core_ai_protocol_suite.Retry.{returned, raised}
use core_ai_protocol_suite.Prelude.{
  ℕ, ◌≡◌, refl, false, none, some, [], ◌∷◌, All, ◌==◌, if◌then◌else◌, arith,
}
use core_ai_protocol_suite.KeyPool.{
  KeyPool, order, Reply, complete, Flow, stream, is_key_error, try_keys, rotation, keep,
}
use core_ai_protocol_suite.KeyPool.Failover.{GoesOn, IsAnswered, complete-IsAnswered}
use core_ai_protocol_suite.KeyPool.Streams.{IsOneFlow, stream-IsOneFlow}

-- Key 1 is parked until 50, and it is its turn.
abbrev pool : KeyPool
pool = record { size = 3; cooldown = 60; parked = λ i. if i == 1 then 50 else 0; next = 1 }

abbrev denied : Exc
denied = record {
  own_class = foreign;
  status_code = int 401;
  status = absent;
  code = absent;
  retry_after = absent;
  response = none;
  is_timeout_error = false;
  is_connection_error = false;
  class_names = [];
  message = "";
}

-- Key 2 is refused, and the others answer with their number.
abbrev replies : ℕ → Reply ℕ
replies i = record { outcome = if i == 2 then raised denied else returned i; now = 10 }

abbrev flows : ℕ → Flow ℕ
flows i = record {
  chunks = if i == 2 then [] else i ∷ i ∷ [];
  failure = if i == 2 then some denied else none;
  now = 10;
}

the_order : (order 10 pool).1 ≡ 2 ∷ 0 ∷ []
unfolding order rotation keep
the_order = refl

answered : (complete replies 10 pool).1 ≡ some (returned 0)
unfolding complete try_keys order rotation keep is_key_error classify status_of retry_after_of
    kind_of_status
answered = refl

moves_on : All (λ j. GoesOn replies (replies j).outcome) (order 10 pool).1
unfolding order rotation keep is_key_error classify status_of retry_after_of kind_of_status
moves_on = (refl, (tt, tt))

complete-IsAnswered_example : IsAnswered replies (order 10 pool).1 (complete replies 10 pool).1
complete-IsAnswered_example =
    complete-IsAnswered replies 10 pool 0 0 (omega arith) (omega arith) moves_on refl

stream-IsOneFlow_example :
    IsOneFlow flows (order 10 pool).1 (stream flows 10 pool).1 (stream flows 10 pool).2
stream-IsOneFlow_example = stream-IsOneFlow flows 10 pool (omega arith)
