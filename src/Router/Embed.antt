-- ===== src/Router/Embed.antt =====
-- src/coreai/router.py: `embed`, which asks the providers that support embeddings in turn. `env`
-- holds, for each provider, the readings of its breaker's clock and the outcome of its `embed` under
-- the timeout; the statistics are left out.
use core_ai_protocol_suite.Prelude.{
  String, Bool, true, false, ◌&&◌, Option, none, some, List, [], ◌∷◌, ◌++◌, ◌≡◌, ◌≤◌, refl, inl,
  inr, arith, Bool-cases,
}
use core_ai_protocol_suite.Errors.{ErrorKind, circuit_open, Exc, classify, failover}
use core_ai_protocol_suite.CircuitBreaker.{allow}
use core_ai_protocol_suite.Retry.{Outcome, returned, raised, Outcome-cases}
use core_ai_protocol_suite.Router.{Router, Call, settle, with_breaker}
use core_ai_protocol_suite.Router.Balance.{
  IsBalanced, same, chain, settle_balanced, refusal_balanced,
}

-- `registered` and `supports` are the tests on the provider's name.
pub record Site (A : Type 0) : Type 0 where
  pub registered : Bool
  pub supports : Bool
  pub call : Call A
  pub outcome : Outcome A

pub data Embedding (A : Type 0) : Type 0 where
  embedded : String → A → Embedding A
  reraised : Exc → Embedding A
  unavailable : List (String × ErrorKind) → Embedding A
  unknown unsupported : Embedding A

module _ {A : Type 0} where
  -- After the loop.
  after : Option Exc → List (String × ErrorKind) → Embedding A
  after (some e) (f ∷ []) = reraised e
  after last (f ∷ fs) = unavailable (f ∷ fs)
  after last [] = unsupported

  unfoldable pub embed_from :
      (String → Site A)
      → Option Exc
      → List (String × ErrorKind)
      → List String
      → Router
      → Router × Embedding A
  unfolding after
  embed_from env last errors [] r = (r, after last errors)
  embed_from env last errors (name ∷ rest) r =
      let asked = allow (env name).call.asked (r.breakers name) in
      let q = with_breaker name asked.0 r in
      elim (env name).registered [
        | false ↦ (r, unknown)
        | true ↦ elim (env name).supports [
          | false ↦ embed_from env last errors rest r
          | true ↦ elim asked.1 [
            | false ↦ embed_from env last (errors ++ ((name, circuit_open) ∷ [])) rest q
            | true ↦
                let p = with_breaker name (settle (env name).call (env name).outcome asked.0) q in
                elim (env name).outcome [
                  | returned a ↦ (p, embedded name a)
                  | raised e ↦ elim (r.config.enable_failover && failover (classify e).kind) [
                    | true ↦
                        embed_from env (some e) (errors ++ ((name, (classify e).kind) ∷ [])) rest p
                    | false ↦ (p, reraised e)
                  ]
                ]
          ]
        ]
      ]

  unfoldable pub embed : (String → Site A) → List String → Router → Router × Embedding A
  embed env names r = embed_from env none [] names r

  outcome_balanced :
      (name : String) (call : Call A) (o : Outcome A) (r : Router)
      → (allow call.asked (r.breakers name)).1 ≡ true
      → IsBalanced r (
          with_breaker name
            (settle call o (allow call.asked (r.breakers name)).0)
            (with_breaker name (allow call.asked (r.breakers name)).0 r))
  unfolding with_breaker
  outcome_balanced name call o r h = record {
    probes = λ n. ground (arith, settle_balanced call o (r.breakers name) h);
    slots = λ n. refl;
    settings = refl;
  }

  embed_from_balanced :
      (env : String → Site A) (names : List String) (last : Option Exc)
      (errors : List (String × ErrorKind)) (r : Router)
      → IsBalanced r (embed_from env last errors names r).0
  unfolding embed_from
  embed_from_balanced env [] last errors r = same r
  embed_from_balanced env (name ∷ rest) last errors r =
      let call = (env name).call in
      let asked = allow call.asked (r.breakers name) in
      let q = with_breaker name asked.0 r in
      elim (Bool-cases (env name).registered) [
        | inr k ↦ rw (k, embed_from) (same r)
        | inl k ↦ elim (Bool-cases (env name).supports) [
          | inr s ↦ rw (k, s, embed_from) (embed_from_balanced env rest last errors r)
          | inl s ↦ elim (Bool-cases asked.1) [
            | inr h ↦
                rw (k, s, h, embed_from)
                  (chain r q _ (refusal_balanced name call.asked r h)
                    (embed_from_balanced env rest last _ q))
            | inl h ↦ elim (Outcome-cases (env name).outcome) [
              | inl (a, o) ↦
                  rw (k, s, h, o, embed_from) (outcome_balanced name call (env name).outcome r h)
              | inr (e, o) ↦
                  let v = outcome_balanced name call (env name).outcome r h in
                  let p = with_breaker name (settle call (env name).outcome asked.0) q in
                  elim (Bool-cases (r.config.enable_failover && failover (classify e).kind)) [
                    | inl g ↦
                        rw (k, s, h, o, g, embed_from)
                          (chain r p _ v (embed_from_balanced env rest (some e) _ p))
                    | inr g ↦ rw (k, s, h, o, g, embed_from) v
                  ]
            ]
          ]
        ]
      ]

-- A request for embeddings gives back every probe slot that it took, whichever provider answers or
-- fails and however it ends: no breaker has more probes in flight than before.
pub embed-probes :
    {A : Type 0} (env : String → Site A) (names : List String) (r : Router) (n : String)
    → ((embed env names r).0.breakers n).probes_in_flight ≤ (r.breakers n).probes_in_flight
unfolding embed
embed-probes env names r n = (embed_from_balanced env names none [] r).probes n
