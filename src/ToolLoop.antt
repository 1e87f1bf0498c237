-- ===== src/ToolLoop.antt =====
-- src/tools/executor.py: one tool call of a model, and the loop of model calls and tool calls.
--
-- `Args` is the type of decoded argument objects and `S` the state of the approvals, which the
-- callable `approved` may change. The environment holds what handlers do, the readings of the
-- clock, what `json.loads` makes of the arguments, the callable, and the model's answers, of which
-- `none` is an exception of `route`. Costs are natural numbers of a small unit. The specs offered
-- to the model, which change nothing here, and durations are left out.
pub mod Rounds
pub mod Safety
pub mod Requests
pub mod Paid
mod Tests
use core_ai_protocol_suite.Prelude.{
  ℕ, zero, suc, ◌+◌, String, Bool, true, false, Option, none, some, List, [], ◌∷◌, ◌++◌, length,
  leb, if◌then◌else◌,
}
use core_ai_protocol_suite.Conversation.{
  ToolCall, Content, words, untrusted, refused, Message, assistant, tool,
}
use core_ai_protocol_suite.Tools.{
  Permission, Code, invalid_arguments, approval_required, Handled, ToolRegistry, Called, completed,
  failed, call,
}

pub record Response : Type 0 where
  pub content : String
  pub tool_calls : List ToolCall
  pub cost : ℕ
  pub input_tokens : ℕ
  pub output_tokens : ℕ

pub record Env (Args S : Type 0) : Type 0 where
  pub handled : ℕ → Handled
  pub clock : ℕ → ℕ
  pub parse : String → Option Args
  pub approve : ℕ → String → String → Args → S → S × Bool
  pub model : ℕ → Option Response

-- `allowed`, `caller` and `max_permission` of the loop.
pub record Grant : Type 0 where
  pub allowed : List String
  pub caller : String
  pub max_permission : Permission

-- `reads` counts the readings of the clock.
pub record World (Args S : Type 0) : Type 0 where
  pub registry : ToolRegistry Args
  pub approvals : S
  pub reads : ℕ

pub record ToolStep (Args : Type 0) : Type 0 where
  pub call_id : String
  pub tool : String
  pub arguments : Option Args
  pub ok : Bool
  pub output : Content
  pub error_code : Option Code

module _ {Args S : Type 0} (env : Env Args S) (g : Grant) where
  -- `registry.call`
  unfoldable pub use_tool : String → Args → Bool → World Args S → World Args S × Called
  use_tool name args approved w =
      let r =
        call env.handled (env.clock w.reads) name (some args) (some g.allowed) g.caller approved
          g.max_permission w.registry in
      (record w { registry = r.0; reads = w.reads + 1 }, r.1)

  -- After the answer of `approved`.
  unfoldable pub if_approved : String → Args → World Args S → S × Bool → World Args S × Called
  unfolding use_tool
  if_approved name args w (s, true) = use_tool name args true (record w { approvals = s })
  if_approved name args w (s, false) = (record w { approvals = s }, failed approval_required)

  -- After the first call: one that needs approval is asked for, and made again.
  unfoldable pub after_first : String → Args → World Args S × Called → World Args S × Called
  unfolding if_approved
  after_first name args (w, failed approval_required) =
      if_approved name args (record w { reads = w.reads + 1 })
        (env.approve (env.clock w.reads) g.caller name args w.approvals)
  after_first name args (w, c) = (w, c)

  step_of : ToolCall → Args → Called → ToolStep Args
  step_of c args (completed text) = record {
    call_id = c.id;
    tool = c.name;
    arguments = some args;
    ok = true;
    output = untrusted text c.name;
    error_code = none;
  }
  step_of c args (failed code) = record {
    call_id = c.id;
    tool = c.name;
    arguments = some args;
    ok = false;
    output = refused code;
    error_code = some code;
  }

  bad_arguments : ToolCall → ToolStep Args
  bad_arguments c = record {
    call_id = c.id;
    tool = c.name;
    arguments = none;
    ok = false;
    output = refused invalid_arguments;
    error_code = some invalid_arguments;
  }

  -- `_run_one`
  unfoldable pub run_one : ToolCall → World Args S → World Args S × ToolStep Args
  unfolding after_first use_tool step_of bad_arguments
  run_one c w = elim (env.parse c.arguments) [
    | none ↦ (w, bad_arguments c)
    | some args ↦
        let r = after_first c.name args (use_tool c.name args false w) in (r.0, step_of c args r.1)
  ]

pub data StopReason : Type 0 where
  answered max_steps needs_approval cost_limit : StopReason

-- `ToolLoopResult`; `raised` is set where `route` raised and the loop with it.
pub record LoopResult (Args : Type 0) : Type 0 where
  pub response : Option Response
  pub steps : List (ToolStep Args)
  pub stop_reason : StopReason
  pub pending_approval : Option (ToolStep Args)
  pub total_cost : ℕ
  pub input_tokens : ℕ
  pub output_tokens : ℕ
  pub raised : Bool

-- The loop's variables, the messages of `req` among them; `sent` is what each call of `route` was
-- given, the newest first.
pub record LoopState (Args : Type 0) : Type 0 where
  pub messages : List Message
  pub result : LoopResult Args
  pub sent : List (List Message)

abbrev pub asks : Response → Message
asks r = record {
  role = assistant;
  content = words r.content;
  tool_calls = r.tool_calls;
  tool_call_id = none;
}

abbrev pub answers : {Args : Type 0} → ToolStep Args → Message
answers s = record {
  role = tool;
  content = s.output;
  tool_calls = [];
  tool_call_id = some s.call_id;
}

abbrev pub is_approval_required : Option Code → Bool
is_approval_required (some approval_required) = true
is_approval_required _ = false

-- A cap that is None never stops.
abbrev pub reaches : Option ℕ → ℕ → Bool
reaches none n = false
reaches (some cap) n = leb cap n

unfoldable pub start : {Args : Type 0} → List Message → LoopState Args
start messages = record {
  messages = messages;
  result = record {
    response = none;
    steps = [];
    stop_reason = answered;
    pending_approval = none;
    total_cost = 0;
    input_tokens = 0;
    output_tokens = 0;
    raised = false;
  };
  sent = [];
}

module _ {Args S : Type 0} (env : Env Args S) (g : Grant) where
  -- The inner loop over the calls of one response, and whether the outer one returns after it.
  unfoldable pub run_calls :
      List ToolCall → LoopState Args → World Args S → World Args S × LoopState Args × Bool
  run_calls [] st w = (w, st, false)
  run_calls (c ∷ cs) st w =
      let r = run_one env g c w in
      let noted : LoopResult Args = record (st.result) { steps = st.result.steps ++ (r.1 ∷ []) } in
      elim (is_approval_required r.1.error_code) [
        | true ↦ (
          r.0,
          record st {
            result = record noted { stop_reason = needs_approval; pending_approval = some r.1 };
          },
          true,
        )
        | false ↦
            run_calls cs
              (record st { result = noted; messages = st.messages ++ (answers r.1 ∷ []) }) r.0
      ]

  -- The result after an answer of the model.
  unfoldable pub count_response : Response → LoopState Args → LoopState Args
  count_response resp st = record st {
    result = record (st.result) {
      response = some resp;
      total_cost = st.result.total_cost + resp.cost;
      input_tokens = st.result.input_tokens + resp.input_tokens;
      output_tokens = st.result.output_tokens + resp.output_tokens;
    };
    sent = st.messages ∷ st.sent;
  }

  stop_for : StopReason → LoopState Args → LoopState Args
  stop_for reason st = record st { result = record (st.result) { stop_reason = reason } }

  -- The `for` loop, with the rounds left and the number of calls of `route` before.
  unfoldable pub rounds :
      ℕ → Option ℕ → ℕ → ℕ → LoopState Args → World Args S → World Args S × LoopState Args
  unfolding stop_for
  rounds limit max_cost zero i st w = (w, stop_for max_steps st)
  rounds limit max_cost (suc n) i st w = elim (env.model i) [
    | none ↦ (
      w,
      record st { result = record (st.result) { raised = true }; sent = st.messages ∷ st.sent },
    )
    | some resp ↦
        let counted = count_response resp st in
        elim resp.tool_calls [
          | [] ↦ (w, counted)
          | c ∷ cs ↦ elim (leb limit (length counted.result.steps)) [
            | true ↦ (w, stop_for max_steps counted)
            | false ↦ elim (reaches max_cost counted.result.total_cost) [
              | true ↦ (w, stop_for cost_limit counted)
              | false ↦
                  let r =
                    run_calls (c ∷ cs)
                      (record counted { messages = counted.messages ++ (asks resp ∷ []) }) w in
                  elim r.2 [ true ↦ (r.0, r.1) | false ↦ rounds limit max_cost n (i + 1) r.1 r.0 ]
            ]
          ]
        ]
  ]

  -- `run_tool_loop`, from the first request's messages on.
  unfoldable pub run_tool_loop :
      ℕ → Option ℕ → List Message → World Args S → World Args S × LoopState Args
  run_tool_loop limit max_cost messages w = rounds limit max_cost (limit + 1) 0 (start messages) w
