-- ===== src/Tools/Guards.antt =====
-- What a tool call that runs has passed (tools/registry.py, _call).
use core_ai_protocol_suite.Dict
use core_ai_protocol_suite.Prelude.{
  ℕ, ◌≤◌, ◌≡◌, refl, ◌⊎◌, inl, inr, String, String-discrete, Bool, true, Option, none, some, List,
  ◌∷◌, Option-cases, arith,
}
use core_ai_protocol_suite.Tools.{
  Permission, level, is_destructive, Code, Tool, Execution, Handled, ToolRegistry, allows, refusal,
  execute, call_checked, call_tool, call, check_rate,
}

module _ {Args : Type 0} where
  -- The execution is of a registered tool that is allowed, within the permission, with arguments
  -- that fit its schema, and approved if the tool is destructive.
  pub record IsPermitted (r : ToolRegistry Args) (allowed : Option (List String))
      (max_permission : Permission) (x : Execution Args) : Type 0 where
    pub tool_of : Tool Args
    pub registered : Dict.get String-discrete x.tool r.tools ≡ some tool_of
    pub named : allows allowed x.tool ≡ true
    pub within : level x.permission ≤ level max_permission
    pub fits : tool_of.schema x.arguments ≡ true
    pub same_permission : x.permission ≡ tool_of.permission
    pub approval : is_destructive x.permission ≡ true → x.approved ≡ true

  passed :
      (allowed : Option (List String)) (approved : Bool) (max_permission : Permission) (args : Args)
      (t : Tool Args) (name : String)
      → refusal allowed approved max_permission (some args) t name ≡ none
      → (allows allowed name ≡ true)
        × (level t.permission ≤ level max_permission)
        × (t.schema args ≡ true)
        × (is_destructive t.permission ≡ true → approved ≡ true)
  unfolding refusal
  passed allowed approved max_permission args t name h = ground arith

  -- What a call may have done: nothing but to the rate windows, or one permitted execution more.
  pub record IsGuarded (r q : ToolRegistry Args) (allowed : Option (List String)) (caller : String)
      (approved : Bool) (max_permission : Permission) (name : String) (args : Option Args)
      : Type 0 where
    pub same_tools : q.tools ≡ r.tools
    pub effect :
        (q.ran ≡ r.ran)
        ⊎ ((x : Execution Args) × (q.ran ≡ x ∷ r.ran)
            × IsPermitted r allowed max_permission x
            × (x.approved ≡ approved)
            × (x.caller ≡ caller)
            × (x.tool ≡ name)
            × (args ≡ some x.arguments))

  call_checked-IsGuarded :
      (env : ℕ → Handled) (x : Execution Args) (c : Option Code) (r : ToolRegistry Args)
      (allowed : Option (List String)) (max_permission : Permission)
      (d : Dict.Dict (String × String) (List ℕ))
      → IsPermitted r allowed max_permission x
      → IsGuarded r
          (call_checked env x (d, c) r).0
          allowed
          x.caller
          x.approved
          max_permission
          x.tool
          (some x.arguments)
  unfolding call_checked execute
  call_checked-IsGuarded env x (some code) r allowed max_permission d p = record {
    same_tools = refl;
    effect = inl refl;
  }
  call_checked-IsGuarded env x none r allowed max_permission d p = record {
    same_tools = refl;
    effect = inr (x, refl, p, refl, refl, refl, refl);
  }

  call_tool-IsGuarded :
      (env : ℕ → Handled) (now : ℕ) (t : Tool Args) (name : String) (args : Option Args)
      (allowed : Option (List String)) (caller : String) (approved : Bool)
      (max_permission : Permission) (r : ToolRegistry Args)
      → Dict.get String-discrete name r.tools ≡ some t
      → IsGuarded r
          (call_tool env now t name args allowed caller approved max_permission r).0
          allowed
          caller
          approved
          max_permission
          name
          args
  unfolding call_tool
  call_tool-IsGuarded env now t name none allowed caller approved max_permission r e =
      elim (Option-cases (refusal allowed approved max_permission none t name)) [
        | inl h ↦ rw (h, call_tool) (record { same_tools = refl; effect = inl refl })
        | inr (c, h) ↦ rw (h, call_tool) (record { same_tools = refl; effect = inl refl })
      ]
  call_tool-IsGuarded env now t name (some args) allowed caller approved max_permission r e =
      elim (Option-cases (refusal allowed approved max_permission (some args) t name)) [
        | inr (c, h) ↦ rw (h, call_tool) (record { same_tools = refl; effect = inl refl })
        | inl h ↦
            let p = passed allowed approved max_permission args t name h in
            rw (h, call_tool)
              (call_checked-IsGuarded env
                (record {
                  tool = name;
                  arguments = args;
                  caller = caller;
                  approved = approved;
                  permission = t.permission;
                })
                (check_rate (caller, t.name) t.rate_per_minute now r.hits).1 r allowed
                max_permission _
                (record {
                  tool_of = t;
                  registered = e;
                  named = p.0;
                  within = p.1;
                  fits = p.2;
                  same_permission = refl;
                  approval = p.3;
                }))
      ]

  -- A call runs a handler at most once, and only that of a registered tool which the caller is
  -- allowed, whose permission is within the limit, whose schema the arguments fit, and which was
  -- approved if it is destructive; otherwise it changes nothing but the rate windows.
  pub call-IsGuarded :
      (env : ℕ → Handled) (now : ℕ) (name : String) (args : Option Args)
      (allowed : Option (List String)) (caller : String) (approved : Bool)
      (max_permission : Permission) (r : ToolRegistry Args)
      → IsGuarded r
          (call env now name args allowed caller approved max_permission r).0
          allowed
          caller
          approved
          max_permission
          name
          args
  unfolding call
  call-IsGuarded env now name args allowed caller approved max_permission r =
      elim (Option-cases (Dict.get String-discrete name r.tools)) [
        | inl h ↦ rw (h, call) (record { same_tools = refl; effect = inl refl })
        | inr (t, h) ↦
            rw (h, call)
              (call_tool-IsGuarded env now t name args allowed caller approved max_permission r h)
      ]
