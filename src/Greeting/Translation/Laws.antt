-- ===== src/Greeting/Translation/Laws.antt =====
-- How often the model is called for a greeting.
use oss_us_web_design_system.Base.{
  ℕ, zero, suc, ◌+◌, ◌<◌, ◌≤◌, ◌≡◌, ◌⊎◌, refl, Bool, some, List, [], ◌∷◌, ◌++◌, arith, Bool-cases,
  Option-cases, Result-cases, inl, inr, Text, codes,
}
use oss_us_web_design_system.Greeting.Templates.{template_of}
use oss_us_web_design_system.Greeting.Translation.{
  Services, Transport, ToolSpec, Reply, ChatMessage, run_calls, complete, tool_loop, tools_for,
  ask_model, try_llm_translate, translate, after_first, max_tool_iterations, assistant_message,
  user_message, greeting_prompt,
}
use oss_us_web_design_system.Llm.Keys.{resolve_api_key}

List-cases : {A : Type 0} (xs : List A) → (xs ≡ []) ⊎ ((x : A) × (ys : List A) × (xs ≡ x ∷ ys))
List-cases [] = inl refl
List-cases (x ∷ ys) = inr (x, ys, refl)

module _ (env : Services) (t t' : Transport) (org_id : ℕ) (bound : ℕ)
    (same : (key : Text) (ms : List ChatMessage) (tools : List ToolSpec) (n : ℕ)
      → n < bound
      → t key ms tools n ≡ t' key ms tools n) where
  complete-same :
      (ms : List ChatMessage) (tools : List ToolSpec) (n : ℕ)
      → n < bound
      → complete env t org_id ms tools n ≡ complete env t' org_id ms tools n
  unfolding complete
  complete-same ms tools n h =
      elim (Result-cases
        (resolve_api_key env.cipher env.settings (codes "openai") (some org_id) env.keys).0) [
          | inl (key, e) ↦ rw (complete, e) (same key ms tools n h)
          | inr (x, e) ↦ rw (complete, e) refl
        ]

  tool_loop-same :
      (left n : ℕ) (tools : List ToolSpec) (ms : List ChatMessage) (used : List Text)
      (reply : Reply)
      → n + left ≤ bound
      → tool_loop env t org_id left n tools ms used reply
        ≡ tool_loop env t' org_id left n tools ms used reply
  unfolding tool_loop
  tool_loop-same zero n tools ms used reply h = refl
  tool_loop-same (suc left) n tools ms used reply h = elim (List-cases reply.tool_calls) [
    | inl e ↦ rw (tool_loop, e) refl
    | inr (c, cs, e) ↦ elim (Result-cases (run_calls env org_id (c ∷ cs))) [
      | inr (x, f) ↦ rw (tool_loop, e, f) refl
      | inl ((answers, names), f) ↦
          let sent = ms ++ assistant_message reply ∷ answers in
          let q = complete-same sent tools n (omega (arith, h)) in
          elim (Result-cases (complete env t' org_id sent tools n)) [
            | inr (x, g) ↦ rw (tool_loop, e, f, q, g) refl
            | inl (next, g) ↦
                rw (tool_loop, e, f, q, g)
                  (tool_loop-same left (suc n) tools sent (used ++ names) next (omega (arith, h)))
          ]
    ]
  ]

  after_first-same :
      (tools : List ToolSpec) (ms : List ChatMessage) (reply : Reply)
      → 4 ≤ bound
      → after_first env t org_id tools ms reply ≡ after_first env t' org_id tools ms reply
  unfolding after_first
  after_first-same [] ms reply h = refl
  after_first-same (s ∷ ss) ms reply h = tool_loop-same max_tool_iterations 1 (s ∷ ss) ms [] reply h

  ask_model-same :
      (name locale : Text) (tools : List ToolSpec)
      → 4 ≤ bound
      → ask_model env t org_id name locale tools ≡ ask_model env t' org_id name locale tools
  unfolding ask_model
  ask_model-same name locale tools h =
      let ms = user_message (greeting_prompt name locale) ∷ [] in
      let q = complete-same ms tools 0 (omega (arith, h)) in
      elim (Result-cases (complete env t' org_id ms tools 0)) [
        | inr (x, g) ↦ rw (ask_model, q, g) refl
        | inl (reply, g) ↦ rw (ask_model, q, g) (after_first-same tools ms reply h)
      ]

  try_llm_translate-same :
      (name locale : Text)
      → 4 ≤ bound
      → try_llm_translate env t org_id name locale ≡ try_llm_translate env t' org_id name locale
  unfolding try_llm_translate tools_for
  try_llm_translate-same name locale h =
      rw (try_llm_translate, ask_model-same name locale (tools_for env t' org_id) h) refl

-- A greeting calls the model at most four times, whatever tools the replies ask for: transports
-- that answer the first four calls alike give the same greeting.
pub translate-transport :
    (env : Services) (t t' : Transport) (org_id : ℕ) (name locale tenant_default_locale : Text)
    (use_llm : Bool)
    → ((key : Text) (ms : List ChatMessage) (tools : List ToolSpec) (n : ℕ)
        → n < 4
        → t key ms tools n ≡ t' key ms tools n)
    → translate env t org_id name locale tenant_default_locale use_llm
      ≡ translate env t' org_id name locale tenant_default_locale use_llm
unfolding translate
translate-transport env t t' org_id name locale tenant_default_locale use_llm same =
    let q = try_llm_translate-same env t t' org_id 4 same name locale (omega arith) in
    elim (Option-cases (template_of locale)) [
      | inr (x, e) ↦ rw (translate, e) refl
      | inl e ↦ elim (Bool-cases use_llm) [
        | inl f ↦ rw (translate, e, f, q) refl
        | inr f ↦ rw (translate, e, f) refl
      ]
    ]
