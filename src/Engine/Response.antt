-- ===== src/Engine/Response.antt =====
-- src/engine/provider.rs: EngineClient::parse_non_stream, and its agreement with consume_stream.
use anser.Prelude.{◌∙◌, Option-cases, ℕ, suc, ◌≡◌, refl, Option, none, some, List, [], ◌∷◌, ◌++◌}
use anser.Prelude.Text.{Text, codes}
use anser.Prelude.Dict.{Dict}
use anser.Prelude.{inl, inr, sym, ◌∙◌, Option-cases}
use mathlib.Core.List.{append-nil}
use anser.Json.{Value, null, parsed, invalid, get, get_in, str_in, u64_in, elements}
use anser.Engine.{ToolCall, malformed}
use anser.Engine.Stream.{
  add_choice, add_choices, add_delta, add_call, add_calls, add_content, Reply, Answer, failed, Env,
  or_value, or_else, empty_reply, assemble, add_frame,
}

-- A call of the answer that stands at a position.
unfoldable pub whole_call : ℕ → Value → ToolCall
unfolding get get_in str_in
whole_call i tc = record {
  index = i;
  id = or_value (str_in (get "id" tc)) "";
  name = or_value (str_in (get_in "name" (get "function" tc))) "";
  arguments = or_value (str_in (get_in "arguments" (get "function" tc))) "";
}

unfoldable pub whole_calls : ℕ → List Value → Dict ℕ ToolCall
unfolding whole_call
whole_calls i [] = []
whole_calls i (tc ∷ tcs) = (i, whole_call i tc) ∷ whole_calls (suc i) tcs

-- The first of the choices.
unfoldable pub first_choice : Value → Option Value
unfolding get elements
first_choice body = elim (elements (get "choices" body)) [ [] ↦ none | c ∷ cs ↦ some c ]

unfoldable pub text_in : Option Value → Text
unfolding str_in
text_in v = elim (str_in v) [ none ↦ [] | some s ↦ codes s ]

abbrev first_reading : Text → Dict ℕ ToolCall → ℕ → Option ℕ
first_reading [] [] first = none
first_reading _ _ first = some first

unfoldable pub whole_reply : ℕ → Value → Value → Reply
unfolding whole_calls text_in get get_in u64_in elements
whole_reply first body choice =
    let msg = or_value (get "message" choice) null in
    let content = text_in (get "content" msg) in
    let tool_calls = whole_calls 0 (elements (get "tool_calls" msg)) in
    record {
      content = content;
      finish_reason = str_in (get "finish_reason" choice);
      ttft = first_reading content tool_calls first;
      completion_tokens = u64_in (get_in "completion_tokens" (get "usage" body));
      tool_calls = tool_calls;
    }

unfoldable pub parse_body : Env → Value → Answer
unfolding first_choice whole_reply assemble
parse_body e body = elim (first_choice body) [
  | none ↦ failed (malformed "no choices in response")
  | some choice ↦ assemble e.total (whole_reply e.first body choice)
]

unfoldable pub parse_non_stream : Env → Text → Answer
unfolding parse_body
parse_non_stream e raw = elim (e.from_str raw) [
  | invalid detail ↦ failed (malformed detail)
  | parsed body ↦ parse_body e body
]

or_else-none {ℓ} : {A : Type ℓ} (o : Option A) → or_else o none ≡ o
or_else-none none = refl
or_else-none (some a) = refl

-- Calls of tools do not bear on the rest of a reply.
record SameText (r s : Reply) : Type 0 where
  content : r.content ≡ s.content
  finish_reason : r.finish_reason ≡ s.finish_reason
  completion_tokens : r.completion_tokens ≡ s.completion_tokens

SameText-refl : (r : Reply) → SameText r r
SameText-refl r = record { content = refl; finish_reason = refl; completion_tokens = refl }

SameText-add_call : (e : Env) (r : Reply) (tc : Value) → SameText (add_call e r tc) r
unfolding add_call
SameText-add_call e r tc = elim (Option-cases (u64_in (get "index" tc))) [
  | inl n ↦ rw (n, add_call) (SameText-refl r)
  | inr (idx, n) ↦
      rw (n, add_call) (record { content = refl; finish_reason = refl; completion_tokens = refl })
]

SameText-add_calls : (e : Env) (tcs : List Value) (r : Reply) → SameText (add_calls e r tcs) r
unfolding add_calls
SameText-add_calls e [] r = SameText-refl r
SameText-add_calls e (tc ∷ tcs) r =
    let first = SameText-add_call e r tc in
    let later = SameText-add_calls e tcs (add_call e r tc) in
    record {
      content = later.content ∙ first.content;
      finish_reason = later.finish_reason ∙ first.finish_reason;
      completion_tokens = later.completion_tokens ∙ first.completion_tokens;
    }

-- Content that arrives as one string.
record Holds (r s : Reply) (text : Text) : Type 0 where
  content : s.content ≡ r.content ++ text
  finish_reason : s.finish_reason ≡ r.finish_reason
  completion_tokens : s.completion_tokens ≡ r.completion_tokens

Holds-add_content :
    (e : Env) (r : Reply) (v : Option Value) → Holds r (add_content e r (str_in v)) (text_in v)
unfolding add_content text_in
Holds-add_content e r v = elim (Option-cases (str_in v)) [
  | inl n ↦
      rw (n, text_in, add_content)
        (record { content = sym (append-nil _); finish_reason = refl; completion_tokens = refl })
  | inr (c, n) ↦
      rw (n, text_in, add_content)
        (record { content = refl; finish_reason = refl; completion_tokens = refl })
]

Holds-add_delta :
    (e : Env) (r : Reply) (message : Value)
    → Holds r (add_delta e r (some message)) (text_in (get "content" message))
unfolding add_delta
Holds-add_delta e r message =
    let first = Holds-add_content e r (get "content" message) in
    let later =
      SameText-add_calls e (elements (get "tool_calls" message))
        (add_content e r (str_in (get "content" message))) in
    record {
      content = later.content ∙ first.content;
      finish_reason = later.finish_reason ∙ first.finish_reason;
      completion_tokens = later.completion_tokens ∙ first.completion_tokens;
    }

-- The same body read as the single frame of a stream: where it has one choice, which carries its
-- message as a `message`, the frame gives the reply the same content, finish reason and number of
-- tokens.
pub add_frame-whole_reply :
    (e : Env) (body choice message : Value)
    → elements (get "choices" body) ≡ choice ∷ []
    → get "delta" choice ≡ none
    → get "message" choice ≡ some message
    → ((add_frame e empty_reply body).content ≡ (whole_reply e.first body choice).content)
      × ((add_frame e empty_reply body).finish_reason
          ≡ (whole_reply e.first body choice).finish_reason)
      × ((add_frame e empty_reply body).completion_tokens
          ≡ (whole_reply e.first body choice).completion_tokens)
unfolding add_frame add_choices add_choice whole_reply
add_frame-whole_reply e body choice message one no_delta has =
    let held = Holds-add_delta e _ message in
    rw (one, no_delta, has, whole_reply)
      (held.content, held.finish_reason ∙ or_else-none _, held.completion_tokens ∙ or_else-none _)
