-- ===== src/Engine/Stream.antt =====
-- src/engine/provider.rs: EngineClient::consume_stream and parse_non_stream, which read a completion
-- from a response.
pub mod Lines
pub mod Slots
use anser.Prelude.{
  ◌+◌, ℕ, zero, suc, ◌/◌, ◌<>◌, max, String, Option, none, some, List, [], ◌∷◌, ◌++◌, map, ltb,
  ◌==◌, nat_key, if◌then◌else◌,
}
use anser.Prelude.Text.{text_key, Text, codes, trim, strip_prefix}
use anser.Prelude.Dict.{Dict}
use anser.Prelude.Lines.{Flow, go, stop, feed_line}
use anser.Json.{
  Value, null, Parsed, parsed, invalid, get, get_in, str_in, u64_in, elements, as_array,
}
use anser.Engine.{ToolCall, Completion, EngineError, sse, malformed}

-- A rate is the number of tokens against the total time. Times are clock readings.
pub record Metrics : Type 0 where
  pub ttft : Option ℕ
  pub total : ℕ
  pub tokens_per_sec : Option (ℕ × ℕ)
  pub completion_tokens : Option ℕ

-- The locals of `consume_stream`; the calls stand in the order of their indices.
pub record Reply : Type 0 where
  pub content : Text
  pub finish_reason : Option String
  pub ttft : Option ℕ
  pub completion_tokens : Option ℕ
  pub tool_calls : Dict ℕ ToolCall

abbrev pub empty_reply : Reply
empty_reply = record {
  content = [];
  finish_reason = none;
  ttft = none;
  completion_tokens = none;
  tool_calls = [];
}

pub data Answer : Type 0 where
  answered : Completion → Metrics → Answer
  failed : EngineError → Answer

-- A chunk of the response's bytes, or the error of the transport.
pub data Chunk : Type 0 where
  bytes : Text → Chunk
  broken : (detail : String) → Chunk

-- What the client reads from libraries and from the clock: `first` is the reading that `ttft` takes
-- and `total` the one of `assemble`; there is no other.
pub record Env : Type 0 where
  pub from_utf8_lossy : Text → Text
  pub from_str : Text → Parsed
  pub first : ℕ
  pub total : ℕ

-- `Option::or`.
abbrev pub or_else {ℓ} : {A : Type ℓ} → Option A → Option A → Option A
or_else none b = b
or_else (some a) b = some a

abbrev pub or_value {ℓ} : {A : Type ℓ} → Option A → A → A
or_value none b = b
or_value (some a) b = a

-- The bytes of a character and of a text in UTF-8.
unfoldable pub utf8_width : ℕ → ℕ
utf8_width c = if ltb c 0x80 then 1 else if ltb c 0x800 then 2 else if ltb c 0x10000 then 3 else 4

unfoldable pub utf8_len : Text → ℕ
unfolding utf8_width
utf8_len [] = 0
utf8_len (c ∷ cs) = utf8_width c + utf8_len cs

unfoldable pub estimate : Text → Option ℕ
unfolding utf8_len
estimate [] = none
estimate (c ∷ cs) = some (max (utf8_len (c ∷ cs) / 4) 1)

unfoldable pub assemble : ℕ → Reply → Answer
unfolding estimate
assemble total r =
    answered
      (record {
        content = r.content;
        tool_calls = map (λ (_, call). call) r.tool_calls;
        finish_reason = r.finish_reason;
      })
      (record {
        ttft = r.ttft;
        total = total;
        tokens_per_sec = elim (or_else r.completion_tokens (estimate r.content)) [
          | none ↦ none
          | some tokens ↦ some (tokens, total)
        ];
        completion_tokens = r.completion_tokens;
      })

abbrev pub default_call : ToolCall
default_call = record { index = 0; id = ""; name = ""; arguments = "" }

-- `entry(k).or_default()` with a change of the slot.
unfoldable pub change_slot : ℕ → (ToolCall → ToolCall) → Dict ℕ ToolCall → Dict ℕ ToolCall
change_slot k change [] = (k, change default_call) ∷ []
change_slot k change ((j, call) ∷ d) =
    let rest = change_slot k change d in
    if k == j
    then (j, change call) ∷ d
    else if ltb k j
    then (k, change default_call) ∷ (j, call) ∷ d
    else (j, call) ∷ rest

-- A fragment of a tool call: its id and name replace, its arguments append.
unfoldable pub fill : Value → ToolCall → ToolCall
unfolding get get_in str_in
fill tc slot = record slot {
  id = or_value (str_in (get "id" tc)) slot.id;
  name = or_value (str_in (get_in "name" (get "function" tc))) slot.name;
  arguments = slot.arguments <> or_value (str_in (get_in "arguments" (get "function" tc))) "";
}

module _ (e : Env) where
  unfoldable pub add_call : Reply → Value → Reply
  unfolding get u64_in change_slot fill
  add_call r tc = elim (u64_in (get "index" tc)) [
    | none ↦ r
    | some idx ↦ record r {
      ttft = or_else r.ttft (some e.first);
      tool_calls = change_slot idx (fill tc) r.tool_calls;
    }
  ]

  unfoldable pub add_calls : Reply → List Value → Reply
  unfolding add_call
  add_calls r [] = r
  add_calls r (tc ∷ tcs) = add_calls (add_call r tc) tcs

  unfoldable pub add_content : Reply → Option String → Reply
  add_content r none = r
  add_content r (some c) = record r {
    ttft = elim (codes c) [ [] ↦ r.ttft | _ ∷ _ ↦ or_else r.ttft (some e.first) ];
    content = r.content ++ codes c;
  }

  unfoldable pub add_delta : Reply → Option Value → Reply
  unfolding add_content add_calls get str_in elements
  add_delta r none = r
  add_delta r (some delta) =
      add_calls (add_content r (str_in (get "content" delta))) (elements (get "tool_calls" delta))

  unfoldable pub add_choice : Reply → Value → Reply
  unfolding add_delta get str_in
  add_choice r choice =
      add_delta
        (record r { finish_reason = or_else (str_in (get "finish_reason" choice)) r.finish_reason })
        (or_else (get "delta" choice) (get "message" choice))

  unfoldable pub add_choices : Reply → List Value → Reply
  unfolding add_choice
  add_choices r [] = r
  add_choices r (c ∷ cs) = add_choices (add_choice r c) cs

  unfoldable pub add_frame : Reply → Value → Reply
  unfolding add_choices get get_in u64_in elements
  add_frame r frame =
      add_choices
        (record r {
          completion_tokens =
              or_else (u64_in (get_in "completion_tokens" (get "usage" frame))) r.completion_tokens;
        })
        (elements (get "choices" frame))

  -- The payload of one line, trimmed.
  unfoldable pub read_payload : Text → Reply → Flow Reply Answer
  unfolding add_frame assemble
  read_payload payload r =
      if payload == codes "[DONE]"
      then stop (assemble e.total r)
      else if payload == []
      then go r
      else elim (e.from_str payload) [
        | parsed frame ↦ go (add_frame r frame)
        | invalid detail ↦ stop (failed (sse detail))
      ]

  -- One line of the buffer, whose newline was drained with it.
  unfoldable pub read_line : Text → Reply → Flow Reply Answer
  unfolding read_payload
  read_line line r =
      elim (strip_prefix (trim (e.from_utf8_lossy (line ++ 10 ∷ []))) (codes "data:")) [
        | none ↦ go r
        | some payload ↦ read_payload (trim payload) r
      ]

  unfoldable pub read_chunks : List Chunk → Text × Reply → Answer
  unfolding assemble feed_line read_line
  read_chunks [] (buf, r) = assemble e.total r
  read_chunks (broken detail ∷ chunks) at = failed (sse detail)
  read_chunks (bytes chunk ∷ chunks) at = elim (feed_line read_line chunk at) [
    | go next ↦ read_chunks chunks next
    | stop answer ↦ answer
  ]

  unfoldable pub consume_stream : List Chunk → Answer
  unfolding read_chunks
  consume_stream chunks = read_chunks chunks ([], empty_reply)
