-- ===== src/Engine/Stream/Slots.antt =====
-- src/engine/provider.rs: what consume_stream makes of the fragments of tool calls.
use anser.Prelude.{
  ℕ, ◌<◌, ◌≤◌, ◌≡◌, refl, ap, sym, ◌∙◌, String, ◌<>◌, Option, none, some, List, [], ◌∷◌, ◌++◌, inl,
  inr, if◌then◌else◌, Bool-cases, Option-cases, All, arith, ◌==◌, nat_key, nat_eqb_iff,
}
use text.Mathlib.TextLemmas.{append_assoc, append-nil, nil-append}
use anser.Prelude.Dict.{Dict, lookup}
use anser.Json.{Value, get, get_in, str_in, u64_in, elements}
use anser.Engine.{ToolCall}
use anser.Engine.Stream.{
  Reply, Env, change_slot, fill, add_call, add_calls, add_content, add_delta, add_choice,
  add_choices, add_frame, or_else, or_value, default_call,
}

abbrev Above : ℕ → Dict ℕ ToolCall → Type 0
Above k d = All (λ (j, _). k < j) d

-- One slot for an index, in ascending order.
abbrev pub Ascending : Dict ℕ ToolCall → Type 0
Ascending [] = Unit {0}
Ascending ((j, _) ∷ d) = Above j d × Ascending d

lookup-Above : (k j : ℕ) (d : Dict ℕ ToolCall) → Above j d → k ≤ j → lookup k d ≡ none
unfolding lookup
lookup-Above k j [] h le = refl
lookup-Above k j ((i, call) ∷ d) (lt, h) le = ground (arith, lookup-Above k j d h le)

Above-le : (k j : ℕ) (d : Dict ℕ ToolCall) → Above j d → k ≤ j → Above k d
Above-le k j [] h le = tt
Above-le k j ((i, call) ∷ d) (lt, h) le = (omega arith, Above-le k j d h le)

Above-change_slot :
    (m k : ℕ) (change : ToolCall → ToolCall) (d : Dict ℕ ToolCall)
    → Above m d
    → m < k
    → Above m (change_slot k change d)
unfolding change_slot
Above-change_slot m k change [] h lt = (lt, tt)
Above-change_slot m k change ((j, call) ∷ d) (at, h) lt =
    ground (arith, Above-change_slot m k change d h lt)

Ascending-change_slot :
    (k : ℕ) (change : ToolCall → ToolCall) (d : Dict ℕ ToolCall)
    → Ascending d
    → Ascending (change_slot k change d)
unfolding change_slot
Ascending-change_slot k change [] h = (tt, tt)
Ascending-change_slot k change ((j, call) ∷ d) (above, h) = ground (
  arith,
  Ascending-change_slot k change d h,
  Above-change_slot j k change d above,
  Above-le k j d above,
)

lookup-change_slot :
    (j k : ℕ) (change : ToolCall → ToolCall) (d : Dict ℕ ToolCall)
    → Ascending d
    → lookup j (change_slot k change d)
      ≡ (if j == k then some (change (or_value (lookup k d) default_call)) else lookup j d)
unfolding change_slot lookup
lookup-change_slot j k change [] h = ground arith
lookup-change_slot j k change ((i, call) ∷ d) (above, h) =
    ground (arith, lookup-change_slot j k change d h, lookup-Above k i d above)

-- The arguments that the slot of an index holds.
abbrev pub arguments_at : ℕ → Dict ℕ ToolCall → String
arguments_at k d = (or_value (lookup k d) default_call).arguments

-- The fragment that a value carries for an index.
abbrev pub fragment : ℕ → Value → String
fragment k tc = elim (u64_in (get "index" tc)) [
  | none ↦ ""
  | some idx ↦
      if k == idx then or_value (str_in (get_in "arguments" (get "function" tc))) "" else ""
]

abbrev pub fragments : ℕ → List Value → String
fragments k [] = ""
fragments k (tc ∷ tcs) = fragment k tc <> fragments k tcs

-- The values that a frame brings for tool calls, choice after choice.
abbrev pub choice_calls : Value → List Value
choice_calls choice =
    elements (get_in "tool_calls" (or_else (get "delta" choice) (get "message" choice)))

abbrev pub choices_calls : List Value → List Value
choices_calls [] = []
choices_calls (c ∷ cs) = choice_calls c ++ choices_calls cs

abbrev pub frame_calls : Value → List Value
frame_calls frame = choices_calls (elements (get "choices" frame))

fragments-append :
    (k : ℕ) (xs ys : List Value) → fragments k (xs ++ ys) ≡ fragments k xs <> fragments k ys
fragments-append k [] ys = sym (nil-append (fragments k ys))
fragments-append k (x ∷ xs) ys =
    ap (λ t. fragment k x <> t) (fragments-append k xs ys)
    ∙ sym (append_assoc (fragment k x) (fragments k xs) (fragments k ys))

-- The slots before some values and after them.
record Gathers (before after : Dict ℕ ToolCall) (tcs : List Value) : Type 0 where
  ascending : Ascending after
  arguments : (k : ℕ) → arguments_at k after ≡ arguments_at k before <> fragments k tcs

Gathers-nil : (d : Dict ℕ ToolCall) → Ascending d → Gathers d d []
Gathers-nil d h = record { ascending = h; arguments = λ k. sym (append-nil _) }

Gathers-append :
    (a b c : Dict ℕ ToolCall) (xs ys : List Value)
    → Gathers a b xs
    → Gathers b c ys
    → Gathers a c (xs ++ ys)
Gathers-append a b c xs ys f g = record {
  ascending = g.ascending;
  arguments = λ k.
      g.arguments k
      ∙ ap (λ t. t <> fragments k ys) (f.arguments k)
      ∙ append_assoc (arguments_at k a) (fragments k xs) (fragments k ys)
      ∙ ap (λ t. arguments_at k a <> t) (sym (fragments-append k xs ys));
}

-- The slots after a value, by the index that it has.
abbrev slots : Option ℕ → Value → Dict ℕ ToolCall → Dict ℕ ToolCall
slots none tc d = d
slots (some idx) tc d = change_slot idx (fill tc) d

arguments-fill :
    (k idx : ℕ) (tc : Value) (d : Dict ℕ ToolCall)
    → (or_value
        (if k == idx then some (fill tc (or_value (lookup idx d) default_call)) else lookup k d)
        default_call).arguments
      ≡ arguments_at k d
        <> (if k == idx then or_value (str_in (get_in "arguments" (get "function" tc))) "" else "")
unfolding fill
arguments-fill k idx tc d = elim (Bool-cases (k == idx)) [
  | inl same ↦ rw (same, (nat_eqb_iff k idx).0 same) refl
  | inr other ↦ rw other (sym (append-nil _))
]

arguments_at-slots :
    (k : ℕ) (o : Option ℕ) (tc : Value) (d : Dict ℕ ToolCall)
    → Ascending d
    → arguments_at k (slots o tc d)
      ≡ arguments_at k d <> elim o [
        | none ↦ ""
        | some idx ↦
            if k == idx then or_value (str_in (get_in "arguments" (get "function" tc))) "" else ""
      ]
arguments_at-slots k none tc d h = sym (append-nil _)
arguments_at-slots k (some idx) tc d h =
    ap (λ o. (or_value o default_call).arguments) (lookup-change_slot k idx (fill tc) d h)
    ∙ arguments-fill k idx tc d

Ascending-slots :
    (o : Option ℕ) (tc : Value) (d : Dict ℕ ToolCall) → Ascending d → Ascending (slots o tc d)
Ascending-slots none tc d h = h
Ascending-slots (some idx) tc d h = Ascending-change_slot idx (fill tc) d h

module _ (e : Env) where
  slots-add_call :
      (r : Reply) (tc : Value)
      → (add_call e r tc).tool_calls ≡ slots (u64_in (get "index" tc)) tc r.tool_calls
  unfolding add_call
  slots-add_call r tc = elim (Option-cases (u64_in (get "index" tc))) [
    | inl n ↦ rw (n, add_call) refl
    | inr (idx, n) ↦ rw (n, add_call) refl
  ]

  Gathers-add_call :
      (r : Reply) (tc : Value)
      → Ascending r.tool_calls
      → Gathers r.tool_calls (add_call e r tc).tool_calls (tc ∷ [])
  Gathers-add_call r tc h = rw slots-add_call (record {
    ascending = Ascending-slots (u64_in (get "index" tc)) tc r.tool_calls h;
    arguments =
        λ k. rw append-nil (arguments_at-slots k (u64_in (get "index" tc)) tc r.tool_calls h);
  })

  Gathers-add_calls :
      (r : Reply) (tcs : List Value)
      → Ascending r.tool_calls
      → Gathers r.tool_calls (add_calls e r tcs).tool_calls tcs
  unfolding add_calls
  Gathers-add_calls r [] h = Gathers-nil r.tool_calls h
  Gathers-add_calls r (tc ∷ tcs) h =
      let first = Gathers-add_call r tc h in
      Gathers-append _ _ _ (tc ∷ []) tcs first
        (Gathers-add_calls (add_call e r tc) tcs first.ascending)

  -- The content does not bear on the slots.
  Gathers-add_content :
      (r : Reply) (o : Option String) (tcs : List Value)
      → Ascending r.tool_calls
      → Gathers r.tool_calls (add_calls e (add_content e r o) tcs).tool_calls tcs
  unfolding add_content
  Gathers-add_content r none tcs h = Gathers-add_calls r tcs h
  Gathers-add_content r (some c) tcs h = Gathers-add_calls (add_content e r (some c)) tcs h

  Gathers-add_delta :
      (r : Reply) (delta : Option Value)
      → Ascending r.tool_calls
      → Gathers r.tool_calls (add_delta e r delta).tool_calls (elements (get_in "tool_calls" delta))
  unfolding add_delta elements get_in
  Gathers-add_delta r none h = Gathers-nil r.tool_calls h
  Gathers-add_delta r (some delta) h =
      Gathers-add_content r (str_in (get "content" delta)) (elements (get "tool_calls" delta)) h

  Gathers-add_choices :
      (r : Reply) (cs : List Value)
      → Ascending r.tool_calls
      → Gathers r.tool_calls (add_choices e r cs).tool_calls (choices_calls cs)
  unfolding add_choices add_choice
  Gathers-add_choices r [] h = Gathers-nil r.tool_calls h
  Gathers-add_choices r (c ∷ cs) h =
      let first =
        Gathers-add_delta
          (record r { finish_reason = or_else (str_in (get "finish_reason" c)) r.finish_reason })
          (or_else (get "delta" c) (get "message" c)) h in
      Gathers-append _ _ _ (choice_calls c) (choices_calls cs) first
        (Gathers-add_choices (add_choice e r c) cs first.ascending)

  -- A frame leaves one slot per index, in ascending order, and appends to the arguments of each slot
  -- the fragments of its index, choice after choice in their order, where the slots that were there
  -- ascended.
  pub arguments_at-add_frame :
      (r : Reply) (frame : Value)
      → Ascending r.tool_calls
      → Ascending (add_frame e r frame).tool_calls
        × ((k : ℕ)
            → arguments_at k (add_frame e r frame).tool_calls
              ≡ arguments_at k r.tool_calls <> fragments k (frame_calls frame))
  unfolding add_frame
  arguments_at-add_frame r frame h =
      let all =
        Gathers-add_choices
          (record r {
            completion_tokens =
                or_else (u64_in (get_in "completion_tokens" (get "usage" frame)))
                  r.completion_tokens;
          })
          (elements (get "choices" frame)) h in
      (all.ascending, all.arguments)
