-- ===== src/Runner/Loop/Landing.antt =====
-- Cooperative landing in src/runner/mod.rs: what the engine reads in the last turns of a budget.
use anser.Prelude.{
  ℕ, suc, ◌-◌, ◌≤◌, ◌≡◌, refl, sym, ◌∙◌, ◌⊎◌, inl, inr, String, true, false, not, ◌&&◌, Option,
  none, some, List, [], ◌∷◌, ◌++◌, arith, Bool-cases, Option-cases, leb, Listed,
}
use mathlib.Core.Path.{subst}
use anser.Prelude.Text.{Text}
use anser.Engine.{ToolCall, Message, Completion, EngineError}
use anser.Runner.Detector.{LoopState, ok, advisory, loop_detected, LoopDetector, record_action}
use anser.Runner.Session.{
  landing_window, RunnerError, Event, dispatch, tool_result, Runner, Session, is_empty, msg,
  tool_msg, assistant_msg,
}
use anser.Runner.Steps.{
  push_message, append, chat, execute, judged, run_logged, run_call, run_calls, is_error,
  advisory_text,
}
use anser.Runner.Loop.Budget.{Concluded, conclude-Concluded}
use anser.Runner.Loop.Promises.{unmetered}
use anser.Runner.Loop.{
  Next, again, ended, fault, land, landing_notice, turn, turn_reply, turn_logged, after_calls,
  conclude, start,
}

-- The messages of `s` are kept, and so is the mark of the landing.
abbrev Grows : {W : Type 0} → Session W → Session W → Type 0
Grows s s' =
    ((m : Message) → Listed m s.messages → Listed m s'.messages)
    × (s'.landing_injected ≡ s.landing_injected)

Listed-append : (m : Message) (xs ys : List Message) → Listed m xs → Listed m (xs ++ ys)
Listed-append m [] ys h = elim h [ ]
Listed-append m (x ∷ xs) ys (inl e) = inl e
Listed-append m (x ∷ xs) ys (inr h) = inr (Listed-append m xs ys h)

Listed-append_last : (m : Message) (xs : List Message) → Listed m (xs ++ m ∷ [])
Listed-append_last m [] = inl refl
Listed-append_last m (x ∷ xs) = inr (Listed-append_last m xs)

module _ {W : Type 0} (r : Runner W) where
  Grows-trans : (s t u : Session W) → Grows s t → Grows t u → Grows s u
  Grows-trans s t u (f, e) (g, e') = (λ m h. g m (f m h), e' ∙ e)

  push_message-Grows : (m : Message) (s : Session W) → Grows s (push_message m s)
  unfolding push_message
  push_message-Grows m s = (λ x h. Listed-append x s.messages (m ∷ []) h, refl)

  append-messages :
      (e : Event) (s : Session W)
      → ((append r e s).1.messages ≡ s.messages)
        × ((append r e s).1.landing_injected ≡ s.landing_injected)
  unfolding append
  append-messages e s = ground arith

  append-Grows : (e : Event) (s : Session W) → Grows s (append r e s).1
  append-Grows e s =
      let (same, mark) = append-messages e s in
      (λ m h. subst (λ ms. Listed m ms) (sym same) h, mark)

  judged-Grows :
      (tc : ToolCall) (d : LoopState × LoopDetector) (s : Session W) → Grows s (judged tc d s).1
  unfolding judged
  judged-Grows tc (ok, d) s = (λ m h. h, refl)
  judged-Grows tc (advisory, d) s =
      push_message-Grows (msg "user" (advisory_text tc.name)) (record s { loop_detector = d })
  judged-Grows tc (loop_detected, d) s = (λ m h. h, refl)

  Grows-run_logged :
      (tc : ToolCall) (s : Session W) (p : Option String × Session W)
      → Grows s p.1
      → Grows s (run_logged r tc p).1
  unfolding run_logged
  Grows-run_logged tc s (some e, s') h = h
  Grows-run_logged tc s (none, s') h =
      let d = record_action r.hash_action tc.name tc.arguments s'.loop_detector in
      Grows-trans s s' (judged tc d s').1 h (judged-Grows tc d s')

  run_call-Grows : (tc : ToolCall) (s : Session W) → Grows s (run_call r tc s).1
  unfolding run_call execute
  run_call-Grows tc s =
      let (text, s1) = execute r tc s in
      let s2 = push_message (tool_msg tc text) (record s1 { tool_activity = true }) in
      let line = tool_result s2.turns tc.id tc.name (is_error text) none in
      Grows-run_logged tc s (append r line s2) (
        Grows-trans s s2 (append r line s2).1
          (push_message-Grows (tool_msg tc text) (record s1 { tool_activity = true }))
          (append-Grows line s2))

  run_calls_more :
      (tc : ToolCall) (tcs : List ToolCall) (s : Session W)
      → (run_call r tc s).0 ≡ none
      → run_calls r (tc ∷ tcs) s ≡ run_calls r tcs (run_call r tc s).1
  unfolding run_calls
  run_calls_more tc tcs s e = ground arith

  run_calls_stop :
      (tc : ToolCall) (tcs : List ToolCall) (s : Session W) (fails : RunnerError)
      → (run_call r tc s).0 ≡ some fails
      → (run_calls r (tc ∷ tcs) s).1 ≡ (run_call r tc s).1
  unfolding run_calls
  run_calls_stop tc tcs s fails e = ground arith

  run_calls-Grows : (tcs : List ToolCall) (s : Session W) → Grows s (run_calls r tcs s).1
  unfolding run_calls
  run_calls-Grows [] s = (λ m h. h, refl)
  run_calls-Grows (tc ∷ tcs) s =
      let t = (run_call r tc s).1 in
      elim (Option-cases (run_call r tc s).0) [
        | inl e ↦
            subst (λ p. Grows s p.1) (sym (run_calls_more tc tcs s e))
              (Grows-trans s t (run_calls r tcs t).1 (run_call-Grows tc s) (run_calls-Grows tcs t))
        | inr (fails, e) ↦
            subst (Grows s) (sym (run_calls_stop tc tcs s fails e)) (run_call-Grows tc s)
      ]

  -- A turn after which the loop goes on.
  abbrev GrowsIfAgain : Session W → Next × Session W → Type 0
  GrowsIfAgain s (again, s') = Grows s s'
  GrowsIfAgain s (ended text status, s') = Unit
  GrowsIfAgain s (fault e, s') = Unit

  Concluded-Grows :
      (c : Completion) (s t : Session W) (p : Next × Session W)
      → Concluded (λ w. 0) c t p
      → GrowsIfAgain s p
  Concluded-Grows c s t (again, s') h = elim h [ ]
  Concluded-Grows c s t (ended text status, s') h = tt
  Concluded-Grows c s t (fault e, s') h = tt

  after_calls-Grows :
      (s : Session W) (p : Option RunnerError × Session W)
      → Grows s p.1
      → GrowsIfAgain s (after_calls p)
  unfolding after_calls
  after_calls-Grows s (none, s') h = h
  after_calls-Grows s (some e, s') h = tt

  turn_logged-Grows :
      (c : Completion) (s : Session W) (p : Option String × Session W)
      → Grows s p.1
      → GrowsIfAgain s (turn_logged r c p)
  unfolding turn_logged
  turn_logged-Grows c s (some e, t) h = tt
  turn_logged-Grows c s (none, t) h =
      let u = push_message (assistant_msg c) t in
      elim (Bool-cases (is_empty c.tool_calls)) [
        | inl e ↦ rw e (
            Concluded-Grows c s u (conclude r c u)
              (conclude-Concluded r (λ w. 0) (unmetered r) c u))
        | inr e ↦ rw e (
            after_calls-Grows s (run_calls r c.tool_calls u) (
              Grows-trans s u (run_calls r c.tool_calls u).1
                (Grows-trans s t u h (push_message-Grows (assistant_msg c) t))
                (run_calls-Grows c.tool_calls u)))
      ]

  turn_reply-Grows :
      (s : Session W) (p : (EngineError ⊎ Completion) × Session W)
      → Grows s p.1
      → GrowsIfAgain s (turn_reply r p)
  unfolding turn_reply
  turn_reply-Grows s (inl e, t) h = tt
  turn_reply-Grows s (inr c, t) h =
      let line = dispatch t.turns c.finish_reason c.content c.tool_calls in
      turn_logged-Grows c s (append r line t)
        (Grows-trans s t (append r line t).1 h (append-Grows line t))

  turn-Grows : (budget : ℕ) (s : Session W) → GrowsIfAgain (land budget s) (turn r budget s)
  unfolding turn chat
  turn-Grows budget s =
      let s1 = record (land budget s) { turns = suc (land budget s).turns } in
      turn_reply-Grows (land budget s) (chat r r.tools true s1) (λ m h. h, refl)

-- The messages hold a notice with at most the turns of the landing window.
abbrev pub Noticed : {W : Type 0} → Session W → Type 0
Noticed s = (k : ℕ) × (k ≤ landing_window) × Listed (msg "user" (landing_notice k)) s.messages

abbrev Landed : {W : Type 0} → Session W → Type 0
Landed s = s.landing_injected ≡ true → Noticed s

-- The sessions at the start of the loop's rounds.
pub data Rounds {W : Type 0} (r : Runner W) (budget : ℕ) (s : Session W) : Session W → Type 0 where
  first : Rounds r budget s s
  next :
      {t u : Session W} → Rounds r budget s t → turn r budget t ≡ (again, u) → Rounds r budget s u

module _ {W : Type 0} (r : Runner W) (budget : ℕ) where
  abbrev notice : Session W → Message
  notice s = msg "user" (landing_notice (budget - s.turns))

  land_late :
      (s : Session W)
      → s.landing_injected ≡ false
      → leb (budget - s.turns) landing_window ≡ true
      → (land budget s).messages ≡ s.messages ++ notice s ∷ []
  unfolding land push_message
  land_late s fresh late = ground arith

  land_same :
      (s : Session W)
      → (leb (budget - s.turns) landing_window && not s.landing_injected) ≡ false
      → land budget s ≡ s
  unfolding land
  land_same s e = ground arith

  land_world : (s : Session W) → (land budget s).world ≡ s.world
  unfolding land push_message
  land_world s = ground arith

  Noticed-land :
      (s : Session W) → Landed s → budget - s.turns ≤ landing_window → Noticed (land budget s)
  Noticed-land s h le = elim (Bool-cases s.landing_injected) [
    | inl done ↦ subst Noticed (sym (land_same s (ground (arith, done)))) (h done)
    | inr fresh ↦ (
      budget - s.turns,
      le,
      subst (Listed (notice s)) (sym (land_late s fresh (ground (arith, le))))
          (Listed-append_last (notice s) s.messages),
    )
  ]

  land-Landed : (s : Session W) → Landed s → Landed (land budget s)
  land-Landed s h = elim (Bool-cases (leb (budget - s.turns) landing_window)) [
    | inl late ↦ λ done. Noticed-land s h (ground (arith, late))
    | inr early ↦ subst Landed (sym (land_same s (ground (arith, early)))) h
  ]

  Rounds-Landed : {s u : Session W} → Landed s → Rounds r budget s u → Landed u
  Rounds-Landed h first = h
  Rounds-Landed h (next {t} {u} rounds e) =
      let before = land-Landed t (Rounds-Landed h rounds) in
      let (keep, mark) = subst (GrowsIfAgain r (land budget t)) e (turn-Grows r budget t) in
      λ done.
        let (k, le, listed) = before (sym mark ∙ done) in
        (k, le, keep (msg "user" (landing_notice k)) listed)

  -- In each of the last five turns of a session's budget the engine is asked with messages that hold a
  -- notice of at most five turns left: the turn is what is made of the reply to a conversation `u`
  -- that holds one.
  pub Rounds-Noticed :
      (system_prompt user_prompt : Text) (ledger : List Event) (w : W) (s : Session W)
      → Rounds r budget (start system_prompt user_prompt ledger w) s
      → budget - s.turns ≤ 5
      → (u : Session W) × Noticed u
        × (u.world ≡ s.world)
        × (turn r budget s ≡ turn_reply r (chat r r.tools true u))
  unfolding start turn
  Rounds-Noticed system_prompt user_prompt ledger w s rounds late =
      let noticed =
        Noticed-land s (Rounds-Landed (λ done. absurd (ground (arith, done))) rounds) late in
      (record (land budget s) { turns = suc (land budget s).turns }, noticed, land_world s, refl)
