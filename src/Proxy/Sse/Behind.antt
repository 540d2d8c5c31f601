-- ===== src/Proxy/Sse/Behind.antt =====
-- src/proxy/sanitize.rs: what the loop of SseSanitizer::feed wrote before a line stands before the rest.
use anser.Prelude.{inl, inr, Bool-cases, nat_eqb, ◌≡◌, refl, ap, [], ◌∷◌, ◌++◌}
use mathlib.Core.List.{append_assoc}
use anser.Prelude.Text.{Text}
use anser.Prelude.Lines.{Flow, go, stop, and_then, scan}
use anser.Prelude.Lines.Cuts.{scan_newline, scan_other}
use anser.Proxy.Repetition.{RepetitionDetector}
use anser.Proxy.Sse.{
  Env, Early, ended, Verdict, pass, special, crash, write_line, process_line, sanitize_line, add_to,
}

module _ (e : Env) where
  abbrev pub State : Type 0
  State = RepetitionDetector × Text

  -- A result behind what was written before.
  abbrev pub behind : Text → Flow (Text × State) (Early e) → Flow (Text × State) (Early e)
  behind w (go (cur, (d, out))) = go (cur, (d, w ++ out))
  behind w (stop early) = stop (add_to e w early)

  pub behind_step : Text → Flow State (Early e) → Flow State (Early e)
  behind_step w (go (d, out)) = go (d, w ++ out)
  behind_step w (stop early) = stop (add_to e w early)

  pub write_line-behind :
      (w line out : Text) (v : Verdict)
      → write_line e line (w ++ out) v ≡ behind_step w (write_line e line out v)
  unfolding write_line behind_step
  write_line-behind w line out (pass next) =
      ap (λ t. go (next, t)) (append_assoc w out (line ++ 10 ∷ []))
  write_line-behind w line out (special text) = ap (λ t. stop (ended t)) (append_assoc w out text)
  write_line-behind w line out crash = refl

  pub behind-and_then :
      (w : Text) (cs : Text)
      → ((d : RepetitionDetector) (out : Text)
          → scan (sanitize_line e) [] cs (d, w ++ out)
            ≡ behind w (scan (sanitize_line e) [] cs (d, out)))
      → (m : Flow State (Early e))
      → and_then (behind_step w m) (λ t. scan (sanitize_line e) [] cs t)
        ≡ behind w (and_then m (λ t. scan (sanitize_line e) [] cs t))
  unfolding behind_step
  behind-and_then w cs same (go (d, out)) = same d out
  behind-and_then w cs same (stop early) = refl

  pub scan-behind :
      (w cur text out : Text) (d : RepetitionDetector)
      → scan (sanitize_line e) cur text (d, w ++ out)
        ≡ behind w (scan (sanitize_line e) cur text (d, out))
  unfolding scan sanitize_line
  scan-behind w cur [] out d = refl
  scan-behind w cur (c ∷ cs) out d = elim (Bool-cases (nat_eqb c 10)) [
    | inl same ↦
        rw
          (
            scan_newline (sanitize_line e) cur cs (d, w ++ out) c same,
            scan_newline (sanitize_line e) cur cs (d, out) c same,
            write_line-behind w cur out (process_line e cur d),
          )
          (behind-and_then w cs (λ d out. scan-behind w [] cs out d)
            (write_line e cur out (process_line e cur d)))
    | inr other ↦
        rw
          (
            scan_other (sanitize_line e) cur cs (d, w ++ out) c other,
            scan_other (sanitize_line e) cur cs (d, out) c other,
          )
          (scan-behind w (cur ++ c ∷ []) cs out d)
  ]
