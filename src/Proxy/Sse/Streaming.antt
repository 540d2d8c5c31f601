-- ===== src/Proxy/Sse/Streaming.antt =====
-- src/proxy/sanitize.rs: what the client gets does not depend on how the response is cut into chunks.
use anser.Prelude.{ℕ, ◌≡◌, refl, ap, sym, ◌∙◌, List, [], ◌∷◌, ◌++◌}
use mathlib.Core.List.{append_assoc, append-nil}
use anser.Prelude.Text.{Text}
use anser.Prelude.Lines.{Flow, go, stop, and_then, split_line}
use anser.Prelude.Lines.Cuts.{concat, go_of_and_then}
use anser.Prelude.Lines.Whole.{
  whole_lines, last_line, fold_lines, scan-fold_lines, unlines, unlines-whole_lines,
}
use anser.Proxy.Repetition.{RepetitionDetector, new_detector}
use anser.Proxy.Sse.{
  Env, new_sanitizer, Early, ended, Verdict, pass, special, crash, write_line, process_line,
  sanitize_line, finish_line, add_to, sse_stream, End, closed,
}
use anser.Proxy.Sse.Behind.{State}
use anser.Proxy.Sse.Chunks.{Streams, closing, Agrees, Agrees-by, Agrees-ended, sse_stream-scan}

module _ (e : Env) where
  -- What the client gets of the decoded text, read line after line.
  unfoldable pub sanitized : End e → e.Decoder × Text → Early e
  unfolding closing
  sanitized end (decoder, text) = closing e end (e.flush decoder) (
      and_then (fold_lines (sanitize_line e) (whole_lines [] text) (new_detector, []))
        (λ t. go (last_line [] text, t)))

  -- However a response is cut into chunks, in the middle of a character or of a line, the client gets
  -- what its decoded text gives, read line after line until one of them ends the stream. Where the
  -- upstream closes the response, the line that no newline ends comes behind them; where the upstream
  -- fails, that line is dropped and the error event comes instead. A line panics in both or in none:
  -- the client has then got a beginning of what the lines before that one give, and no more.
  pub sse_stream-sanitized :
      (chunks : List (List ℕ)) (end : End e)
      → Streams e
      → Agrees e
          (sse_stream e [] chunks end (new_sanitizer e))
          (sanitized end (e.decode e.new_decoder (concat chunks)))
  unfolding sanitized
  sse_stream-sanitized chunks end laws =
      Agrees-by e _ _ _ _ refl
        (sse_stream-scan e laws chunks [] end (new_sanitizer e) refl (unfold split_line in refl))
        (ap (closing e end _) (scan-fold_lines (sanitize_line e) [] _ (new_detector, [])))

  abbrev written_of : Text → Flow (State e) (Early e) → Text
  written_of t (go (d, out)) = out
  written_of t (stop early) = t

  write_line-go :
      (line out : Text) (next : RepetitionDetector) (out' : Text) (v : Verdict)
      → write_line e line out v ≡ go (next, out')
      → out' ≡ out ++ (line ++ 10 ∷ [])
  unfolding write_line
  write_line-go line out next out' (pass d) h = sym (ap (written_of []) h)
  write_line-go line out next out' (special text) h = absurd (cc)
  write_line-go line out next out' crash h = absurd (cc)

  fold_lines-unlines :
      (lines : List Text) (d last : RepetitionDetector) (out written : Text)
      → fold_lines (sanitize_line e) lines (d, out) ≡ go (last, written)
      → written ≡ out ++ unlines lines
  unfolding fold_lines unlines sanitize_line write_line
  fold_lines-unlines [] d last out written h = sym (ap (written_of []) h) ∙ sym (append-nil out)
  fold_lines-unlines (line ∷ lines) d last out written h =
      let ((d1, out1), first, later) =
        go_of_and_then (sanitize_line e line (d, out)) _ (last, written) h in
      fold_lines-unlines lines d1 last out1 written later
      ∙ ap (λ t. t ++ unlines lines) (write_line-go line out d1 out1 (process_line e line d) first)
      ∙ append_assoc out (line ++ 10 ∷ []) (unlines lines)

  -- A response that the upstream closes, that ends with a newline, leaves nothing in the decoder, and
  -- has no line that ends the stream, reaches the client as it is, however it was cut into chunks.
  pub sse_stream_transparent :
      (chunks : List (List ℕ)) (last : RepetitionDetector) (written : Text)
      → Streams e
      → e.flush (e.decode e.new_decoder (concat chunks)).0 ≡ []
      → last_line [] (e.decode e.new_decoder (concat chunks)).1 ≡ []
      → fold_lines
          (sanitize_line e)
          (whole_lines [] (e.decode e.new_decoder (concat chunks)).1)
          (new_detector, [])
        ≡ go (last, written)
      → sse_stream e [] chunks closed (new_sanitizer e)
        ≡ ended (e.decode e.new_decoder (concat chunks)).1
  unfolding sanitized closing finish_line
  sse_stream_transparent chunks last written laws flushed whole ends =
      let text = (e.decode e.new_decoder (concat chunks)).1 in
      let decoder = (e.decode e.new_decoder (concat chunks)).0 in
      Agrees-ended e _ text (
        Agrees-by e _ _ _ _ refl (sse_stream-sanitized chunks closed laws) (
          ap (λ m. closing e closed (e.flush decoder) (and_then m (λ t. go (last_line [] text, t))))
            ends
          ∙ ap (λ t. add_to e written (finish_line e (t ++ e.flush decoder) last)) whole
          ∙ ap (λ t. add_to e written (finish_line e t last)) flushed
          ∙ ap (λ t. ended t)
              (append-nil written
                ∙ fold_lines-unlines (whole_lines [] text) new_detector last [] written ends
                ∙ sym (append-nil (unlines (whole_lines [] text)))
                ∙ ap (λ t. unlines (whole_lines [] text) ++ t) (sym whole)
                ∙ unlines-whole_lines [] text)))
