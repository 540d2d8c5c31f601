-- ===== src/Proxy/Sse/Chunks.antt =====
-- src/proxy/mod.rs: a response fed to the sanitizer chunk by chunk, against one scan of its decoded text.
use anser.Prelude.{
  ℕ, suc, ◌≡◌, refl, ap, sym, ◌∙◌, true, false, List, [], ◌∷◌, ◌++◌, length, if◌then◌else◌, arith,
}
use mathlib.Core.Path.{subst}
use mathlib.Core.List.{append-nil}
use anser.Prelude.Text.{Text}
use anser.Prelude.Lines.{Flow, go, stop, and_then, scan}
use anser.Prelude.Lines.Cuts.{
  concat, IsOpen, drain-scan, scan-append, scan_open, scan_leaves-IsOpen,
}
use anser.Proxy.Repetition.{RepetitionDetector}
use anser.Proxy.Sse.{
  Env, SseSanitizer, wrote, crashed, Early, ended, broke, sanitize_line, written_by, sanitize_text,
  feed_decoded, feed, finish_line, finish, add_to, sse_stream, End, closed, upstream_failed,
  error_event,
}
use anser.Proxy.Sse.Behind.{State, behind, scan-behind}

-- An incremental decoder: the empty chunk does nothing, and two chunks are decoded as their
-- concatenation.
pub record Streams (e : Env) : Type 0 where
  pub nothing : (d : e.Decoder) → e.decode d [] ≡ (d, [])
  pub more :
      (d : e.Decoder) (xs ys : List ℕ)
      → e.decode d (xs ++ ys) ≡ (
        (e.decode (e.decode d xs).0 ys).0,
        (e.decode d xs).1 ++ (e.decode (e.decode d xs).0 ys).1,
      )

module _ (e : Env) where
  -- What follows a stream that a line has ended.
  unfoldable pub after_stop : Early e → End e → Early e
  after_stop (ended out) closed = ended out
  after_stop (ended out) upstream_failed = ended (out ++ error_event e)
  after_stop (broke out) end = broke out

  -- What the client has got at the end, by what the lines left.
  unfoldable pub closing : End e → Text → Flow (Text × (State e)) (Early e) → Early e
  unfolding after_stop
  closing end tail (stop early) = after_stop early end
  closing closed tail (go (rest, (d, out))) = add_to e out (finish_line e (rest ++ tail) d)
  closing upstream_failed tail (go (rest, (d, out))) = ended (out ++ error_event e)

  -- The same whole text; or a panic in both, the first behind a beginning of what stands before it in
  -- the second.
  abbrev pub Agrees : Early e → Early e → Type 0
  Agrees (ended a) (ended b) = a ≡ b
  Agrees (broke a) (broke b) = (lost : Text) × (a ++ lost ≡ b)
  Agrees _ _ = ⊥

  Agrees-refl : (a : Early e) → Agrees a a
  Agrees-refl (ended a) = refl
  Agrees-refl (broke a) = ([], append-nil a)

  -- A path on either side.
  pub Agrees-by : (a b c d : Early e) → a ≡ b → Agrees b c → c ≡ d → Agrees a d
  Agrees-by a b c d left h right = subst (λ x. Agrees x d) (sym left) (subst (Agrees b) right h)

  pub Agrees-ended : (a : Early e) (t : Text) → Agrees a (ended t) → a ≡ ended t
  Agrees-ended (ended a) t h = ap (λ x. ended x) h
  Agrees-ended (broke a) t h = absurd h

  feed_done : (chunk : List ℕ) (s : SseSanitizer e) → s.done ≡ true → feed e chunk s ≡ wrote [] s
  unfolding feed
  feed_done chunk s h = rw h refl

  sse_done :
      (w : Text) (chunks : List (List ℕ)) (end : End e) (s : SseSanitizer e)
      → s.done ≡ true
      → sse_stream e w chunks end s ≡ after_stop (ended w) end
  unfolding sse_stream finish feed after_stop
  sse_done w [] closed s h = rw (h, finish) (ap (λ t. ended t) (append-nil w))
  sse_done w [] upstream_failed s h = refl
  sse_done w (chunk ∷ chunks) end s h =
      ap
        (λ o. elim o [
          | wrote out after ↦ sse_stream e (w ++ out) chunks end after
          | crashed ↦ broke w
        ])
        (feed_done chunk s h)
      ∙ sse_done (w ++ []) chunks end s h
      ∙ ap (λ t. after_stop (ended t) end) (append-nil w)

  feed_decoded-scan :
      (p : e.Decoder × Text) (s : SseSanitizer e)
      → IsOpen s.line_buf
      → feed_decoded e p s
        ≡ written_by e
            (record s { decoder = p.0 })
            (scan (sanitize_line e) s.line_buf p.1 (s.detector, []))
  unfolding feed_decoded scan written_by sanitize_text
  feed_decoded-scan (decoder, []) s h = refl
  feed_decoded-scan (decoder, c ∷ rest) s h =
      let text = s.line_buf ++ c ∷ rest in
      ap (written_by e (record s { decoder = decoder })) (
        drain-scan (sanitize_line e) (suc (length text)) text (s.detector, []) (omega arith)
        ∙ scan-append (sanitize_line e) [] s.line_buf (c ∷ rest) (s.detector, [])
        ∙ ap (λ m. and_then m (λ (cur, t). scan (sanitize_line e) cur (c ∷ rest) t))
            (scan_open (sanitize_line e) [] s.line_buf (s.detector, []) h))

  feed-scan :
      (chunk : List ℕ) (s : SseSanitizer e)
      → s.done ≡ false
      → IsOpen s.line_buf
      → feed e chunk s
        ≡ written_by e
            (record s { decoder = (e.decode s.decoder chunk).0 })
            (scan (sanitize_line e) s.line_buf (e.decode s.decoder chunk).1 (s.detector, []))
  unfolding feed
  feed-scan chunk s h open_buf =
      ap (λ b. if b then wrote [] s else feed_decoded e (e.decode s.decoder chunk) s) h
      ∙ feed_decoded-scan (e.decode s.decoder chunk) s open_buf

  -- The rest of the stream, after a chunk whose lines gave `m`.
  resumed :
      (w text tail : Text) (chunks : List (List ℕ)) (end : End e) (s : SseSanitizer e)
      → s.done ≡ false
      → ((w : Text) (s' : SseSanitizer e)
          → s'.done ≡ false
          → s'.decoder ≡ s.decoder
          → IsOpen s'.line_buf
          → Agrees
              (sse_stream e w chunks end s')
              (closing end tail (scan (sanitize_line e) s'.line_buf text (s'.detector, w))))
      → (m : Flow (Text × (State e)) (Early e))
      → ((rest : Text) (t : (State e)) → m ≡ go (rest, t) → IsOpen rest)
      → Agrees
          (elim (written_by e s m) [
            | wrote out after ↦ sse_stream e (w ++ out) chunks end after
            | crashed ↦ broke w
          ])
          (closing end tail
            (and_then (behind e w m) (λ (cur, t). scan (sanitize_line e) cur text t)))
  unfolding written_by closing after_stop
  resumed w text tail chunks end s h onward (go (rest, (d, out))) leaves =
      onward (w ++ out) (record s { detector = d; line_buf = rest }) h refl
        (leaves rest (d, out) refl)
  resumed w text tail chunks end s h onward (stop (ended out)) leaves =
      Agrees-by _ _ _ _ (sse_done (w ++ out) chunks end _ refl) (Agrees-refl _) refl
  resumed w text tail chunks end s h onward (stop (broke out)) leaves = (out, refl)

  finish_open :
      (s : SseSanitizer e)
      → s.done ≡ false
      → finish e s ≡ finish_line e (s.line_buf ++ e.flush s.decoder) s.detector
  unfolding finish
  finish_open s h = ground arith

  -- No chunk is left.
  sse_stream-end :
      (w : Text) (end : End e) (s : SseSanitizer e)
      → s.done ≡ false
      → sse_stream e w [] end s ≡ closing end (e.flush s.decoder) (go (s.line_buf, (s.detector, w)))
  unfolding sse_stream closing
  sse_stream-end w closed s h = ap (add_to e w) (finish_open s h)
  sse_stream-end w upstream_failed s h = refl

  -- Two texts, the second behind e what the first one wrote.
  joined :
      (w cur first second : Text) (d : RepetitionDetector)
      → and_then
          (behind e w (scan (sanitize_line e) cur first (d, [])))
          (λ (cur, t). scan (sanitize_line e) cur second t)
        ≡ scan (sanitize_line e) cur (first ++ second) (d, w)
  joined w cur first second d =
      ap (λ m. and_then m (λ (cur, t). scan (sanitize_line e) cur second t))
        (sym (scan-behind e w cur first [] d))
      ∙ sym (scan-append (sanitize_line e) cur first second (d, w ++ []))
      ∙ ap (λ t. scan (sanitize_line e) cur (first ++ second) (d, t)) (append-nil w)

  pub sse_stream-scan :
      Streams e
      → (chunks : List (List ℕ)) (w : Text) (end : End e) (s : SseSanitizer e) → s.done ≡ false
      → IsOpen s.line_buf
      → Agrees (sse_stream e w chunks end s) (
          closing end (e.flush (e.decode s.decoder (concat chunks)).0) (
            scan
              (sanitize_line e)
              s.line_buf
              (e.decode s.decoder (concat chunks)).1
              (s.detector, w)))
  unfolding sse_stream concat scan
  sse_stream-scan laws [] w end s h open_buf =
      Agrees-by _ _ _ _ (sse_stream-end w end s h) (Agrees-refl _) (
        ap (λ p. closing end (e.flush p.0) (scan (sanitize_line e) s.line_buf p.1 (s.detector, w)))
          (sym (laws.nothing s.decoder)))
  sse_stream-scan laws (chunk ∷ chunks) w end s h open_buf =
      let m = scan (sanitize_line e) s.line_buf (e.decode s.decoder chunk).1 (s.detector, []) in
      let decoder = (e.decode s.decoder chunk).0 in
      Agrees-by _ _ _ _
        (ap
          (λ o. elim o [
            | wrote out after ↦ sse_stream e (w ++ out) chunks end after
            | crashed ↦ broke w
          ])
          (feed-scan chunk s h open_buf))
        (resumed w (e.decode decoder (concat chunks)).1
          (e.flush (e.decode decoder (concat chunks)).0) chunks end (record s { decoder = decoder })
          h
          (λ w' s' h' same open_buf'.
            subst
              (λ d. Agrees (sse_stream e w' chunks end s') (
                closing end (e.flush (e.decode d (concat chunks)).0) (
                  scan (sanitize_line e) s'.line_buf (e.decode d (concat chunks)).1
                    (s'.detector, w'))))
              same (sse_stream-scan laws chunks w' end s' h' open_buf'))
          m
          (λ rest t same.
            scan_leaves-IsOpen (sanitize_line e) s.line_buf (e.decode s.decoder chunk).1 rest
              (s.detector, []) t open_buf same))
        (ap (closing end (e.flush (e.decode decoder (concat chunks)).0)) (
            joined w s.line_buf (e.decode s.decoder chunk).1 (e.decode decoder (concat chunks)).1
              s.detector)
          ∙ ap
              (λ p.
                closing end (e.flush p.0) (scan (sanitize_line e) s.line_buf p.1 (s.detector, w)))
              (sym (laws.more s.decoder chunk (concat chunks))))
