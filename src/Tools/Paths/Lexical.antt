-- ===== src/Tools/Paths/Lexical.antt =====
-- src/tools/sandbox.rs: what normalize_traversal accepts, and what it never refuses.
use anser.Prelude.{
  ℕ, zero, suc, ◌≡◌, refl, ap, sym, ◌∙◌, ◌⊎◌, inl, inr, Bool, true, false, ◌||◌, not, List, [], ◌∷◌,
  ◌++◌, map, length, if◌then◌else◌, ◌==◌, ==_self, arith, Bool-cases,
}
use mathlib.Core.Path.{subst}
use mathlib.Core.List.{append_assoc, append-nil}
use anser.Prelude.Text.{text_key, Text, trim}
use anser.Tools.Paths.{
  Component, root_dir, cur_dir, parent_dir, normal, PathBuf, SandboxError, null_byte, Checked,
  accepted, refused, component_eqb, is_within, pop, push, collapse, normalize_lexical, join,
  components, parts, split_at, last_of, is_rooted, is_drive, is_reserved_device, normalize_posix,
  normalize_traversal, contains_char, replace_char,
}

-- Plain names below nothing, or below the root of the file system.
abbrev pub names : List Text → PathBuf
names ts = map normal ts

abbrev pub absolute : List Text → PathBuf
absolute ts = root_dir ∷ names ts

abbrev IsClean : PathBuf → Type 0
IsClean p = (ts : List Text) × ((p ≡ names ts) ⊎ (p ≡ absolute ts))

pop_snoc : (p : PathBuf) (t : Text) → pop (p ++ normal t ∷ []) ≡ p
unfolding pop
pop_snoc [] t = refl
pop_snoc (c ∷ []) t = refl
pop_snoc (c ∷ d ∷ p) t = ap (λ q. c ∷ q) (pop_snoc (d ∷ p) t)

names-append : (ts us : List Text) → names (ts ++ us) ≡ names ts ++ names us
names-append [] us = refl
names-append (t ∷ ts) us = ap (λ q. normal t ∷ q) (names-append ts us)

pop-names : (ts : List Text) → (us : List Text) × (pop (names ts) ≡ names us)
unfolding pop
pop-names [] = ([], refl)
pop-names (t ∷ []) = ([], refl)
pop-names (t ∷ u ∷ ts) = let (us, e) = pop-names (u ∷ ts) in (t ∷ us, ap (λ q. normal t ∷ q) e)

pop-absolute : (ts : List Text) → (us : List Text) × (pop (absolute ts) ≡ absolute us)
unfolding pop
pop-absolute [] = ([], refl)
pop-absolute (t ∷ ts) = let (us, e) = pop-names (t ∷ ts) in (us, ap (λ q. root_dir ∷ q) e)

IsClean-pop : (p : PathBuf) → IsClean p → IsClean (pop p)
IsClean-pop p (ts, inl e) = let (us, q) = pop-names ts in (us, inl (ap pop e ∙ q))
IsClean-pop p (ts, inr e) = let (us, q) = pop-absolute ts in (us, inr (ap pop e ∙ q))

IsClean-push : (p : PathBuf) (t : Text) → IsClean p → IsClean (p ++ normal t ∷ [])
IsClean-push p t (ts, inl e) =
    (ts ++ t ∷ [], inl (ap (λ q. q ++ normal t ∷ []) e ∙ sym (names-append ts (t ∷ []))))
IsClean-push p t (ts, inr e) = (
  ts ++ t ∷ [],
  inr (ap (λ q. q ++ normal t ∷ []) e ∙ ap (λ q. root_dir ∷ q) (sym (names-append ts (t ∷ [])))),
)

IsClean-collapse : (rest out : PathBuf) → IsClean out → IsClean (collapse out rest)
unfolding collapse push
IsClean-collapse [] out h = h
IsClean-collapse (cur_dir ∷ rest) out h = IsClean-collapse rest out h
IsClean-collapse (parent_dir ∷ rest) out h = IsClean-collapse rest (pop out) (IsClean-pop out h)
IsClean-collapse (root_dir ∷ rest) out h = IsClean-collapse rest (root_dir ∷ []) ([], inr refl)
IsClean-collapse (normal t ∷ rest) out h =
    IsClean-collapse rest (out ++ normal t ∷ []) (IsClean-push out t h)

within_names :
    (ts root : List Text)
    → is_within (names ts) (names root) ≡ true
    → (us : List Text) × (names ts ≡ names root ++ names us)
unfolding is_within component_eqb
within_names ts [] h = (ts, refl)
within_names [] (r ∷ root) h = absurd (cc)
within_names (t ∷ ts) (r ∷ root) h = elim (Bool-cases (t == r)) [
  | inl same ↦
      let (us, e) = within_names ts root (ground arith) in
      (
        us,
        ap (λ x. normal x ∷ names ts) ((text_key.test_iff t r).0 same) ∙ ap (λ q. normal r ∷ q) e,
      )
  | inr differ ↦ absurd (ground arith)
]

within_root :
    (p : PathBuf) (root : List Text)
    → IsClean p
    → is_within p (absolute root) ≡ true
    → (us : List Text) × (p ≡ absolute root ++ names us)
unfolding is_within component_eqb
within_root p root ([], inl e) h = absurd (ground (arith, ap (λ q. is_within q (absolute root)) e))
within_root p root (t ∷ ts, inl e) h =
    absurd (ground (arith, ap (λ q. is_within q (absolute root)) e))
within_root p root (ts, inr e) h =
    let (us, q) = within_names ts root (sym (ap (λ x. is_within x (absolute root)) e) ∙ h) in
    (us, e ∙ ap (λ x. root_dir ∷ x) q)

component_eqb_self : (c : Component) → component_eqb c c ≡ true
unfolding component_eqb
component_eqb_self root_dir = refl
component_eqb_self cur_dir = refl
component_eqb_self parent_dir = refl
component_eqb_self (normal t) = ==_self t

pub is_within-append : (root p : PathBuf) → is_within (root ++ p) root ≡ true
unfolding is_within
is_within-append [] p = refl
is_within-append (c ∷ root) p = rw (component_eqb_self c) (is_within-append root p)

decided :
    (b c : Bool) (x y : SandboxError) (n p : PathBuf)
    → (if b then refused x else if not c then refused y else accepted n) ≡ accepted p
    → (n ≡ p) × (c ≡ true)
decided true c x y n p h = absurd (cc)
decided false true x y n p h = (ground arith, refl)
decided false false x y n p h = absurd (cc)

chosen :
    (b c : Bool) (x : SandboxError) (r p : PathBuf) (other : Checked)
    → (if b then refused x else if c then accepted r else other) ≡ accepted p
    → (r ≡ p) ⊎ (other ≡ accepted p)
chosen true c x r p other h = absurd (cc)
chosen false true x r p other h = inl (ground arith)
chosen false false x r p other h = inr h

-- What the checks of a text that is not empty accept.
posix_within :
    (up : Text → Text) (root : PathBuf) (input posix : Text) (p : PathBuf)
    → normalize_posix up root input posix ≡ accepted p
    → IsClean p × (is_within p root ≡ true)
unfolding normalize_posix normalize_lexical
posix_within up root input posix p h =
    let chosen_path =
      if is_rooted posix || is_drive posix then components posix else join root posix in
    let (same, within) = decided _ _ _ _ _ p h in
    (
      subst IsClean same (IsClean-collapse chosen_path [] ([], inl refl)),
      subst (λ q. is_within q root ≡ true) same within,
    )

-- Every path that is accepted is the workspace root followed by plain names: no `.`, no `..` and no
-- second root is left in it. The root is absolute and has plain names itself.
pub normalize_traversal-contained :
    (up : Text → Text) (root : List Text) (input : Text) (p : PathBuf)
    → normalize_traversal up (absolute root) input ≡ accepted p
    → (us : List Text) × (p ≡ absolute root ++ names us)
unfolding normalize_traversal
normalize_traversal-contained up root input p h =
    elim (chosen (contains_char 0 input) (trim input == []) null_byte (absolute root) p
      (normalize_posix up (absolute root) input (replace_char 92 47 (trim input))) h) [
        | inl whole ↦ ([], sym whole ∙ sym (append-nil (absolute root)))
        | inr rest ↦
            let (clean, within) =
              posix_within up (absolute root) input (replace_char 92 47 (trim input)) p rest in
            within_root p root clean within
      ]

-- The components never climb above where they start, `depth` names down.
unfoldable pub stays : (depth : ℕ) → PathBuf → Bool
stays depth [] = true
stays depth (cur_dir ∷ rest) = stays depth rest
stays zero (parent_dir ∷ rest) = false
stays (suc depth) (parent_dir ∷ rest) = stays depth rest
stays depth (normal t ∷ rest) = stays (suc depth) rest
stays depth (root_dir ∷ rest) = false

-- Names with the last one first.
abbrev downward : List Text → PathBuf
downward [] = []
downward (t ∷ ts) = downward ts ++ normal t ∷ []

stays_below :
    (root rest : PathBuf) (ts : List Text)
    → stays (length ts) rest ≡ true
    → (us : List Text) × (collapse (root ++ downward ts) rest ≡ root ++ downward us)
unfolding stays collapse push
stays_below root [] ts h = (ts, refl)
stays_below root (cur_dir ∷ rest) ts h = stays_below root rest ts h
stays_below root (parent_dir ∷ rest) [] h = absurd (cc)
stays_below root (parent_dir ∷ rest) (t ∷ ts) h =
    let (us, e) = stays_below root rest ts h in
    (
      us,
      ap (λ q. collapse (pop q) rest) (sym (append_assoc root (downward ts) (normal t ∷ [])))
          ∙ ap (λ q. collapse q rest) (pop_snoc (root ++ downward ts) t)
          ∙ e,
    )
stays_below root (root_dir ∷ rest) ts h = absurd (cc)
stays_below root (normal t ∷ rest) ts h =
    let (us, e) = stays_below root rest (t ∷ ts) h in
    (us, ap (λ q. collapse q rest) (append_assoc root (downward ts) (normal t ∷ [])) ∙ e)

collapse-names :
    (ts : List Text) (out rest : PathBuf)
    → collapse out (names ts ++ rest) ≡ collapse (out ++ names ts) rest
unfolding collapse push
collapse-names [] out rest = ap (λ q. collapse q rest) (sym (append-nil out))
collapse-names (t ∷ ts) out rest =
    collapse-names ts (out ++ normal t ∷ []) rest
    ∙ ap (λ q. collapse q rest) (append_assoc out (normal t ∷ []) (names ts))

normalize_lexical-stays :
    (root : List Text) (rest : PathBuf)
    → stays 0 rest ≡ true
    → is_within (normalize_lexical (absolute root ++ rest)) (absolute root) ≡ true
unfolding normalize_lexical collapse push
normalize_lexical-stays root rest h =
    let (us, e) = stays_below (absolute root) rest [] h in
    ap (λ q. is_within q (absolute root))
      (collapse-names root (root_dir ∷ []) rest
        ∙ ap (λ q. collapse q rest) (sym (append-nil (absolute root)))
        ∙ e)
    ∙ is_within-append (absolute root) (downward us)

posix_stays :
    (up : Text → Text) (root : List Text) (input posix : Text)
    → is_rooted posix ≡ false
    → is_drive posix ≡ false
    → is_reserved_device up (last_of [] (split_at 47 [] posix)) ≡ false
    → stays 0 (parts (split_at 47 [] posix)) ≡ true
    → normalize_posix up (absolute root) input posix
      ≡ accepted (normalize_lexical (absolute root ++ parts (split_at 47 [] posix)))
unfolding normalize_posix join
posix_stays up root input posix rooted drive device below =
    let within = normalize_lexical-stays root (parts (split_at 47 [] posix)) below in
    rw (device, rooted, drive, within) refl

-- A relative path that is no drive, names no device and holds no null character is accepted whenever
-- its components never climb above the workspace root on their way.
pub normalize_traversal-stays :
    (up : Text → Text) (root : List Text) (input : Text)
    → contains_char 0 input ≡ false
    → is_rooted (replace_char 92 47 (trim input)) ≡ false
    → is_drive (replace_char 92 47 (trim input)) ≡ false
    → is_reserved_device up (last_of [] (split_at 47 [] (replace_char 92 47 (trim input)))) ≡ false
    → stays 0 (parts (split_at 47 [] (replace_char 92 47 (trim input)))) ≡ true
    → (p : PathBuf) × (normalize_traversal up (absolute root) input ≡ accepted p)
unfolding normalize_traversal
normalize_traversal-stays up root input whole rooted drive device below =
    let posix = replace_char 92 47 (trim input) in
    elim (Bool-cases (trim input == [])) [
      | inl empty ↦ (absolute root, rw (whole, empty) refl)
      | inr some_text ↦ (
        normalize_lexical (absolute root ++ parts (split_at 47 [] posix)),
        rw (whole, some_text) (posix_stays up root input posix rooted drive device below),
      )
    ]
