-- ===== src/Tools/Search/Matches.antt =====
-- src/tools/fs.rs: what fallback_search finds.
use Prim.{tt}
use mathlib.Core.Path.{subst}
use anser.Prelude.{
  ℕ, suc, ◌≤◌, ◌≡◌, inl, inr, Bool, true, false, Option, none, some, List, [], ◌∷◌, ◌++◌, length,
  length-append, ltb, leb, if◌then◌else◌, All, Bool-cases, arith,
}
use anser.Prelude.Text.{Text}
use anser.Tools.Edits.{contains}
use anser.Tools.Search.{
  Entries, no_more, broken, untyped, other, file, directory, Match, Search, is_full, add_match,
  search_lines, search_file, is_left_out, search_entries, walk_search, is_binary_extension,
  lines_of,
}

All-snoc :
    {A : Type 0} (P : A → Type 0) (xs : List A) (x : A) → All P xs → P x → All P (xs ++ x ∷ [])
All-snoc P [] x h k = (k, tt)
All-snoc P (y ∷ ys) x (h, hs) k = (h, All-snoc P ys x hs k)

module _ (to_lowercase : Text → Text) (query : Text) (max_results : ℕ) where
  -- Names that the search enters.
  abbrev pub Entered : List Text → Type 0
  Entered rel = All (λ n. is_left_out to_lowercase query max_results n ≡ false) rel

  -- A line that holds the query, in a file whose names are all entered.
  pub record IsMatch (m : Match) : Type 0 where
    pub holds : contains m.line query ≡ true
    pub entered : Entered m.rel

  pub record Within (s : Search) : Type 0 where
    pub few : length s.matches ≤ max_results
    pub good : All IsMatch s.matches

  -- No claim on a search that ended with an error.
  abbrev pub Result : Option Search → Type 0
  Result none = Unit {0}
  Result (some s) = Within s

  Result-then :
      (o : Option Search) (f : Search → Option Search)
      → Result o
      → ((s : Search) → Within s → Result (f s))
      → Result (elim o [ none ↦ none | some s ↦ f s ])
  Result-then none f h onward = tt
  Result-then (some s) f h onward = onward s h

  Within-add_match :
      (rel : List Text) (number : ℕ) (line : Text) (s : Search)
      → Entered rel
      → Within s
      → is_full to_lowercase query max_results s ≡ false
      → Within (add_match to_lowercase query max_results rel number line s)
  unfolding add_match is_full
  Within-add_match rel number line s in_rel h room = elim (Bool-cases (contains line query)) [
    | inr away ↦ rw away h
    | inl found ↦
        let m : Match = record { rel = rel; number = number; line = line } in
        rw found (record {
          few =
              omega
                (arith, length-append s.matches (m ∷ []), h.few, not_full (length s.matches) room);
          good = All-snoc IsMatch s.matches m h.good (record { holds = found; entered = in_rel });
        })
  ]
    where
      not_full : (n : ℕ) → leb max_results n ≡ false → suc n ≤ max_results
      not_full n e = ground arith

  Within-search_lines :
      (rel : List Text) (number : ℕ) (lines : List Text) (s : Search)
      → Entered rel
      → Within s
      → Within (search_lines to_lowercase query max_results rel number lines s)
  unfolding search_lines
  Within-search_lines rel number [] s in_rel h = h
  Within-search_lines rel number (line ∷ lines) s in_rel h =
      elim (Bool-cases (is_full to_lowercase query max_results s)) [
        | inl full ↦ rw full h
        | inr room ↦ rw room (
            Within-search_lines rel (suc number) lines
              (add_match to_lowercase query max_results rel number line s) in_rel
              (Within-add_match rel number line s in_rel h room))
      ]

  Within-search_file :
      (rel : List Text) (name : Text) (size : ℕ) (content : Option Text) (s : Search)
      → Entered rel
      → Within s
      → Within (search_file to_lowercase query max_results rel name size content s)
  unfolding search_file
  Within-search_file rel name size content s in_rel h = elim (Bool-cases (ltb size 500000)) [
    | inr large ↦ rw large h
    | inl small ↦ elim (Bool-cases (is_binary_extension to_lowercase name)) [
      | inl binary ↦ rw (small, binary) (record { few = h.few; good = h.good })
      | inr text ↦ rw (small, text) (of_content content)
    ]
  ]
    where
      of_content :
          (o : Option Text)
          → Within (elim o [
            | none ↦ s
            | some t ↦ search_lines to_lowercase query max_results rel 1 (lines_of t) s
          ])
      of_content none = h
      of_content (some t) = Within-search_lines rel 1 (lines_of t) s in_rel h

  if_readable :
      (readable : Bool) (o : Option Search) (s : Search)
      → Within s
      → Result o
      → Result (if readable then o else some s)
  if_readable true o s h k = k
  if_readable false o s h k = h

  unless_full :
      (s : Search) (o : Option Search)
      → Within s
      → Result o
      → Result (if is_full to_lowercase query max_results s then some s else o)
  unless_full s o h later = elim (Bool-cases (is_full to_lowercase query max_results s)) [
    | inl full ↦ rw full h
    | inr room ↦ rw room later
  ]

  unless_left_out :
      (name : Text) (a b : Option Search)
      → Result a
      → (is_left_out to_lowercase query max_results name ≡ false → Result b)
      → Result (if is_left_out to_lowercase query max_results name then a else b)
  unless_left_out name a b h k =
      elim (Bool-cases (is_left_out to_lowercase query max_results name)) [
        | inl left ↦ rw left h
        | inr kept ↦ rw kept (k kept)
      ]

  Result-search_entries :
      (rel : List Text) (entries : Entries) (s : Search)
      → Entered rel
      → Within s
      → Result (search_entries to_lowercase query max_results rel entries s)
  unfolding search_entries is_full
  Result-search_entries rel no_more s in_rel h = h
  Result-search_entries rel broken s in_rel h = unless_full s none h tt
  Result-search_entries rel (untyped name rest) s in_rel h =
      let onward = search_entries to_lowercase query max_results rel rest s in
      unless_full s (if is_left_out to_lowercase query max_results name then onward else none) h
        (unless_left_out name onward none (Result-search_entries rel rest s in_rel h) (λ _. tt))
  Result-search_entries rel (other name rest) s in_rel h =
      unless_full s (search_entries to_lowercase query max_results rel rest s) h
        (Result-search_entries rel rest s in_rel h)
  Result-search_entries rel (file name none content rest) s in_rel h =
      let onward = search_entries to_lowercase query max_results rel rest s in
      unless_full s (if is_left_out to_lowercase query max_results name then onward else none) h
        (unless_left_out name onward none (Result-search_entries rel rest s in_rel h) (λ _. tt))
  Result-search_entries rel (file name (some size) content rest) s in_rel h =
      let onward = search_entries to_lowercase query max_results rel rest s in
      let s1 = search_file to_lowercase query max_results (rel ++ name ∷ []) name size content s in
      let searched = search_entries to_lowercase query max_results rel rest s1 in
      unless_full s (if is_left_out to_lowercase query max_results name then onward else searched) h
        (unless_left_out name onward searched (Result-search_entries rel rest s in_rel h) (λ kept.
          Result-search_entries rel rest s1 in_rel (
            Within-search_file (rel ++ name ∷ []) name size content s
              (All-snoc (λ n. is_left_out to_lowercase query max_results n ≡ false) rel name in_rel
                kept)
              h)))
  Result-search_entries rel (directory name readable inside rest) s in_rel h =
      let onward = search_entries to_lowercase query max_results rel rest s in
      let entered = search_entries to_lowercase query max_results (rel ++ name ∷ []) inside s in
      let walked = if readable then entered else some s in
      let later = λ (s1 : Search). search_entries to_lowercase query max_results rel rest s1 in
      let searched : Option Search = elim walked [ none ↦ none | some s1 ↦ later s1 ] in
      unless_full s (if is_left_out to_lowercase query max_results name then onward else searched) h
        (unless_left_out name onward searched (Result-search_entries rel rest s in_rel h) (λ kept.
          Result-then walked later
            (if_readable readable entered s h (
              Result-search_entries (rel ++ name ∷ []) inside s
                (All-snoc (λ n. is_left_out to_lowercase query max_results n ≡ false) rel name
                  in_rel kept)
                h))
            (λ s1 h1. Result-search_entries rel rest s1 in_rel h1)))

  Result-walk_search :
      (readable : Bool) (entries : Entries)
      → Result (walk_search to_lowercase query max_results readable entries)
  unfolding walk_search
  Result-walk_search readable entries =
      let start : Search = record { matches = []; skipped = [] } in
      let h : Within start = record { few = omega arith; good = tt } in
      elim (Bool-cases (leb max_results 0)) [
        | inl full ↦ rw full h
        | inr room ↦ rw room (
            if_readable readable (search_entries to_lowercase query max_results [] entries start)
              start h (Result-search_entries [] entries start tt h))
      ]

  -- A search that ends without an error gives at most as many matches as were asked for; each of
  -- them is a line that holds the query, and its path has no ignored directory and no environment
  -- file.
  pub walk_search-Within :
      (readable : Bool) (entries : Entries) (s : Search)
      → walk_search to_lowercase query max_results readable entries ≡ some s
      → (length s.matches ≤ max_results) × All IsMatch s.matches
  walk_search-Within readable entries s e =
      let h = subst Result e (Result-walk_search readable entries) in (h.few, h.good)
