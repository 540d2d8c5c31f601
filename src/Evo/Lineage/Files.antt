-- ===== src/Evo/Lineage/Files.antt =====
-- src/evo/lineage.rs: what save_to writes, load reads back, and what load accepts.
use anser.Prelude.{
  ℕ, suc, ◌≡◌, ◌≢◌, refl, ap, sym, ◌∙◌, String, true, false, Option, none, some, List, [], ◌∷◌,
  ◌++◌, map, nat_eqb, ◌==◌, string_key, All, ==_ne,
}
use mathlib.Core.List.{append_assoc, append-nil}
use anser.Prelude.Text.{text_key, Text, trim}
use anser.Prelude.Lines.{split_line}
use anser.Prelude.Lines.Cuts.{IsOpen-tail}
use anser.Tools.Paths.{split_at}
use anser.Evo.Lineage.{
  LineageNode, member_of, check_parents, check_nodes, check_loaded, load_lines, load, save_text,
  loaded,
}
use anser.Evo.Lineage.Appends.{Known}

-- A node whose print is one line that is trimmed and not empty, and that the parser reads back.
pub record Prints {F : Type 0} (to_string : LineageNode F → Text)
    (from_str : Text → Option (LineageNode F)) (n : LineageNode F) : Type 0 where
  pub one_line : split_line (to_string n) ≡ none
  pub trimmed : trim (to_string n) ≡ to_string n
  pub some_text : to_string n ≢ []
  pub reads : from_str (to_string n) ≡ some n

-- What a file may hold: ids that differ, and parents that are other nodes of the file, before or
-- after the node.
abbrev Fresh : {F : Type 0} → (seen : List String) → List (LineageNode F) → Type 0
Fresh seen [] = Unit {0}
Fresh seen (n ∷ ns) = (member_of n.id seen ≡ false) × Fresh (n.id ∷ seen) ns

abbrev seen_after : {F : Type 0} → (seen : List String) → List (LineageNode F) → List String
seen_after seen [] = seen
seen_after seen (n ∷ ns) = seen_after (n.id ∷ seen) ns

abbrev Sound : (seen : List String) → (id : String) → List String → Type 0
Sound seen id ps = All (λ p. ((p == id) ≡ false) × Known seen p) ps

pub record Loadable {F : Type 0} (nodes : List (LineageNode F)) : Type 0 where
  pub fresh : Fresh [] nodes
  pub sound : All (λ n. Sound (seen_after [] nodes) n.id n.parents) nodes

split_at_newline : (cur cs : Text) → split_at 10 cur (10 ∷ cs) ≡ cur ∷ split_at 10 [] cs
unfolding split_at
split_at_newline cur cs = refl

split_at_other :
    (cur cs : Text) (c : ℕ)
    → nat_eqb c 10 ≡ false
    → split_at 10 cur (c ∷ cs) ≡ split_at 10 (cur ++ c ∷ []) cs
unfolding split_at
split_at_other cur cs c e = rw (e, split_at) refl

split_at-line :
    (cur line rest : Text)
    → split_line line ≡ none
    → split_at 10 cur (line ++ 10 ∷ rest) ≡ (cur ++ line) ∷ split_at 10 [] rest
split_at-line cur [] rest h =
    split_at_newline cur rest ∙ ap (λ t. t ∷ split_at 10 [] rest) (sym (append-nil cur))
split_at-line cur (c ∷ line) rest h =
    let (other, tail) = IsOpen-tail c line h in
    split_at_other cur (line ++ 10 ∷ rest) c other
    ∙ split_at-line (cur ++ c ∷ []) line rest tail
    ∙ ap (λ t. t ∷ split_at 10 [] rest) (append_assoc cur (c ∷ []) line)

check_parents-Sound :
    {F : Type 0} (seen : List String) (line : ℕ) (node : LineageNode F) (ps : List String)
    → Sound seen node.id ps
    → check_parents seen line node ps ≡ none
unfolding check_parents
check_parents-Sound seen line node [] h = refl
check_parents-Sound seen line node (p ∷ ps) ((other, known), h) =
    rw (other, known) (check_parents-Sound seen line node ps h)

abbrev numbered : {F : Type 0} → ℕ → List (LineageNode F) → List (ℕ × LineageNode F)
numbered line [] = []
numbered line (n ∷ ns) = (line, n) ∷ numbered (suc line) ns

nodes_of :
    {F : Type 0} (line : ℕ) (ns : List (LineageNode F)) → map (λ (_, n). n) (numbered line ns) ≡ ns
nodes_of line [] = refl
nodes_of line (n ∷ ns) = ap (λ t. n ∷ t) (nodes_of (suc line) ns)

check_nodes-Sound :
    {F : Type 0} (seen : List String) (line : ℕ) (ns : List (LineageNode F))
    → All (λ n. Sound seen n.id n.parents) ns
    → check_nodes seen (numbered line ns) ≡ none
unfolding check_nodes
check_nodes-Sound seen line [] h = refl
check_nodes-Sound seen line (n ∷ ns) (at, h) =
    rw (check_parents-Sound seen line n n.parents at, check_nodes)
      (check_nodes-Sound seen (suc line) ns h)

module _ {F : Type 0} (to_string : LineageNode F → Text)
    (from_str : Text → Option (LineageNode F)) where
  split_at-save_text :
      (ns : List (LineageNode F))
      → All (Prints to_string from_str) ns
      → split_at 10 [] (save_text to_string ns) ≡ map to_string ns ++ [] ∷ []
  unfolding save_text
  split_at-save_text [] laws = unfold split_at in refl
  split_at-save_text (n ∷ ns) (law, laws) =
      ap (split_at 10 []) (append_assoc (to_string n) (10 ∷ []) (save_text to_string ns))
      ∙ split_at-line [] (to_string n) (save_text to_string ns) law.one_line
      ∙ ap (λ t. to_string n ∷ t) (split_at-save_text ns laws)

  load_lines-map :
      (ns : List (LineageNode F)) (line : ℕ) (seen : List String)
      (before : List (ℕ × LineageNode F))
      → All (Prints to_string from_str) ns
      → Fresh seen ns
      → load_lines from_str line seen before (map to_string ns ++ [] ∷ [])
        ≡ check_loaded from_str (seen_after seen ns) (before ++ numbered line ns)
  unfolding load_lines text_key trim
  load_lines-map [] line seen before laws h =
      ap (check_loaded from_str seen) (sym (append-nil before))
  load_lines-map (n ∷ ns) line seen before (law, laws) (new, h) =
      rw (law.trimmed, ==_ne (to_string n) [] law.some_text, law.reads, new)
        (load_lines-map ns (suc line) (n.id ∷ seen) (before ++ (line, n) ∷ []) laws h
          ∙ ap (check_loaded from_str (seen_after (n.id ∷ seen) ns))
              (append_assoc before ((line, n) ∷ []) (numbered (suc line) ns)))

  -- A lineage whose ids differ, and whose parents are other nodes of it wherever they stand, comes back
  -- from its file as it was, where the parser reads back what the printer writes of each node.
  pub load-save_text :
      (nodes : List (LineageNode F))
      → All (Prints to_string from_str) nodes
      → Loadable nodes
      → load from_str true (some (save_text to_string nodes)) ≡ loaded nodes
  unfolding load check_loaded
  load-save_text nodes laws h =
      ap (load_lines from_str 1 [] []) (split_at-save_text nodes laws)
      ∙ load_lines-map nodes 1 [] [] laws h.fresh
      ∙ rw (check_nodes-Sound (seen_after [] nodes) 1 nodes h.sound, check_loaded)
          (ap loaded (nodes_of 1 nodes))
