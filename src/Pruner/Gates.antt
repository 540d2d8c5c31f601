-- ===== src/Pruner/Gates.antt =====
-- How much the gates of src/pruner.rs select.
use anser.Prelude.{
  ℕ, zero, suc, ◌+◌, ◌-◌, ◌≤◌, ◌≡◌, ap, ◌⊎◌, inl, inr, String, Bool, true, false, List, [], ◌∷◌,
  string_key, leb, length, min, arith, Bool-cases, ==_self,
}
use anser.Pruner.{SessionEntry, contains, gate_count, gate_size, total_size, selected}

-- A set holds what another one holds.
abbrev pub Within : List String → List String → Type 0
Within set more = (id : String) → contains set id ≡ true → contains more id ≡ true

pub Within-add : (set : List String) (x : String) → Within set (x ∷ set)
unfolding contains
Within-add set x id h = ground arith

pub contains-add : (set : List String) (x : String) → contains (x ∷ set) x ≡ true
unfolding contains
contains-add set x = ground (arith, ==_self x)

pub Within-gate_count :
    (excess : ℕ) (ss : List SessionEntry) (set : List String)
    → Within set (gate_count excess ss set)
unfolding gate_count
Within-gate_count excess [] set id h = h
Within-gate_count zero (s ∷ ss) set id h = h
Within-gate_count (suc excess) (s ∷ ss) set id h = elim (Bool-cases (contains set s.id)) [
  | inl e ↦ rw e (Within-gate_count (suc excess) ss set id h)
  | inr e ↦ rw e (Within-gate_count excess ss (s.id ∷ set) id (Within-add set s.id id h))
]

pub Within-gate_size :
    (max_bytes remaining : ℕ) (ss : List SessionEntry) (set : List String)
    → Within set (gate_size max_bytes remaining ss set)
unfolding gate_size
Within-gate_size max_bytes remaining [] set id h = h
Within-gate_size max_bytes remaining (s ∷ ss) set id h =
    elim (Bool-cases (leb remaining max_bytes)) [
      | inl le ↦ rw le h
      | inr gt ↦ elim (Bool-cases (contains set s.id)) [
        | inl e ↦ rw (gt, e) (Within-gate_size max_bytes remaining ss set id h)
        | inr e ↦
            rw (gt, e)
              (Within-gate_size max_bytes (remaining - s.size) ss (s.id ∷ set) id
                (Within-add set s.id id h))
      ]
    ]

-- More ids select more sessions.
pub length-selected :
    (set more : List String) (ss : List SessionEntry)
    → Within set more
    → length (selected set ss) ≤ length (selected more ss)
unfolding selected
length-selected set more [] h = omega arith
length-selected set more (s ∷ ss) h = ground (arith, length-selected set more ss h, h s.id)

-- How one session counts, by whether the set holds it.
abbrev counts : Bool → ℕ
counts true = 1
counts false = 0

selected-step :
    (set : List String) (s : SessionEntry) (ss : List SessionEntry)
    → length (selected set (s ∷ ss)) ≡ counts (contains set s.id) + length (selected set ss)
unfolding selected
selected-step set s ss = ground arith

gate_count_seen :
    (excess : ℕ) (s : SessionEntry) (ss : List SessionEntry) (set : List String)
    → contains set s.id ≡ true
    → gate_count (suc excess) (s ∷ ss) set ≡ gate_count (suc excess) ss set
unfolding gate_count
gate_count_seen excess s ss set e = rw e

gate_count_new :
    (excess : ℕ) (s : SessionEntry) (ss : List SessionEntry) (set : List String)
    → contains set s.id ≡ false
    → gate_count (suc excess) (s ∷ ss) set ≡ gate_count excess ss (s.id ∷ set)
unfolding gate_count
gate_count_new excess s ss set e = rw e

-- The count gate selects its excess beyond what was selected already, as far as there are candidates.
pub gate_count-selected :
    (excess : ℕ) (ss : List SessionEntry) (set : List String)
    → min (excess + length (selected set ss)) (length ss)
      ≤ length (selected (gate_count excess ss set) ss)
unfolding gate_count
gate_count-selected excess [] set = omega arith
gate_count-selected zero (s ∷ ss) set = omega arith
gate_count-selected (suc excess) (s ∷ ss) set = elim (Bool-cases (contains set s.id)) [
  | inl e ↦ rw (gate_count_seen excess s ss set e) (
      omega (
        arith,
        gate_count-selected (suc excess) ss set,
        selected-step set s ss,
        selected-step (gate_count (suc excess) ss set) s ss,
        ap counts e,
        ap counts (Within-gate_count (suc excess) ss set s.id e),
      ))
  | inr e ↦ rw (gate_count_new excess s ss set e) (
      omega (
        arith,
        gate_count-selected excess ss (s.id ∷ set),
        length-selected set (s.id ∷ set) ss (Within-add set s.id),
        selected-step set s ss,
        selected-step (gate_count excess ss (s.id ∷ set)) s ss,
        ap counts e,
        ap counts (Within-gate_count excess ss (s.id ∷ set) s.id (contains-add set s.id)),
      ))
]

total_size-selected :
    (set more : List String) (ss : List SessionEntry)
    → Within set more
    → total_size (selected set ss) ≤ total_size (selected more ss)
unfolding selected total_size
total_size-selected set more [] h = omega arith
total_size-selected set more (s ∷ ss) h = ground (arith, total_size-selected set more ss h, h s.id)

-- The bytes of one session, by whether the set holds it.
abbrev bytes : Bool → SessionEntry → ℕ
bytes true s = s.size
bytes false s = 0

total_size-step :
    (set : List String) (s : SessionEntry) (ss : List SessionEntry)
    → total_size (selected set (s ∷ ss))
      ≡ bytes (contains set s.id) s + total_size (selected set ss)
unfolding selected total_size
total_size-step set s ss = ground arith

-- What the size gate reaches from a set: all sessions, or the limit.
abbrev Reduced : (max_bytes remaining : ℕ) → List SessionEntry → (set more : List String) → Type 0
Reduced max_bytes remaining ss set more =
    (length ss ≤ length (selected more ss))
    ⊎ (remaining + total_size (selected set ss) ≤ max_bytes + total_size (selected more ss))

Reduced-step :
    (max_bytes remaining left : ℕ) (s : SessionEntry) (ss : List SessionEntry)
    (set set' more : List String)
    → contains more s.id ≡ true
    → Within set set'
    → remaining + bytes (contains set s.id) s ≤ left + s.size
    → Reduced max_bytes left ss set' more
    → Reduced max_bytes remaining (s ∷ ss) set more
Reduced-step max_bytes remaining left s ss set set' more e sub less (inl all) =
    inl (omega (arith, selected-step more s ss, ap counts e))
Reduced-step max_bytes remaining left s ss set set' more e sub less (inr low) = inr (
    omega (
      arith,
      total_size-step more s ss,
      total_size-step set s ss,
      ap (λ b. bytes b s) e,
      total_size-selected set set' ss sub,
    ))

pub gate_size-Reduced :
    (max_bytes remaining : ℕ) (ss : List SessionEntry) (set : List String)
    → Reduced max_bytes remaining ss set (gate_size max_bytes remaining ss set)
unfolding gate_size
gate_size-Reduced max_bytes remaining [] set = inl (omega arith)
gate_size-Reduced max_bytes remaining (s ∷ ss) set = elim (Bool-cases (leb remaining max_bytes)) [
  | inl le ↦ rw le (inr (ground (arith, le)))
  | inr gt ↦ elim (Bool-cases (contains set s.id)) [
    | inl e ↦
        rw (gt, e)
          (Reduced-step max_bytes remaining remaining s ss set set
            (gate_size max_bytes remaining ss set)
            (Within-gate_size max_bytes remaining ss set s.id e) (λ id h. h)
            (omega (arith, ap (λ b. bytes b s) e)) (gate_size-Reduced max_bytes remaining ss set))
    | inr e ↦
        let more = gate_size max_bytes (remaining - s.size) ss (s.id ∷ set) in
        rw (gt, e)
          (Reduced-step max_bytes remaining (remaining - s.size) s ss set (s.id ∷ set) more
            (Within-gate_size max_bytes (remaining - s.size) ss (s.id ∷ set) s.id
              (contains-add set s.id))
            (Within-add set s.id) (omega (arith, ap (λ b. bytes b s) e))
            (gate_size-Reduced max_bytes (remaining - s.size) ss (s.id ∷ set)))
  ]
]
