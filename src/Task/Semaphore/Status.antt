-- ===== src/Task/Semaphore/Status.antt =====
-- Listing and clearing the slots, src/task/semaphore.rs.
use anser.Prelude.{
  ℕ, ◌≡◌, refl, true, Option, none, some, inl, inr, List, [], ◌∷◌, ◌++◌, arith, ◌≢◌, ◌+◌, ◌||◌, ◌↔◌,
  if◌then◌else◌, nat_key, nat_eqb_iff, Option-cases, Key-cases, sym, ap, ==_ne, length,
  length-append, length-map, leb, map,
}
use mathlib.Core.List.{append_assoc, append-nil, map-append}
use anser.Prelude.Dict.{lookup, lookup-erase, lookup-erase_ne}
use anser.Task.Leases.{Env, Slots, Lease, lives, lease_reclaimable, unlink, read_lease, range}
use anser.Task.Semaphore.{
  live, alien_among, alien_tenant_active, clear_reclaimable, clear_among, names, SlotEntry, Holders,
  no_holders, visit, collect, slot_status, nonempty, list_among, list_slots,
}
use anser.Task.Semaphore.Passes.{Among}

abbrev pub lease_of : SlotEntry → Lease
lease_of e = e.lease

unlink_elsewhere :
    (env : Env) (j : ℕ) (s : Slots) (i : ℕ) → i ≢ j → read_lease i (unlink env j s) ≡ read_lease i s
unfolding unlink read_lease
unlink_elsewhere env j s i ne = ground (arith, lookup-erase_ne i j s ne)

lookup_of_lease :
    (i : ℕ) (s : Slots) (l : Lease) → read_lease i s ≡ some l → lookup i s ≡ some (some l)
unfolding read_lease
lookup_of_lease i s l e = ground arith

lease_of_lookup :
    (i : ℕ) (s : Slots) (l : Lease) → lookup i s ≡ some (some l) → read_lease i s ≡ some l
unfolding read_lease
lease_of_lookup i s l e = ground arith

module _ (env : Env) where
  clear_among_kept :
      (is : List ℕ) (s : Slots) (i : ℕ) (l : Lease)
      → read_lease i s ≡ some l
      → lives env l.tenant ≡ true
      → read_lease i (clear_among env is s) ≡ some l
  unfolding clear_among
  clear_among_kept [] s i l e a = e
  clear_among_kept (j ∷ is) s i l e a = clear_among_kept is _ i l (kept j s i l e a) a
    where
      kept :
          (j : ℕ) (s : Slots) (i : ℕ) (l : Lease)
          → read_lease i s ≡ some l
          → lives env l.tenant ≡ true
          → read_lease i (if lease_reclaimable env (read_lease j s) then unlink env j s else s)
            ≡ some l
      kept j s i l e a = elim (Key-cases i j) [
        | inl at ↦ ground (arith, ap (λ k. read_lease k s) at)
        | inr ne ↦ ground (arith, unlink_elsewhere env j s i ne)
      ]

  clear_among_sub :
      (is : List ℕ) (s : Slots) (i : ℕ) (file : Option Lease)
      → lookup i (clear_among env is s) ≡ some file
      → lookup i s ≡ some file
  unfolding clear_among unlink
  clear_among_sub [] s i file e = e
  clear_among_sub (j ∷ is) s i file e = ground (
    arith,
    clear_among_sub is (if lease_reclaimable env (read_lease j s) then unlink env j s else s) i
        file,
    lookup-erase i j s,
  )

  clear_among-live :
      (is : List ℕ) (s : Slots) (i : ℕ) (file : Option Lease)
      → env.dir_ok ≡ true
      → Among i is
      → lookup i (clear_among env is s) ≡ some file
      → live env file ≡ true
  unfolding clear_among unlink read_lease
  clear_among-live [] s i file d m e = elim m [ ]
  clear_among-live (j ∷ is) s i file d (inr m) e = clear_among-live is _ i file d m e
  clear_among-live (j ∷ is) s i file d (inl at) e = ground (
    arith,
    clear_among_sub is (if lease_reclaimable env (read_lease j s) then unlink env j s else s) i file
        e,
    lookup-erase i j s,
    ap (λ k. read_lease k s) at,
    nat_eqb_iff i j,
  )

  names-Among :
      (s : Slots) (i : ℕ) (file : Option Lease) → lookup i s ≡ some file → Among i (names s)
  unfolding names lookup
  names-Among [] i file e = cc
  names-Among ((j, f) ∷ s) i file e = elim (Key-cases i j) [
    | inl at ↦ inl at
    | inr ne ↦ inr (names-Among s i file (rw (==_ne i j ne) at e))
  ]

  -- Where the directory can be written, the leases that clearing leaves are exactly those of live
  -- tenants.
  pub clear_reclaimable_live :
      (s : Slots) (i : ℕ) (l : Lease)
      → env.dir_ok ≡ true
      → (lookup i (clear_reclaimable env s) ≡ some (some l))
        ↔ ((lookup i s ≡ some (some l)) × (lives env l.tenant ≡ true))
  unfolding clear_reclaimable
  clear_reclaimable_live s i l d = (
    λ e.
        let before = clear_among_sub (names s) s i (some l) e in
        (
          before,
          ground (
            arith,
            clear_among-live (names s) s i (some l) d (names-Among s i (some l) before) e,
          ),
        ),
    λ h. lookup_of_lease i _ l (clear_among_kept (names s) s i l (lease_of_lookup i s l h.0) h.1),
  )

  collect_counts :
      (tenant : ℕ) (is : List ℕ) (s : Slots) (h : Holders)
      → length h.slots ≡ length h.alien_holders + length h.same_holders
      → let g = collect env tenant is s h in
        length g.slots ≡ length g.alien_holders + length g.same_holders
  unfolding collect
  collect_counts tenant [] s h e = e
  collect_counts tenant (i ∷ is) s h e = collect_counts tenant is s _ (visited (read_lease i s))
    where
      visited :
          (o : Option Lease)
          → length (visit env tenant i o h).slots
            ≡ length (visit env tenant i o h).alien_holders
              + length (visit env tenant i o h).same_holders
      visited none = e
      visited (some l) =
          let x : SlotEntry = record { slot = i; lease = l } in
          ground (
            arith,
            length-append h.slots (x ∷ []),
            length-append h.alien_holders (x ∷ []),
            length-append h.same_holders (x ∷ []),
          )

  collect_listed :
      (tenant : ℕ) (is : List ℕ) (s : Slots) (h : Holders)
      → map lease_of (collect env tenant is s h).slots ≡ map lease_of h.slots ++ list_among env is s
  unfolding collect list_among
  collect_listed tenant [] s h = sym (append-nil (map lease_of h.slots))
  collect_listed tenant (i ∷ is) s h = elim (Option-cases (read_lease i s)) [
    | inl e ↦ ground (arith, collect_listed tenant is s h)
    | inr (l, e) ↦
        let x : SlotEntry = record { slot = i; lease = l } in
        ground (
          arith,
          collect_listed tenant is s (visit env tenant i (some l) h),
          map-append lease_of h.slots (x ∷ []),
          append_assoc (map lease_of h.slots) (l ∷ []) (list_among env is s),
        )
  ]

  nonempty-append : (xs : List SlotEntry) (x : SlotEntry) → nonempty (xs ++ x ∷ []) ≡ true
  nonempty-append [] x = refl
  nonempty-append (_ ∷ _) x = refl

  collect_alien :
      (is : List ℕ) (s : Slots) (h : Holders)
      → nonempty (collect env env.pid is s h).alien_holders
        ≡ (nonempty h.alien_holders || alien_among env env.pid is s)
  unfolding collect alien_among
  collect_alien [] s h = ground arith
  collect_alien (i ∷ is) s h = elim (Option-cases (read_lease i s)) [
    | inl e ↦ ground (arith, collect_alien is s h)
    | inr (l, e) ↦
        let x : SlotEntry = record { slot = i; lease = l } in
        ground (
          arith,
          collect_alien is s (visit env env.pid i (some l) h),
          nonempty-append h.alien_holders x,
        )
  ]

  -- The status report agrees with the other routines: its entries hold the leases that `list_slots`
  -- lists, in that order; they split into the holders of the tenant asked for and the others; the
  -- slots count as fully occupied exactly if `list_slots` fills them; and for the calling process
  -- others are active exactly if `acquire` would wait for an alien tenant.
  pub slot_status_agrees :
      (n tenant : ℕ) (s : Slots)
      → (map lease_of (slot_status env n tenant s).holders.slots ≡ list_slots env n s)
        × (length (list_slots env n s)
            ≡ length (slot_status env n tenant s).holders.alien_holders
              + length (slot_status env n tenant s).holders.same_holders)
        × ((slot_status env n tenant s).is_fully_occupied ≡ leb n (length (list_slots env n s)))
        × ((slot_status env n env.pid s).is_alien_active ≡ alien_tenant_active env n s)
  unfolding slot_status list_slots alien_tenant_active
  slot_status_agrees n tenant s = ground (
    arith,
    listed,
    collect_counts tenant (range n 0) s no_holders refl,
    collect_alien (range n 0) s no_holders,
    length-map lease_of (collect env tenant (range n 0) s no_holders).slots,
  )
    where
      listed :
          map lease_of (collect env tenant (range n 0) s no_holders).slots
          ≡ list_among env (range n 0) s
      listed = collect_listed tenant (range n 0) s no_holders
