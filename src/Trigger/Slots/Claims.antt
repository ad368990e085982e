-- ===== src/Trigger/Slots/Claims.antt =====
-- pkg/trigger/daemon_slot.go: who may claim a slot, and what frees it.
use text.Mathlib.TextEquality.{eq_iff}
use dicode_core.Prelude.{
  ℕ, ◌<◌, String, ◌≡◌, Bool, true, false, none, some, List, [], ◌∷◌, length, length-append,
  length-set, arith, nat_eq, string_eq, Option-cases, inl, inr, ◌↔◌, if◌then◌else◌,
  get_elem?-append_length, get_elem?-set_self,
}
use dicode_core.Prelude.Dict.{
  lookup, delete, lookup-insert, lookup-insert_self, lookup-delete, lookup-delete_self,
}
use dicode_core.Trigger.Slots.{
  SlotKey, SlotEntry, new_entry, write, same_key_iff, slot_key_eq, DaemonSlot, Slots, deref,
  claim_key, daemon_key, evict, owned, attach, park, adopt, release, bound, evicted, new_slots,
}
use dicode_core.Trigger.Slots.Stale.{
  IsStale, Op, claim_op, evict_op, attach_op, park_op, adopt_op, release_op, step, run_ops,
}

-- The addresses in the map are allocated, and no two keys share one.
pub record IsWf (s : Slots) : Type 0 where
  pub allocated : (k : SlotKey) (e : ℕ) → lookup k s.m ≡ some e → e < length s.heap
  pub unshared : (k j : SlotKey) (e : ℕ) → lookup k s.m ≡ some e → lookup j s.m ≡ some e → k ≡ j

-- A claimed slot cannot be claimed again, and its holder owns it, unbound.
pub claim_key_lem :
    (k : SlotKey) (s : Slots) (h : DaemonSlot)
    → (claim_key k s).0 ≡ some h
    → let s' = (claim_key k s).1 in
      (h.k ≡ k)
      × (owned h s' ≡ true)
      × (bound (some h) "" s' ≡ true)
      × (claim_key k s' ≡ (none, s'))
unfolding claim_key owned bound
claim_key_lem k s h c = ground (
  arith,
  lookup-insert_self k (length s.heap) s.m,
  get_elem?-append_length s.heap new_entry,
  eq_iff (deref h.e (claim_key k s).1).run_id "",
)

found_of_owned :
    (id : String) (s : Slots) (h : DaemonSlot)
    → h.k ≡ daemon_key id
    → owned h s ≡ true
    → lookup (daemon_key id) s.m ≡ some h.e
unfolding owned
found_of_owned id s h hk o = ground (arith, hk)

release_sound :
    (h : DaemonSlot) (r : String) (s : Slots)
    → (release (some h) r s).0 ≡ true
    → (owned h s ≡ true) × ((deref h.e s).run_id ≡ r)
unfolding release
release_sound h r s ok = ground (arith, eq_iff (deref h.e s).run_id r)

release_complete :
    (h : DaemonSlot) (r : String) (s : Slots)
    → (owned h s ≡ true) × ((deref h.e s).run_id ≡ r)
    → (release (some h) r s).0 ≡ true
unfolding release
release_complete h r s ok = ground (arith, eq_iff (deref h.e s).run_id r)

-- After an eviction from well-formed slots the daemon can be claimed at once; the evicted holder's handle is stale and says
-- that it was evicted.
pub evict_lem :
    (id : String) (s : Slots) (h : DaemonSlot)
    → IsWf s
    → h.k ≡ daemon_key id
    → owned h s ≡ true
    → let s' = (evict id s).1 in
      IsStale h s' × (evicted (some h) s' ≡ true) × (lookup (daemon_key id) s'.m ≡ none)
unfolding evict evicted owned
evict_lem id s h wf hk o =
    let found = found_of_owned id s h hk o in
    let fits = wf.allocated (daemon_key id) h.e found in
    let v = record (deref h.e s) { evicted = true } in
    ground (
      arith,
      hk,
      found,
      fits,
      length-set s.heap h.e v,
      get_elem?-set_self s.heap h.e v fits,
      lookup-delete_self (daemon_key id) s.m,
    )

-- A handle frees its slot exactly when it still owns it and the slot is bound to the given run.
pub release_iff :
    (h : DaemonSlot) (r : String) (s : Slots)
    → ((release (some h) r s).0 ≡ true) ↔ ((owned h s ≡ true) × ((deref h.e s).run_id ≡ r))
release_iff h r s = (release_sound h r s, release_complete h r s)

claim_key-IsWf : (k : SlotKey) (s : Slots) → IsWf s → IsWf (claim_key k s).1
unfolding claim_key
claim_key-IsWf k s wf = record {
  allocated = λ j e f. ground (
    arith,
    wf.allocated j e,
    lookup-insert k j (length s.heap) s.m,
    length-append s.heap (new_entry ∷ []),
  );
  unshared = λ i j e f g. ground (
    arith,
    wf.allocated i e,
    wf.allocated j e,
    wf.unshared i j e,
    same_key_iff k i,
    same_key_iff k j,
    lookup-insert k i (length s.heap) s.m,
    lookup-insert k j (length s.heap) s.m,
  );
}

delete-IsWf : (k : SlotKey) (s : Slots) → IsWf s → IsWf (record s { m = delete k s.m })
delete-IsWf k s wf = record {
  allocated = λ j e f. ground (arith, wf.allocated j e, lookup-delete k j s.m);
  unshared =
      λ i j e f g. ground (arith, wf.unshared i j e, lookup-delete k i s.m, lookup-delete k j s.m);
}

write-IsWf : (e : ℕ) (v : SlotEntry) (s : Slots) → IsWf s → IsWf (write e v s)
write-IsWf e v s wf = record {
  allocated = λ j i f. rw length-set (wf.allocated j i f);
  unshared = wf.unshared;
}

evict-IsWf : (id : String) (s : Slots) → IsWf s → IsWf (evict id s).1
evict-IsWf id s wf = elim (Option-cases (lookup (daemon_key id) s.m)) [
  | inl e ↦ unfold evict in rw (e, evict) wf
  | inr (e, found) ↦
      unfold evict in rw (found, evict) (write-IsWf e _ _ (delete-IsWf (daemon_key id) s wf))
]

if_state : (b : Bool) (x y : Bool × Slots) → IsWf x.1 → IsWf y.1 → IsWf (if b then x else y).1
if_state true x y p q = p
if_state false x y p q = q

step-IsWf : (op : Op) (s : Slots) → IsWf s → IsWf (step op s)
unfolding step attach park adopt release
step-IsWf (claim_op k) s wf = claim_key-IsWf k s wf
step-IsWf (evict_op id) s wf = evict-IsWf id s wf
step-IsWf (attach_op (some o) r) s wf =
    if_state (owned o s) (true, write o.e (record (deref o.e s) { run_id = r; parked = false }) s)
      (false, s) (write-IsWf o.e _ s wf) wf
step-IsWf (park_op (some o)) s wf =
    if_state _ (false, s) (true, write o.e (record (deref o.e s) { parked = true }) s) wf
      (write-IsWf o.e _ s wf)
step-IsWf (adopt_op (some o) r) s wf =
    if_state _ (false, s) _ wf
      (if_state _ (false, s)
        (true, write o.e (record (deref o.e s) { run_id = r; parked = false }) s) wf
        (write-IsWf o.e _ s wf))
step-IsWf (release_op (some o) r) s wf =
    if_state _ (false, s) (true, record s { m = delete o.k s.m }) wf (delete-IsWf o.k s wf)
step-IsWf (attach_op none r) s wf = wf
step-IsWf (park_op none) s wf = wf
step-IsWf (adopt_op none r) s wf = wf
step-IsWf (release_op none r) s wf = wf

run_ops-IsWf : (ops : List Op) (s : Slots) → IsWf s → IsWf (run_ops ops s)
unfolding run_ops
run_ops-IsWf [] s wf = wf
run_ops-IsWf (op ∷ ops) s wf = run_ops-IsWf ops (step op s) (step-IsWf op s wf)

-- From the empty slots, through any calls by any holders, two keys never share an entry.
pub run_ops_new-IsWf : (ops : List Op) → IsWf (run_ops ops new_slots)
run_ops_new-IsWf ops =
    run_ops-IsWf ops new_slots
      (unfold lookup in record { allocated = λ k e f. cc; unshared = λ k j e f g. cc })
