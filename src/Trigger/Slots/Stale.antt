-- ===== src/Trigger/Slots/Stale.antt =====
-- pkg/trigger/daemon_slot.go: a handle that lost its entry never has it back, whatever happens.
use dicode_core.Prelude.{
  ℕ, ◌<◌, String, ◌≡◌, true, false, Option, none, some, List, [], ◌∷◌, length, length-append,
  length-set, arith, nat_eq, string_eq, Option-cases, inl, inr,
}
use dicode_core.Prelude.Dict.{lookup, delete, lookup-insert, lookup-delete}
use dicode_core.Trigger.Slots.{
  SlotKey, SlotEntry, new_entry, write, slot_key_eq, DaemonSlot, Slots, deref, claim_key,
  daemon_key, evict, owned, attach, park, adopt, release, bound,
}

-- One call on the slots, by any holder of any handle.
pub data Op : Type 0 where
  claim_op : SlotKey → Op
  evict_op : String → Op
  attach_op : Option DaemonSlot → String → Op
  park_op : Option DaemonSlot → Op
  adopt_op : Option DaemonSlot → String → Op
  release_op : Option DaemonSlot → String → Op

unfoldable pub step : Op → Slots → Slots
step (claim_op k) s = (claim_key k s).1
step (evict_op id) s = (evict id s).1
step (attach_op h r) s = (attach h r s).1
step (park_op h) s = (park h s).1
step (adopt_op h r) s = (adopt h r s).1
step (release_op h r) s = (release h r s).1

unfoldable pub run_ops : List Op → Slots → Slots
unfolding step
run_ops [] s = s
run_ops (op ∷ ops) s = run_ops ops (step op s)

-- The entry was allocated, and is no longer the one in the map.
abbrev pub IsStale : DaemonSlot → Slots → Type 0
IsStale h s = (h.e < length s.heap) × (owned h s ≡ false)

claim-IsStale :
    (h : DaemonSlot) (k : SlotKey) (s : Slots) → IsStale h s → IsStale h (claim_key k s).1
unfolding claim_key owned
claim-IsStale h k s st =
    ground (arith, lookup-insert k h.k (length s.heap) s.m, length-append s.heap (new_entry ∷ []))

-- A write to an entry moves no entry and rebinds no key.
write-IsStale :
    (h : DaemonSlot) (e : ℕ) (v : SlotEntry) (s : Slots) → IsStale h s → IsStale h (write e v s)
unfolding owned
write-IsStale h e v s st = ground (arith, length-set s.heap e v)

delete-IsStale :
    (h : DaemonSlot) (k : SlotKey) (s : Slots)
    → IsStale h s
    → IsStale h (record s { m = delete k s.m })
unfolding owned
delete-IsStale h k s st = ground (arith, lookup-delete k h.k s.m)

evict-IsStale : (h : DaemonSlot) (id : String) (s : Slots) → IsStale h s → IsStale h (evict id s).1
evict-IsStale h id s st = elim (Option-cases (lookup (daemon_key id) s.m)) [
  | inl e ↦ unfold evict in rw (e, evict) st
  | inr (e, found) ↦
      unfold evict in
      rw (found, evict) (write-IsStale h e _ _ (delete-IsStale h (daemon_key id) s st))
]

step-IsStale : (h : DaemonSlot) (op : Op) (s : Slots) → IsStale h s → IsStale h (step op s)
unfolding step attach park adopt release
step-IsStale h (claim_op k) s st = claim-IsStale h k s st
step-IsStale h (evict_op id) s st = evict-IsStale h id s st
step-IsStale h (attach_op (some o) r) s st =
    ground (arith, write-IsStale h o.e (record (deref o.e s) { run_id = r; parked = false }) s st)
step-IsStale h (park_op (some o)) s st =
    ground (arith, write-IsStale h o.e (record (deref o.e s) { parked = true }) s st)
step-IsStale h (adopt_op (some o) r) s st =
    ground (arith, write-IsStale h o.e (record (deref o.e s) { run_id = r; parked = false }) s st)
step-IsStale h (release_op (some o) r) s st = ground (arith, delete-IsStale h o.k s st)
step-IsStale h (attach_op none r) s st = st
step-IsStale h (park_op none) s st = st
step-IsStale h (adopt_op none r) s st = st
step-IsStale h (release_op none r) s st = st

run_ops-IsStale :
    (h : DaemonSlot) (ops : List Op) (s : Slots) → IsStale h s → IsStale h (run_ops ops s)
unfolding run_ops
run_ops-IsStale h [] s st = st
run_ops-IsStale h (op ∷ ops) s st = run_ops-IsStale h ops (step op s) (step-IsStale h op s st)

-- What a handle can still do: nothing. Each method fails and leaves the slots alone.
pub record IsInert (h : DaemonSlot) (s : Slots) : Type 0 where
  pub attach_fails : (r : String) → attach (some h) r s ≡ (false, s)
  pub park_fails : park (some h) s ≡ (false, s)
  pub adopt_fails : (r : String) → adopt (some h) r s ≡ (false, s)
  pub release_fails : (r : String) → release (some h) r s ≡ (false, s)
  pub bound_fails : (r : String) → bound (some h) r s ≡ false

IsInert-of_stale : (h : DaemonSlot) (s : Slots) → owned h s ≡ false → IsInert h s
unfolding attach park adopt release bound
IsInert-of_stale h s st = record {
  attach_fails = λ r. ground (arith, st);
  park_fails = ground (arith, st);
  adopt_fails = λ r. ground (arith, st);
  release_fails = λ r. ground (arith, st);
  bound_fails = λ r. ground (arith, st);
}

-- A handle whose entry was evicted or released stays without effect, through any later calls on the
-- slots by any holder, new claims of the same daemon among them.
pub IsStale-IsInert :
    (h : DaemonSlot) (ops : List Op) (s : Slots) → IsStale h s → IsInert h (run_ops ops s)
IsStale-IsInert h ops s st = IsInert-of_stale h (run_ops ops s) (run_ops-IsStale h ops s st).1
