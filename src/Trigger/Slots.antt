-- ===== src/Trigger/Slots.antt =====
-- pkg/trigger/daemon_slot.go: at most one body in flight for a daemon or a pipeline.
-- A *slotEntry is an address into `heap`, so that handles and the map share entries as in the source.
-- A mutex makes each method one step. The zero handle is `none`, the absent run id "".
pub mod Stale
pub mod Claims
mod Tests
use text.Mathlib.TextEquality.{eq_iff}
use dicode_core.Prelude.{
  ℕ, String, ◌≡◌, ◌↔◌, Bool, true, false, not, ◌&&◌, ◌||◌, Option, none, some, List, [], ◌∷◌, ◌++◌,
  Keyed, length, set, get_elem?, ◌==◌, if◌then◌else◌, string_eq, nat_eq, arith,
}
use dicode_core.Prelude.Dict.{lookup, insert, delete}

pub record SlotKey : Type 0 where
  pub pipeline : Bool
  pub id : String

abbrev pub same_bool : Bool → Bool → Bool
same_bool true b = b
same_bool false b = not b

abbrev pub same_key : SlotKey → SlotKey → Bool
same_key a b = same_bool a.pipeline b.pipeline && a.id == b.id

pub same_key_iff : (a b : SlotKey) → (same_key a b ≡ true) ↔ (a ≡ b)
same_key_iff a b = ground (arith, eq_iff a.id b.id)

instance abbrev pub slot_key_eq : Keyed SlotKey
slot_key_eq = record { eqb = same_key; eqb_iff = same_key_iff }

pub record SlotEntry : Type 0 where
  pub run_id : String
  pub parked : Bool
  pub evicted : Bool

abbrev pub new_entry : SlotEntry
new_entry = record { run_id = ""; parked = false; evicted = false }

pub record Slots : Type 0 where
  pub m : List (SlotKey × ℕ)
  pub heap : List SlotEntry

-- `run` is the run that the entry was bound to when the handle was obtained.
pub record DaemonSlot : Type 0 where
  pub k : SlotKey
  pub e : ℕ
  pub run : String

abbrev pub new_slots : Slots
new_slots = record { m = []; heap = [] }

-- `*e`; every address in use is allocated.
abbrev pub deref : ℕ → Slots → SlotEntry
deref e s = elim (get_elem? s.heap e) [ none ↦ new_entry | some v ↦ v ]

abbrev pub write : ℕ → SlotEntry → Slots → Slots
write e v s = record s { heap = set s.heap e v }

abbrev pub daemon_key : String → SlotKey
daemon_key task_id = record { pipeline = false; id = task_id }

unfoldable pub claim_key : SlotKey → Slots → Option DaemonSlot × Slots
claim_key k s = elim (lookup k s.m) [
  | some _ ↦ (none, s)
  | none ↦ (
    some (record { k = k; e = length s.heap; run = "" }),
    record { m = insert k (length s.heap) s.m; heap = s.heap ++ new_entry ∷ [] },
  )
]

abbrev pub claim : String → Slots → Option DaemonSlot × Slots
claim task_id s = claim_key (daemon_key task_id) s

abbrev pub claim_pipeline : String → Slots → Option DaemonSlot × Slots
claim_pipeline pipeline_id s = claim_key (record { pipeline = true; id = pipeline_id }) s

unfoldable pub holding : String → String → Slots → Option DaemonSlot
holding task_id run_id s = if run_id == "" then none else elim (lookup (daemon_key task_id) s.m) [
  | none ↦ none
  | some e ↦
      if (deref e s).run_id == run_id
      then some (record { k = daemon_key task_id; e = e; run = run_id })
      else none
]

unfoldable pub evict : String → Slots → String × Slots
evict task_id s = elim (lookup (daemon_key task_id) s.m) [
  | none ↦ ("", s)
  | some e ↦
      let v = deref e s in
      let s' = record s { m = delete (daemon_key task_id) s.m } in
      (v.run_id, write e (record v { evicted = true }) s')
]

unfoldable pub run_id : String → Slots → String
run_id task_id s = elim (lookup (daemon_key task_id) s.m) [
  | none ↦ ""
  | some e ↦ (deref e s).run_id
]

-- The loop of `runs` over the map.
runs_from : List (SlotKey × ℕ) → Slots → List (String × String) → List (String × String)
runs_from [] s out = out
runs_from ((k, e) ∷ rest) s out = runs_from rest s (
    if not k.pipeline && not ((deref e s).run_id == "")
    then insert k.id (deref e s).run_id out
    else out)

unfoldable pub runs : Slots → List (String × String)
unfolding runs_from
runs s = runs_from s.m s []

unfoldable pub owned : DaemonSlot → Slots → Bool
owned h s = elim (lookup h.k s.m) [ none ↦ false | some e ↦ e == h.e ]

unfoldable pub bound : Option DaemonSlot → String → Slots → Bool
unfolding owned
bound none run_id s = false
bound (some h) run_id s = owned h s && (deref h.e s).run_id == run_id

unfoldable pub evicted : Option DaemonSlot → Slots → Bool
evicted none s = false
evicted (some h) s = (deref h.e s).evicted

unfoldable pub attach : Option DaemonSlot → String → Slots → Bool × Slots
attach none run_id s = (false, s)
attach (some h) run_id s =
    if owned h s
    then (true, write h.e (record (deref h.e s) { run_id = run_id; parked = false }) s)
    else (false, s)

unfoldable pub park : Option DaemonSlot → Slots → Bool × Slots
park none s = (false, s)
park (some h) s =
    if not (owned h s) || not ((deref h.e s).run_id == h.run)
    then (false, s)
    else (true, write h.e (record (deref h.e s) { parked = true }) s)

-- `false` is errSlotSuperseded.
unfoldable pub adopt : Option DaemonSlot → String → Slots → Bool × Slots
adopt none new_run s = (false, s)
adopt (some h) new_run s =
    if h.run == "" || new_run == ""
    then (false, s)
    else if not (owned h s) || not ((deref h.e s).run_id == h.run)
    then (false, s)
    else (true, write h.e (record (deref h.e s) { run_id = new_run; parked = false }) s)

unfoldable pub release : Option DaemonSlot → String → Slots → Bool × Slots
release none run_id s = (false, s)
release (some h) run_id s =
    if not (owned h s) || not ((deref h.e s).run_id == run_id)
    then (false, s)
    else (true, record s { m = delete h.k s.m })

unfoldable pub release_run : String → String → Slots → Bool × Slots
unfolding holding
release_run task_id run_id s = elim (holding task_id run_id s) [
  | none ↦ (false, s)
  | some h ↦ release (some h) run_id s
]
