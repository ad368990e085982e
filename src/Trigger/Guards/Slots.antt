-- ===== src/Trigger/Guards/Slots.antt =====
-- pkg/trigger/engine_guardrails.go: the counters against the runs that hold a slot.
use text.Mathlib.TextEquality.{eq_iff}
use dicode_core.Prelude.{
  ℕ, suc, ◌+◌, ◌-◌, ◌<◌, String, ◌≡◌, ◌↔◌, true, List, [], ◌∷◌, length, arith, ◌==◌, if◌then◌else◌,
  string_eq,
}
use dicode_core.Prelude.Dict.{lookup-insert}
use dicode_core.Trigger.Guards.{ChainGuards, per_task, or_default, acquire_slot, release_slot}

abbrev pub count : String → List String → ℕ
count id [] = 0
count id (j ∷ held) = let rest = count id held in if j == id then suc rest else rest

abbrev pub erase : String → List String → List String
erase id [] = []
erase id (j ∷ held) = let rest = erase id held in if j == id then held else j ∷ rest

-- The counters count the runs in flight, each named by the task whose failure it handles.
pub record Counts (held : List String) (g : ChainGuards) : Type 0 where
  pub each : (id : String) → per_task id g ≡ count id held
  pub total : g.in_flight_global ≡ length held

count-erase :
    (id j : String) (held : List String)
    → count j (erase id held) ≡ (if id == j then count j held - 1 else count j held)
count-erase id j [] = ground arith
count-erase id j (i ∷ held) =
    ground (arith, eq_iff i id, eq_iff i j, eq_iff id j, count-erase id j held)

length-erase :
    (id : String) (held : List String)
    → 0 < count id held
    → length (erase id held) + 1 ≡ length held
length-erase id [] h = omega arith
length-erase id (i ∷ held) h = ground (arith, length-erase id held)

-- Whether both caps, or their defaults 1 and 3, have room.
abbrev pub HasRoom : String → ℕ → ℕ → List String → Type 0
HasRoom id cap global_cap held =
    (count id held < or_default cap 1) × (length held < or_default global_cap 3)

acquire_sound :
    (id : String) (cap global_cap : ℕ) (held : List String) (g : ChainGuards)
    → Counts held g
    → (acquire_slot id cap global_cap g).0 ≡ true
    → HasRoom id cap global_cap held
unfolding acquire_slot
acquire_sound id cap global_cap held g c h = ground (arith, c.each id, c.total)

acquire_complete :
    (id : String) (cap global_cap : ℕ) (held : List String) (g : ChainGuards)
    → Counts held g
    → HasRoom id cap global_cap held
    → (acquire_slot id cap global_cap g).0 ≡ true
unfolding acquire_slot
acquire_complete id cap global_cap held g c h = ground (arith, c.each id, c.total)

acquire_slot-Counts :
    (id : String) (cap global_cap : ℕ) (held : List String) (g : ChainGuards)
    → Counts held g
    → let (given, g') = acquire_slot id cap global_cap g in
      Counts (if given then id ∷ held else held) g'
unfolding acquire_slot
acquire_slot-Counts id cap global_cap held g c = record {
  each = λ j. ground (
    arith,
    c.each id,
    c.each j,
    eq_iff id j,
    lookup-insert id j (per_task id g + 1) g.in_flight_per_task,
  );
  total = ground (arith, c.total);
}

-- Where the counters count the runs in flight: a slot is given exactly while both caps have room; then the counters count one more run of that
-- task, and otherwise the same runs as before.
pub acquire_slot_lem :
    (id : String) (cap global_cap : ℕ) (held : List String) (g : ChainGuards)
    → Counts held g
    → let (given, g') = acquire_slot id cap global_cap g in
      ((given ≡ true) ↔ HasRoom id cap global_cap held)
      × Counts (if given then id ∷ held else held) g'
acquire_slot_lem id cap global_cap held g c = (
  (acquire_sound id cap global_cap held g c, acquire_complete id cap global_cap held g c),
  acquire_slot-Counts id cap global_cap held g c,
)

-- Where the counters count the runs in flight: the end of a run that holds a slot gives back that slot and no other.
pub release_slot-Counts :
    (id : String) (held : List String) (g : ChainGuards)
    → Counts held g
    → 0 < count id held
    → Counts (erase id held) (release_slot id g)
unfolding release_slot
release_slot-Counts id held g c h = record {
  each = λ j. ground (
    arith,
    c.each id,
    c.each j,
    eq_iff id j,
    count-erase id j held,
    lookup-insert id j (per_task id g - 1) g.in_flight_per_task,
  );
  total = ground (arith, c.each id, c.total, length-erase id held h);
}

-- A release for a task that holds no slot takes one from the others: the global count is then one
-- less than the runs in flight.
pub release_slot-unheld :
    (id : String) (held : List String) (g : ChainGuards)
    → Counts held g
    → count id held ≡ 0
    → (release_slot id g).in_flight_global ≡ length held - 1
unfolding release_slot
release_slot-unheld id held g c h = ground (arith, c.each id, c.total)
