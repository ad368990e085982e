-- ===== src/Approval/Samples.antt =====
-- Sample data for the tests of pkg/approval: a signer, tasks, and gates.
use text.Mathlib.TextEquality.{eq_iff}
use dicode_core.Prelude.{
  ne_of, String, refl, ◌≢◌, Bool, true, false, none, some, List, [], ◌∷◌, ◌==◌, if◌then◌else◌,
  arith, string_eq,
}
use dicode_core.Approval.Lock.{Signer, Tasks, Lock}
use dicode_core.Approval.Gate.{Kinded, Config, Gate, Outside, PendingEntry}

-- Two texts that differ, by evaluation.
-- A signer that separates two keys and the bootstrapped flag.
abbrev pub sample_mac : String → Bool → Tasks → String
sample_mac key true t = if key == "k1" then "a1" else "b1"
sample_mac key false t = if key == "k1" then "a0" else "b0"

pub sample_mac_nonempty : (key : String) (b : Bool) (t : Tasks) → sample_mac key b t ≢ ""
sample_mac_nonempty key true t e =
    ground (arith, eq_iff key "k1", ne_of "a1" "" refl, ne_of "b1" "" refl)
sample_mac_nonempty key false t e =
    ground (arith, eq_iff key "k1", ne_of "a0" "" refl, ne_of "b0" "" refl)

abbrev pub sample_signer : Signer
sample_signer = record {
  mac_v2 = λ key t. sample_mac key false t;
  mac_v3 = sample_mac;
  to_lower = λ s. s;
  mac_v3_lower = λ k b t. refl;
  mac_v3_nonempty = sample_mac_nonempty;
}

abbrev pub approved_a : Tasks
approved_a =
    ("src/a", record { hash = "h1"; approved_at = 5; approved_by = "manual"; commit = "c1" }) ∷ []

abbrev pub sample_lock : Tasks → Lock
sample_lock tasks = record {
  signing_key = some "k1";
  tampered = false;
  bootstrapped = true;
  tasks = tasks;
  disk = none;
}

-- A task is its id and its content, which is its own hash.
abbrev pub SampleTask : Type 0
SampleTask = String × String

instance abbrev pub sample_kinded : Kinded SampleTask
sample_kinded = record { task_id = λ k. k.0; is_enabled = λ k. true }

abbrev pub sample_config : Config SampleTask
sample_config = record {
  policy = record { enabled = true; trusted_sources = "ops" ∷ []; trusted_tasks = [] };
  builtin_pinned = false;
  preview = none;
}

abbrev pub sample_outside : Bool → Outside SampleTask
sample_outside write_ok = record {
  hash_of = λ k. some k.1;
  commit_of = λ k. ("c1", "origin");
  arm_error = λ k. false;
  now = 7;
  write_ok = write_ok;
}

abbrev pub held_a : PendingEntry SampleTask
held_a = record {
  kinded = ("src/a", "h1");
  hash = "h1";
  commit = "c1";
  remote = "origin";
  base_commit = "";
  enabled = true;
}

abbrev pub sample_gate : Tasks → List (String × PendingEntry SampleTask) → Gate SampleTask
sample_gate tasks pending = record {
  lock = sample_lock tasks;
  pending = pending;
  admitted = ("src/a", ("src/a", "h1")) ∷ [];
  bootstrap = false;
  hook = true;
  armed = [];
  notified = [];
}
