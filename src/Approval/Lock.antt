-- ===== src/Approval/Lock.antt =====
-- pkg/approval/lock.go: the approval records and their signed file, dicode.lock.
-- HMAC over the canonical JSON is the parameter `Signer`; a write of the file either replaces it
-- whole or fails, and `write_ok` is its outcome.
pub mod Records
pub mod Integrity
mod Tests
use dicode_core.Prelude.{
  ℕ, String, ◌≡◌, ◌≢◌, Bool, true, false, ◌&&◌, Option, none, some, List, [], ltb, ◌==◌,
  if◌then◌else◌, nat_eq, string_eq,
}
use dicode_core.Prelude.Dict.{lookup, insert, delete}

pub record Record : Type 0 where
  pub hash : String
  pub approved_at : ℕ
  pub approved_by : String
  pub commit : String

abbrev pub new_record : ℕ → String → String → String → Record
new_record now hash by commit = record {
  hash = hash;
  approved_at = now;
  approved_by = by;
  commit = commit;
}

abbrev pub Tasks : Type 0
Tasks = List (String × Record)

-- The on-disk shape; an absent `mac` is "".
pub record LockFile : Type 0 where
  pub version : ℕ
  pub mac : String
  pub bootstrapped : Bool
  pub tasks : Tasks

abbrev pub lock_version_unsigned : ℕ
lock_version_unsigned = 1

abbrev pub lock_version : ℕ
lock_version = 2

abbrev pub lock_version_bootstrapped : ℕ
lock_version_bootstrapped = 3

-- Hex HMAC-SHA256 under a key, and `strings.ToLower`.
pub record Signer : Type 0 where
  pub mac_v2 : String → Tasks → String
  pub mac_v3 : String → Bool → Tasks → String
  pub to_lower : String → String
  pub mac_v3_lower : (k : String) (b : Bool) (t : Tasks) → to_lower (mac_v3 k b t) ≡ mac_v3 k b t
  pub mac_v3_nonempty : (k : String) (b : Bool) (t : Tasks) → mac_v3 k b t ≢ ""

-- `disk` is the file, `none` when it does not exist.
pub record Lock : Type 0 where
  pub signing_key : Option String
  pub tampered : Bool
  pub bootstrapped : Bool
  pub tasks : Tasks
  pub disk : Option LockFile

pub data LockError : Type 0 where
  read_failed parse_failed write_failed empty_hash : LockError

-- What `os.ReadFile` and `yaml.Unmarshal` give.
pub data FileRead : Type 0 where
  missing unreadable malformed : FileRead
  parsed : LockFile → FileRead

pub data Loaded : Type 0 where
  loaded : Lock → Loaded
  load_failed : LockError → Loaded

unfoldable pub approved : Lock → String → String → Bool
approved l id hash =
    if hash == ""
    then false
    else elim (lookup id l.tasks) [ none ↦ false | some rec ↦ rec.hash == hash ]

-- All records discarded.
abbrev pub as_tampered : Lock → Lock
as_tampered l = record l { tampered = true; bootstrapped = false; tasks = [] }

abbrev pub fresh : Option String → Tasks → Option LockFile → Lock
fresh key tasks disk = record {
  signing_key = key;
  tampered = false;
  bootstrapped = false;
  tasks = tasks;
  disk = disk;
}

module _ (signer : Signer) where
  -- The file that `save` writes.
  unfoldable pub sealed_file : Lock → LockFile
  sealed_file l = elim l.signing_key [
    | none ↦ record {
      version = lock_version_unsigned;
      mac = "";
      bootstrapped = l.bootstrapped;
      tasks = l.tasks;
    }
    | some key ↦ record {
      version = lock_version_bootstrapped;
      mac = signer.mac_v3 key l.bootstrapped l.tasks;
      bootstrapped = l.bootstrapped;
      tasks = l.tasks;
    }
  ]

  unfoldable pub save : Bool → Lock → Option LockError × Lock
  save write_ok l =
      if write_ok then (none, record l { disk = some (sealed_file l) }) else (some write_failed, l)

  unfoldable pub verify_mac_v2 : String → Lock → String → Bool
  verify_mac_v2 key l mac_hex = signer.mac_v2 key l.tasks == signer.to_lower mac_hex

  unfoldable pub verify_mac : String → Lock → String → Bool
  verify_mac key l mac_hex = signer.mac_v3 key l.bootstrapped l.tasks == signer.to_lower mac_hex

  abbrev after_save : Option LockError × Lock → Loaded
  after_save (none, l) = loaded l
  after_save (some e, l) = load_failed e

  -- A file with a key at hand: the version decides what its MAC covers.
  unfoldable pub check_file : String → Bool → LockFile → Lock → Loaded
  unfolding save verify_mac verify_mac_v2
  check_file key write_ok lf l =
      if lf.mac == ""
      then (if ltb lock_version_unsigned lf.version
          then loaded (as_tampered l)
          else after_save (save write_ok l))
      else if lf.version == lock_version
      then (if verify_mac_v2 key l lf.mac
          then after_save (save write_ok l)
          else loaded (as_tampered l))
      else if lf.version == lock_version_bootstrapped
      then (let l' = record l { bootstrapped = lf.bootstrapped } in
          if verify_mac key l' lf.mac then loaded l' else loaded (as_tampered l))
      else loaded (as_tampered l)

  unfoldable pub load_signed_lock : Option String → Bool → FileRead → Loaded
  unfolding check_file
  load_signed_lock key write_ok missing = loaded (fresh key [] none)
  load_signed_lock key write_ok unreadable = load_failed read_failed
  load_signed_lock key write_ok malformed = load_failed parse_failed
  load_signed_lock none write_ok (parsed lf) = loaded (fresh none lf.tasks (some lf))
  load_signed_lock (some key) write_ok (parsed lf) =
      check_file key write_ok lf (fresh (some key) lf.tasks (some lf))

  -- `Record`; the map is written before the file is.
  unfoldable pub record_approval :
      (now : ℕ) (write_ok : Bool) (id hash by commit : String) → Lock → Option LockError × Lock
  unfolding save
  record_approval now write_ok id hash by commit l =
      if hash == ""
      then (some empty_hash, l)
      else if approved l id hash
      then (none, l)
      else save write_ok (record l { tasks = insert id (new_record now hash by commit) l.tasks })

  unfoldable pub remove : Bool → String → Lock → Option LockError × Lock
  unfolding save
  remove write_ok id l = elim (lookup id l.tasks) [
    | none ↦ (none, l)
    | some rec ↦ save write_ok (record l { tasks = delete id l.tasks })
  ]

  unfoldable pub mark_bootstrapped : Bool → Lock → Option LockError × Lock
  unfolding save
  mark_bootstrapped write_ok l =
      if l.bootstrapped
      then (none, l)
      else (let (err, l') = save write_ok (record l { bootstrapped = true }) in
          elim err [ none ↦ (none, l') | some e ↦ (some e, record l' { bootstrapped = false }) ])
