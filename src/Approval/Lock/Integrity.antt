-- ===== src/Approval/Lock/Integrity.antt =====
-- pkg/approval/lock.go: what LoadSignedLock accepts of the file on disk.
use text.Mathlib.TextEquality.{eq_iff}
use text.Mathlib.TextPositions.{eq_refl}
use dicode_core.Prelude.{
  String, ◌≡◌, refl, ◌≢◌, ◌≤◌, ◌⊎◌, Bool, true, false, some, arith, ◌==◌, if◌then◌else◌, string_eq,
  nat_eq, inl, inr,
}
use dicode_core.Approval.Lock.{
  Signer, Lock, LockFile, parsed, loaded, sealed_file, as_tampered, fresh, load_signed_lock,
}

module _ (signer : Signer) where
  -- A lock that holds a key reads back from the file that it saves: the same records and the same
  -- bootstrapped mark, not tampered.
  pub load_signed_lock-sealed_file :
      (l : Lock) (key : String) (w : Bool)
      → l.signing_key ≡ some key
      → load_signed_lock signer (some key) w (parsed (sealed_file signer l))
        ≡ loaded (record {
          signing_key = some key;
          tampered = false;
          bootstrapped = l.bootstrapped;
          tasks = l.tasks;
          disk = some (sealed_file signer l);
        })
  unfolding load_signed_lock sealed_file
  load_signed_lock-sealed_file l key w h = ground (
    arith,
    h,
    eq_iff (signer.mac_v3 key l.bootstrapped l.tasks) "",
    signer.mac_v3_nonempty key l.bootstrapped l.tasks,
    signer.mac_v3_lower key l.bootstrapped l.tasks,
    eq_refl (signer.mac_v3 key l.bootstrapped l.tasks),
  )

  -- What a key accepts: a file with the MAC that its version calls for, or, without a MAC, one that
  -- says that its version is the legacy one.
  abbrev pub IsAccepted : String → LockFile → Type 0
  IsAccepted key lf =
      (lf.mac ≡ "") × (lf.version ≤ 1)
      ⊎ (lf.mac ≢ "") × (lf.version ≡ 2) × (signer.mac_v2 key lf.tasks ≡ signer.to_lower lf.mac)
      ⊎ (lf.mac ≢ "")
        × (lf.version ≡ 3)
        × (signer.mac_v3 key lf.bootstrapped lf.tasks ≡ signer.to_lower lf.mac)

  -- Any file but one with a valid MAC for its version 2 or 3, or with no MAC and a version of at most
  -- 1, read with a key, leaves a tampered lock without records and not bootstrapped.
  pub load_signed_lock-tampered :
      (key : String) (w : Bool) (lf : LockFile)
      → ¬ IsAccepted key lf
      → load_signed_lock signer (some key) w (parsed lf)
        ≡ loaded (as_tampered (fresh (some key) lf.tasks (some lf)))
  unfolding load_signed_lock
  load_signed_lock-tampered key w lf h = ground (
    arith,
    eq_iff lf.mac "",
    eq_iff (signer.mac_v2 key lf.tasks) (signer.to_lower lf.mac),
    eq_iff (signer.mac_v3 key lf.bootstrapped lf.tasks) (signer.to_lower lf.mac),
  )

  -- A file with a valid MAC for its version 2 or 3, or with no MAC and a version of at most 1, read
  -- with a key on a disk that can be written, gives back its records, and is sealed anew unless its
  -- version is 3.
  pub load_signed_lock-authentic :
      (key : String) (lf : LockFile)
      → IsAccepted key lf
      → (l : Lock) × (load_signed_lock signer (some key) true (parsed lf) ≡ loaded l)
        × (l.tampered ≡ false)
        × (l.tasks ≡ lf.tasks)
        × (l.disk ≡ some (if lf.version == 3 then lf else sealed_file signer l))
  unfolding load_signed_lock sealed_file
  load_signed_lock-authentic key lf (inl (e, v)) =
      let l0 = fresh (some key) lf.tasks (some lf) in
      let l = record l0 { disk = some (sealed_file signer l0) } in
      (l, ground (arith, eq_iff lf.mac ""), refl, refl, ground arith)
  load_signed_lock-authentic key lf (inr (inl (ne, v, m))) =
      let l0 = fresh (some key) lf.tasks (some lf) in
      let l = record l0 { disk = some (sealed_file signer l0) } in
      (
        l,
        ground
            (arith, eq_iff lf.mac "", eq_iff (signer.mac_v2 key lf.tasks) (signer.to_lower lf.mac)),
        refl,
        refl,
        ground arith,
      )
  load_signed_lock-authentic key lf (inr (inr (ne, v, m))) =
      let l = record (fresh (some key) lf.tasks (some lf)) { bootstrapped = lf.bootstrapped } in
      (
        l,
        ground (
          arith,
          eq_iff lf.mac "",
          eq_iff (signer.mac_v3 key lf.bootstrapped lf.tasks) (signer.to_lower lf.mac),
        ),
        refl,
        refl,
        ground arith,
      )

  -- A lock that is read with a key says that its first sync is over only where the file has the
  -- current version and its authentication code covers that mark together with the records.
  pub load_signed_lock-bootstrapped :
      (key : String) (w : Bool) (lf : LockFile) (l : Lock)
      → load_signed_lock signer (some key) w (parsed lf) ≡ loaded l
      → l.bootstrapped ≡ true
      → (lf.version ≡ 3) × (signer.mac_v3 key true lf.tasks ≡ signer.to_lower lf.mac)
  unfolding load_signed_lock
  load_signed_lock-bootstrapped key w lf l h b = ground (
    arith,
    eq_iff lf.mac "",
    eq_iff (signer.mac_v2 key lf.tasks) (signer.to_lower lf.mac),
    eq_iff (signer.mac_v3 key lf.bootstrapped lf.tasks) (signer.to_lower lf.mac),
  )
