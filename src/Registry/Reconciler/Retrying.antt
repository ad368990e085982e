-- ===== src/Registry/Reconciler/Retrying.antt =====
-- pkg/registry/reconciler.go: what becomes of a task that waits for a provider.
use dicode_core.Prelude.{
  String, ◌≡◌, ◌≢◌, refl, true, some, List, [], ◌∷◌, ◌++◌, string_eq, beq_ne, beq_refl,
}
use dicode_core.Prelude.Dict.{lookup, insert, delete, lookup-insert_self}
use dicode_core.Registry.Reconciler.{
  Task, Event, changed, removed, State, admissible, retry_pending, handle_changed, handle_removed,
  handle, receive, push, check_retry, send_retry,
}

-- Nothing is in flight, and one task waits.
abbrev pub waiting : String → Task → State → State
waiting id t s = record s { pending = (id, t) ∷ []; merged = []; to_check = []; sending = [] }

abbrev with_provider : String → Task → String → Task → State → State
with_provider p tp id t s = record s {
  tasks = insert p tp s.tasks;
  pending = (id, t) ∷ [];
  registered = p ∷ s.registered;
  to_check = (id, t) ∷ [];
  merged = [];
  sending = [];
}

delete-other : (p id : String) (t : Task) → id ≢ p → delete p ((id, t) ∷ []) ≡ (id, t) ∷ []
unfolding delete
delete-other p id t ne = rw (beq_ne id p ne) refl

provider_arrives :
    (p : String) (tp : Task) (id : String) (t : Task) (s : State)
    → id ≢ p
    → admissible s.tasks tp ≡ true
    → handle (changed p tp) (waiting id t s) ≡ with_provider p tp id t s
unfolding handle handle_changed
provider_arrives p tp id t s ne ok = rw (ok, handle_changed) (rw (delete-other p id t ne) refl)

lookup-only : (id : String) (t : Task) → lookup id ((id, t) ∷ []) ≡ some t
unfolding lookup
lookup-only id t = rw (beq_refl id) refl

-- With the events `queue` of the sources in front of it, a retry of the task is sent last.
retry_sends :
    (p : String) (tp : Task) (id : String) (t : Task) (queue : List Event) (s : State)
    → send_retry (check_retry (record (with_provider p tp id t s) { merged = queue }))
      ≡ record (with_provider p tp id t s) { merged = queue ++ changed id t ∷ []; to_check = [] }
unfolding send_retry check_retry
retry_sends p tp id t queue s = rw (lookup-only id t, check_retry) refl

-- The state after an admissible task was handled.
abbrev registered_in : String → Task → State → State
registered_in id t s = retry_pending (record s {
  tasks = insert id t s.tasks;
  pending = delete id s.pending;
  registered = id ∷ s.registered;
})

handle_changed-admissible :
    (id : String) (t : Task) (s : State)
    → admissible s.tasks t ≡ true
    → handle_changed id t s ≡ registered_in id t s
unfolding handle_changed
handle_changed-admissible id t s ok = rw (ok, handle_changed) refl

-- The state in which the retry was sent, behind `queue`.
abbrev resent : String → Task → String → Task → List Event → State → State
resent p tp id t queue s = record (with_provider p tp id t s) {
  merged = queue ++ changed id t ∷ [];
  to_check = [];
}

receive-removed :
    (p : String) (tp : Task) (id : String) (t : Task) (s : State)
    → receive (resent p tp id t (removed id ∷ []) s)
      ≡ handle_removed id (record (resent p tp id t [] s) { merged = changed id t ∷ [] })
unfolding receive handle
receive-removed p tp id t s = refl

receive-after_removed :
    (p : String) (tp : Task) (id : String) (t : Task) (s : State)
    → admissible (delete id (insert p tp s.tasks)) t ≡ true
    → receive (handle_removed id (record (resent p tp id t [] s) { merged = changed id t ∷ [] }))
      ≡ registered_in id t (handle_removed id (record (resent p tp id t [] s) { merged = [] }))
unfolding receive handle handle_removed
receive-after_removed p tp id t s ok =
    handle_changed-admissible id t
      (handle_removed id (record (resent p tp id t [] s) { merged = [] })) ok

-- A task waits for a provider, which arrives; then the source removes the task. Its removal is still
-- in the channel when the retry looks whether the task waits, so the retry is sent behind it, and the
-- removed task ends up registered, with no event left that would remove it.
pub retry_registers_removed :
    (p : String) (tp : Task) (id : String) (t : Task) (s : State)
    → id ≢ p
    → admissible s.tasks tp ≡ true
    → admissible (delete id (insert p tp s.tasks)) t ≡ true
    → let s1 = push (removed id) (handle (changed p tp) (waiting id t s)) in
      let s2 = receive (receive (send_retry (check_retry s1))) in
      (lookup id s2.tasks ≡ some t) × (s2.unregistered ≡ id ∷ s.unregistered) × (s2.merged ≡ [])
unfolding handle_removed
retry_registers_removed p tp id t s ne ok ok' = rw (provider_arrives p tp id t s ne ok) (
    rw (retry_sends p tp id t (removed id ∷ []) s) (
      rw (receive-removed p tp id t s) (
        rw (receive-after_removed p tp id t s ok')
          (lookup-insert_self id t (delete id (insert p tp s.tasks)), refl, refl))))
