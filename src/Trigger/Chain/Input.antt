-- ===== src/Trigger/Chain/Input.antt =====
-- pkg/trigger/chain.go: what a chained task receives (buildChainInput, buildChainPayload).
use text.Mathlib.TextEquality.{eq_iff}
use dicode_core.Prelude.{
  ℕ, String, ◌≡◌, refl, sym, Option, none, some, List, [], ◌∷◌, if◌then◌else◌, ◌==◌, string_eq,
  arith, Bool-cases, inl, inr,
}
use dicode_core.Prelude.Dict.{lookup, insert, lookup-insert, lookup-insert_self}
use dicode_core.Task.InputRef.{Value, Output}

-- A payload's entry: an edge's parameter, or one of the engine's stamps.
pub data Entry (A : Type 0) : Type 0 where
  param : Value A → Entry A
  upstream : Output A → Entry A
  stamp : String → Entry A
  hops : ℕ → Entry A

pub record Completion (A : Type 0) : Type 0 where
  pub task : String
  pub run : String
  pub status : String
  pub output : Output A

pub data ChainInput (A : Type 0) : Type 0 where
  raw : Output A → ChainInput A
  wrapped : List (String × Entry A) → ChainInput A

module _ {A : Type 0} where
  unfoldable pub copied : List (String × Value A) → List (String × Entry A)
  copied [] = []
  copied ((key, val) ∷ rest) = (key, param val) ∷ copied rest

  unfoldable pub with_stamps : List (String × Value A) → Completion A → ℕ → List (String × Entry A)
  unfolding copied
  with_stamps user_params done depth =
      let m =
        insert "runID" (stamp done.run) (insert "taskID" (stamp done.task) (copied user_params)) in
      insert "_chain_depth" (hops depth)
        (insert "output" (upstream done.output) (insert "status" (stamp done.status) m))

  -- `run_url` is the link to the run, empty where there is none.
  unfoldable pub build_chain_payload :
      List (String × Value A) → Completion A → ℕ → String → List (String × Entry A)
  unfolding with_stamps
  build_chain_payload user_params done depth run_url =
      let m = with_stamps user_params done depth in
      if run_url == "" then m else insert "run_url" (stamp run_url) m

  -- With no parameters on the edge the upstream's value is handed on as it is.
  unfoldable pub build_chain_input :
      List (String × Value A) → Completion A → ℕ → String → ChainInput A
  unfolding build_chain_payload
  build_chain_input [] done depth run_url = raw done.output
  build_chain_input (p ∷ params) done depth run_url =
      wrapped (build_chain_payload (p ∷ params) done depth run_url)

  -- `reservedChainParamKeys`, with what the engine writes there.
  abbrev pub stamped : Completion A → ℕ → String → String → Option (Entry A)
  stamped done depth run_url key =
      if "_chain_depth" == key
      then some (hops depth)
      else if "output" == key
      then some (upstream done.output)
      else if "status" == key
      then some (stamp done.status)
      else if "runID" == key
      then some (stamp done.run)
      else if "taskID" == key
      then some (stamp done.task)
      else if "run_url" == key
      then (if run_url == "" then none else some (stamp run_url))
      else none

  abbrev pub as_param : Option (Value A) → Option (Entry A)
  as_param none = none
  as_param (some v) = some (param v)

  lookup-copied :
      (key : String) (params : List (String × Value A))
      → lookup key (copied params) ≡ as_param (lookup key params)
  unfolding copied lookup
  lookup-copied key [] = refl
  lookup-copied key ((other, val) ∷ rest) = ground (arith, lookup-copied key rest)

  abbrev pub or_else : Option (Entry A) → Option (Entry A) → Option (Entry A)
  or_else none o = o
  or_else (some e) o = some e

  lookup-with_stamps :
      (params : List (String × Value A)) (done : Completion A) (depth : ℕ) (key : String)
      → lookup key (with_stamps params done depth)
        ≡ or_else (stamped done depth "" key) (as_param (lookup key params))
  unfolding with_stamps
  lookup-with_stamps params done depth key = simp (lookup-insert, lookup-copied) (ground arith)

  -- A chained payload holds the engine's stamps under the reserved names, whatever the edge's parameters
  -- are, and under any other name what the parameters give. The link to the run is one of the stamps unless it
  -- is empty; then its name is one of the others.
  pub lookup-build_chain_payload :
      (params : List (String × Value A)) (done : Completion A) (depth : ℕ) (run_url key : String)
      → lookup key (build_chain_payload params done depth run_url)
        ≡ or_else (stamped done depth run_url key) (as_param (lookup key params))
  unfolding build_chain_payload
  lookup-build_chain_payload params done depth run_url key = elim (Bool-cases (run_url == "")) [
    | inl e ↦ rw (e, lookup-with_stamps params done depth key) refl
    | inr e ↦ rw e (elim (Bool-cases ("run_url" == key)) [
      | inl k ↦
          let same : key ≡ "run_url" = sym ((eq_iff "run_url" key).0 k) in
          rw (same, lookup-insert_self) refl
      | inr k ↦
          rw
            (
              lookup-insert "run_url" key (stamp run_url) (with_stamps params done depth),
              lookup-with_stamps params done depth key,
              k,
            )
            refl
    ])
  ]
