-- ===== src/Trigger/Chain/Search.antt =====
-- pkg/trigger/chain.go: what the depth-first search of hasSuccessChainCycle finds, for any graph whose
-- neighbours stay within a known set of names.
use text.Mathlib.TextEquality.{eq_iff}
use dicode_core.Prelude.{
  ℕ, zero, suc, ◌<◌, String, ◌≡◌, refl, ◌≢◌, Bool, true, false, ◌⊎◌, ◌↔◌, inl, inr, sym, none, some,
  List, [], ◌∷◌, contains, arith, ◌==◌, string_eq, Bool-cases, subst,
}
use dicode_core.Trigger.Chain.{Searched, each, dfs, found}
use dicode_core.Trigger.Chain.Walks.{
  Reaches, here, step, Reaches-trans, Sub, missing, missing_lt, missing_le,
}

module _ (next : String → List String) (from : String) (all : List String) where
  abbrev linked : String → String → Bool
  linked x y = contains y (next x)

  -- A name that was visited is not the goal, and its neighbours were visited.
  abbrev Settled : List String → List String → Type 0
  Settled v w =
      (x : String)
      → contains x w ≡ true
      → (contains x v ≡ true)
        ⊎ ((x ≢ from) × ((y : String) → contains y (next x) ≡ true → contains y w ≡ true))

  -- What a search from some names tells, `v` being visited before.
  abbrev Tells : List String → List String → Searched → Type 0
  Tells nodes v none = ⊥
  Tells nodes v (some (true, w)) = (c : String) × (contains c nodes ≡ true) × Reaches linked c from
  Tells nodes v (some (false, w)) =
      Sub v w × ((c : String) → contains c nodes ≡ true → contains c w ≡ true) × Settled v w

  Settled-trans : (u v w : List String) → Sub v w → Settled u v → Settled v w → Settled u w
  Settled-trans u v w sub a b x h = elim (b x h) [
    | inr fresh ↦ inr fresh
    | inl old ↦ elim (a x old) [
      | inl older ↦ inl older
      | inr (ne, closed) ↦ inr (ne, λ y e. sub y (closed y e))
    ]
  ]

  abbrev Within : List String → Type 0
  Within nodes = (c : String) → contains c nodes ≡ true → contains c all ≡ true

  -- One level of the search is right for names of the universe, `fuel` being enough.
  abbrev Level : ℕ → (String → List String → Searched) → Type 0
  Level fuel call =
      (c : String) (v : List String)
      → contains c all ≡ true
      → missing all v < fuel
      → Tells (c ∷ []) v (call c v)

  Tells-more :
      (c : String) (rest u : List String) (r : Searched)
      → Tells rest u r
      → (v : List String) → Tells (c ∷ []) v (some (false, u))
      → Tells (c ∷ rest) v r
  Tells-more c rest u none t v s = t
  Tells-more c rest u (some (true, w)) (d, h, r) v s = (d, ground (arith), r)
  Tells-more c rest u (some (false, w)) (sub, seen, settled) v (sub', seen', settled') = (
    λ x h. sub x (sub' x h),
    λ d h. ground (arith, seen d, sub d, seen' d, eq_iff c d),
    Settled-trans v u w sub settled' settled,
  )

  each-Tells :
      (fuel : ℕ) (call : String → List String → Searched)
      → Level fuel call
      → (nodes v : List String) → Within nodes
      → missing all v < fuel
      → Tells nodes v (each call nodes v)
  unfolding each
  each-Tells fuel call level [] v within h = (λ x e. e, λ c e. cc, λ x e. inl e)
  each-Tells fuel call level (c ∷ rest) v within h =
      go (λ w m. each-Tells fuel call level rest w (λ d e. within d (ground arith)) m) (call c v)
        (level c v (within c (ground (arith, eq_iff c c))) h)
    where
      go :
          ((w : List String) → missing all w < fuel → Tells rest w (each call rest w))
          → (r : Searched) → Tells (c ∷ []) v r
          → Tells (c ∷ rest) v (elim r [
            | none ↦ none
            | some (true, visited') ↦ some (true, visited')
            | some (false, visited') ↦ each call rest visited'
          ])
      go tail none t = t
      go tail (some (true, w)) (d, e, r) = (d, ground arith, r)
      go tail (some (false, w)) t =
          Tells-more c rest w (each call rest w) (tail w (omega (arith, missing_le all v w t.0))) v
            t

  -- From the neighbours of a new name to the name itself.
  Tells-up :
      (c : String) (v : List String)
      → c ≢ from
      → (r : Searched) → Tells (next c) (c ∷ v) r
      → Tells (c ∷ []) v r
  Tells-up c v ne none t = t
  Tells-up c v ne (some (true, w)) (d, h, r) =
      (c, ground (arith, eq_iff c c), Reaches-trans (step here h) r)
  Tells-up c v ne (some (false, w)) (sub, seen, settled) = (
    λ x h. sub x (ground arith),
    λ d h. ground (arith, sub d),
    λ x h. elim (settled x h) [
      | inr fresh ↦ inr fresh
      | inl old ↦ elim (Bool-cases (c == x)) [
        | inl e ↦ inr (
            subst
              (λ z. (z ≢ from) × ((y : String) → contains y (next z) ≡ true → contains y w ≡ true))
              ((eq_iff c x).0 e) (ne, seen))
        | inr e ↦ inl (ground arith)
      ]
    ],
  )

  -- Where the neighbours of every name are in the universe, the fuel is enough and the answer right.
  pub dfs-Tells :
      ((x y : String) → contains y (next x) ≡ true → contains y all ≡ true)
      → (fuel : ℕ) (c : String) (v : List String) → contains c all ≡ true
      → missing all v < fuel
      → Tells (c ∷ []) v (dfs next from fuel c v)
  unfolding dfs
  dfs-Tells closed zero c v hc h = absurd (omega arith)
  dfs-Tells closed (suc fuel) c v hc h = elim (Bool-cases (c == from)) [
    | inl e ↦
        rw e (c, ground (arith, eq_iff c c), subst (Reaches linked c) ((eq_iff c from).0 e) here)
    | inr e ↦ elim (Bool-cases (contains c v)) [
      | inl old ↦ rw (e, old) (λ x h. h, λ d h. ground (arith, eq_iff c d), λ x h. inl h)
      | inr new ↦
          rw (e, new)
            (Tells-up c v (λ p. cc ((eq_iff c from).1 p, e))
              (each (λ x w. dfs next from fuel x w) (next c) (c ∷ v))
              (each-Tells fuel (λ x w. dfs next from fuel x w) (λ d w. dfs-Tells closed fuel d w)
                (next c) (c ∷ v) (closed c) (omega (arith, missing_lt all v c hc new))))
    ]
  ]

  -- A search with nothing visited before: enough fuel gives an answer, which says whether there is a walk.
  pub dfs_decides :
      ((x y : String) → contains y (next x) ≡ true → contains y all ≡ true)
      → (c : String) (fuel : ℕ) → contains c all ≡ true
      → missing all [] < fuel
      → (b : Bool) × (found (dfs next from fuel c []) ≡ some b)
        × ((b ≡ true) ↔ Reaches linked c from)
  dfs_decides closed c fuel hc h = read (dfs next from fuel c []) (dfs-Tells closed fuel c [] hc h)
    where
      stays :
          (w : List String)
          → contains c w ≡ true
          → Settled [] w
          → (x : String) → Reaches linked c x
          → contains x w ≡ true
      stays w hw settled x here = hw
      stays w hw settled x (step {y} {z} r e) = elim (settled y (stays w hw settled y r)) [
        | inl h ↦ absurd (cc)
        | inr (ne, more) ↦ more z e
      ]

      read :
          (r : Searched)
          → Tells (c ∷ []) [] r
          → (b : Bool) × (found r ≡ some b) × ((b ≡ true) ↔ Reaches linked c from)
      read none t = absurd t
      read (some (true, w)) (d, h, r) = (
        true,
        refl,
        (
          λ e. subst (λ z. Reaches linked z from) (sym ((eq_iff c d).0 (ground arith))) r,
          λ r. refl,
        ),
      )
      read (some (false, w)) (sub, seen, settled) = (
        false,
        refl,
        (
          λ e. absurd (cc),
          λ r. elim (settled from (stays w (seen c (ground (arith, eq_iff c c))) settled from r)) [
            | inl h ↦ cc
            | inr (ne, more) ↦ absurd (ne refl)
          ],
        ),
      )
