-- ===== src/Task/Pipeline/Search.antt =====
-- pkg/task/pipeline.go: the colouring search of detectStageCycle, for edges that lead from a name to itself or
-- to a name of lower rank.
use text.Mathlib.TextEquality.{eq_iff}
use dicode_core.Prelude.{
  ℕ, zero, suc, ◌+◌, ◌≤◌, ◌<◌, String, ◌≡◌, refl, sym, subst, ap, ◌∙◌, Bool, true, false, ◌||◌, ◌⊎◌,
  inl, inr, Option, none, some, List, [], ◌∷◌, contains, arith, ◌==◌, string_eq, beq_refl,
  Bool-cases,
}
use dicode_core.Prelude.Dict.{lookup, insert, lookup-insert, lookup-insert_self}
use dicode_core.Task.Pipeline.{
  Stage, Color, gray, black, Colors, Visited, visit_all, visit, visit_stages,
}

abbrev pub listed : String → List Stage → Bool
listed x [] = false
listed x (st ∷ rest) = st.task == x || listed x rest

abbrev pub is_gray : Option Color → Bool
is_gray none = false
is_gray (some gray) = true
is_gray (some black) = false

abbrev pub is_black : Option Color → Bool
is_black none = false
is_black (some gray) = false
is_black (some black) = true

Color-cases : (o : Option Color) → (o ≡ none) ⊎ ((o ≡ some gray) ⊎ (o ≡ some black))
Color-cases none = inl refl
Color-cases (some gray) = inr (inl refl)
Color-cases (some black) = inr (inr refl)

module _ (edges : String → List String) (rank : String → ℕ) where
  -- An edge to oneself.
  abbrev pub loops : String → Bool
  loops x = contains x (edges x)

  abbrev pub Descends : Type 0
  Descends =
      (id next : String)
      → contains next (edges id) ≡ true
      → (next == id) ≡ false
      → rank next < rank id

  pub record Safe (r : ℕ) (color : Colors) : Type 0 where
    pub grays : (x : String) → is_gray (lookup x color) ≡ true → r ≤ rank x
    pub blacks : (x : String) → is_black (lookup x color) ≡ true → loops x ≡ false

  -- What a search that finds no cycle does to the colours.
  pub record Passed (color color' : Colors) : Type 0 where
    pub same_grays : (x : String) → is_gray (lookup x color') ≡ is_gray (lookup x color)
    pub kept : (x : String) → is_black (lookup x color) ≡ true → is_black (lookup x color') ≡ true
    pub blacks : (x : String) → is_black (lookup x color') ≡ true → loops x ≡ false

  abbrev pub Found : Visited → Type 0
  Found v = (color' : Colors) × (v ≡ some (true, color')) × (x : String) × (loops x ≡ true)

  abbrev pub Passes : Colors → Visited → (Colors → Type 0) → Type 0
  Passes color v More =
      (color' : Colors) × (v ≡ some (false, color')) × Passed color color' × More color'

  Passed-trans : (a b c : Colors) → Passed a b → Passed b c → Passed a c
  Passed-trans a b c p q = record {
    same_grays = λ x. q.same_grays x ∙ p.same_grays x;
    kept = λ x h. q.kept x (p.kept x h);
    blacks = q.blacks;
  }

  Passed-Safe : (r : ℕ) (a b : Colors) → Safe r a → Passed a b → Safe r b
  Passed-Safe r a b s p = record {
    grays = λ x h. s.grays x (sym (p.same_grays x) ∙ h);
    blacks = p.blacks;
  }

  not_gray :
      {o : Option Color} (next id : String) (color : Colors)
      → lookup next color ≡ o
      → is_gray o ≡ false
      → is_gray (lookup id color) ≡ true
      → (next == id) ≡ false
  not_gray next id color e n g = elim (Bool-cases (next == id)) [
    | inr other ↦ other
    | inl same ↦
        let e' : is_gray (lookup next color) ≡ true = rw ((eq_iff next id).0 same) g in
        absurd (ground (arith, ap is_gray e, e', n))
  ]

  -- One step of the loop over a name's edges, from what its call and the rest of the loop do.
  module _ (descends : Descends) (id : String) (call : String → Colors → Visited) where
    abbrev Calls : Type 0
    Calls =
        (next : String) (color : Colors)
        → lookup next color ≡ none
        → rank next < rank id
        → Safe (rank next + 1) color
        → Found (call next color)
          ⊎ Passes color (call next color) (λ c. is_black (lookup next c) ≡ true)

    loops_gray :
        (next : String) (color : Colors)
        → contains next (edges id) ≡ true
        → Safe (rank id) color
        → lookup next color ≡ some gray
        → loops id ≡ true
    loops_gray next color edge safe e = elim (Bool-cases (next == id)) [
      | inl same ↦ subst (λ z. contains z (edges id) ≡ true) ((eq_iff next id).0 same) edge
      | inr other ↦
          let low : rank next < rank id = descends id next edge other in
          let high : rank id ≤ rank next = safe.grays next (rw e refl) in
          absurd (omega (arith, low, high))
    ]

    visit_all_lem :
        Calls
        → (ds : List String) (color : Colors)
        → ((d : String) → contains d ds ≡ true → contains d (edges id) ≡ true)
        → is_gray (lookup id color) ≡ true
        → Safe (rank id) color
        → Found (visit_all call ds color)
          ⊎ Passes color (visit_all call ds color) (λ c. contains id ds ≡ false)
    unfolding visit_all
    visit_all_lem calls [] color sub g safe = inr (
      color,
      refl,
      record { same_grays = λ x. refl; kept = λ x h. h; blacks = safe.blacks },
      refl,
    )
    visit_all_lem calls (next ∷ rest) color sub g safe =
        let edge : contains next (edges id) ≡ true = sub next (ground (arith, beq_refl next)) in
        let sub' : (d : String) → contains d rest ≡ true → contains d (edges id) ≡ true =
          λ d h. sub d (ground (arith, h)) in
        elim (Color-cases (lookup next color)) [
          | inr (inl e) ↦ inl (color, rw (visit_all, e) refl, id, loops_gray next color edge safe e)
          | inr (inr e) ↦
              let other = not_gray next id color e refl g in
              elim (visit_all_lem calls rest color sub' g safe) [
                | inl (c, f, x, l) ↦ inl (c, rw (visit_all, e) f, x, l)
                | inr (c, f, p, n) ↦ inr (c, rw (visit_all, e) f, p, ground (arith, n, other))
              ]
          | inl e ↦
              let other = not_gray next id color e refl g in
              elim (calls next color e (descends id next edge other) (record {
                grays = λ x h. omega (arith, safe.grays x h, descends id next edge other);
                blacks = safe.blacks;
              })) [
                | inl (c, f, x, l) ↦ inl (c, rw (visit_all, e, f) refl, x, l)
                | inr (c, f, p, b) ↦
                    elim (visit_all_lem calls rest c sub' (p.same_grays id ∙ g)
                      (Passed-Safe (rank id) color c safe p)) [
                        | inl (c', f', x, l) ↦ inl (c', rw (visit_all, e, f) f', x, l)
                        | inr (c', f', p', n) ↦ inr (
                          c',
                          rw (visit_all, e, f) f',
                          Passed-trans color c c' p p',
                          ground (arith, n, other),
                        )
                      ]
              ]
        ]

  started :
      (id : String) (color : Colors)
      → Safe (rank id + 1) color
      → Safe (rank id) (insert id gray color)
  started id color safe = record {
    grays = λ x h. elim (Bool-cases (id == x)) [
      | inl same ↦ rw⁻¹ ((eq_iff id x).0 same) (omega arith)
      | inr other ↦
          let h' : is_gray (lookup x color) ≡ true =
            ground (arith, h, other, lookup-insert id x gray color) in
          omega (arith, safe.grays x h')
    ];
    blacks = λ x h. safe.blacks x (ground (arith, h, lookup-insert id x gray color));
  }

  finished :
      (id : String) (color c : Colors)
      → lookup id color ≡ none
      → Passed (insert id gray color) c
      → loops id ≡ false
      → Passed color (insert id black c)
  finished id color c e p n = record {
    same_grays = λ x. elim (Bool-cases (id == x)) [
      | inl same ↦
          let e' : lookup x color ≡ none = rw⁻¹ ((eq_iff id x).0 same) e in
          ground (arith, same, e', lookup-insert id x black c)
      | inr other ↦
          ground (
            arith,
            other,
            p.same_grays x,
            lookup-insert id x black c,
            lookup-insert id x gray color,
          )
    ];
    kept = λ x h.
        ground (arith, h, p.kept x, lookup-insert id x black c, lookup-insert id x gray color);
    blacks = λ x h. elim (Bool-cases (id == x)) [
      | inl same ↦ rw⁻¹ ((eq_iff id x).0 same) n
      | inr other ↦ p.blacks x (ground (arith, h, other, lookup-insert id x black c))
    ];
  }

  -- A search with enough fuel answers, and finds an edge to oneself or blackens only names without one.
  pub visit_lem :
      Descends
      → (fuel : ℕ) (id : String) (color : Colors) → lookup id color ≡ none
      → rank id < fuel
      → Safe (rank id + 1) color
      → Found (visit edges fuel id color)
        ⊎ Passes color (visit edges fuel id color) (λ c. is_black (lookup id c) ≡ true)
  unfolding visit
  visit_lem descends zero id color e h safe = absurd (omega (arith, h))
  visit_lem descends (suc fuel) id color e h safe =
      elim (visit_all_lem descends id (visit edges fuel)
        (λ next c e' low s. visit_lem descends fuel next c e' (omega (arith, low, h)) s) (edges id)
        (insert id gray color) (λ d m. m) (rw (lookup-insert_self id gray color) refl)
        (started id color safe)) [
          | inl (c, f, x, l) ↦ inl (c, rw f refl, x, l)
          | inr (c, f, p, n) ↦ inr (
            insert id black c,
            rw f refl,
            finished id color c e p n,
            rw (lookup-insert_self id black c) refl,
          )
        ]

  abbrev pub Decides : List Stage → Bool → Type 0
  Decides stages true = (x : String) × (loops x ≡ true)
  Decides stages false = (x : String) → listed x stages ≡ true → loops x ≡ false

  Decides-cons :
      (st : Stage) (rest : List Stage) (b : Bool)
      → loops st.task ≡ false
      → Decides rest b
      → Decides (st ∷ rest) b
  Decides-cons st rest true n d = d
  Decides-cons st rest false n d = λ x h. elim (Bool-cases (st.task == x)) [
    | inl same ↦ rw⁻¹ ((eq_iff st.task x).0 same) n
    | inr other ↦ d x (ground (arith, h, other))
  ]

  -- The last loop, on colours without a gray name.
  pub visit_stages_lem :
      Descends
      → (fuel : ℕ) → ((x : String) → rank x < fuel)
      → (stages : List Stage) (color : Colors) → ((x : String) → is_gray (lookup x color) ≡ false)
      → ((x : String) → is_black (lookup x color) ≡ true → loops x ≡ false)
      → (b : Bool) × (visit_stages (visit edges fuel) stages color ≡ some b) × Decides stages b
  unfolding visit_stages
  visit_stages_lem descends fuel bound [] color g blacks =
      (false, refl, λ x h. absurd (ground (arith, h)))
  visit_stages_lem descends fuel bound (st ∷ rest) color g blacks =
      elim (Color-cases (lookup st.task color)) [
        | inr (inl e) ↦ absurd (ground (arith, g st.task, ap is_gray e))
        | inr (inr e) ↦
            let (b, f, d) = visit_stages_lem descends fuel bound rest color g blacks in
            (b, rw (visit_stages, e) f, Decides-cons st rest b (blacks st.task (rw e refl)) d)
        | inl e ↦
            elim (visit_lem descends fuel st.task color e (bound st.task)
              (record { grays = λ x h. absurd (ground (arith, h, g x)); blacks = blacks })) [
                | inl (c, f, x, l) ↦ (true, rw (visit_stages, e, f) refl, (x, l))
                | inr (c, f, p, n) ↦
                    let (b, f', d) =
                      visit_stages_lem descends fuel bound rest c (λ x. p.same_grays x ∙ g x)
                        p.blacks in
                    (b, rw (visit_stages, e, f) f', Decides-cons st rest b (p.blacks st.task n) d)
              ]
      ]
