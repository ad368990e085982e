-- ===== src/Task/InputRef/Fuel.antt =====
-- pkg/task/inputref.go: the fuel of the check of references.
use Prim.Native.Char.{code}
use Prim.Native.String.{count, ◌++◌ as str_append}
use text.Mathlib.TextLemmas.{length-append, length-cons}
use dicode_core.Prelude.{
  ℕ, zero, suc, ◌+◌, ◌<◌, String, ◌≡◌, refl, ap, Option, none, some, List, ◌∷◌, arith, nat_beq,
  Bool-cases, Option-cases, inl, inr,
}
use dicode_core.Prelude.Text.{strip, strip_sound}
use dicode_core.Task.InputRef.Checked.{cut_brace, attempts, check_attempts}

abbrev behind : Option (String × String) → String
behind none = ""
behind (some (inner, rest)) = rest

-- What is behind the first brace is shorter.
cut_brace_shorter :
    (s inner rest : String) → cut_brace s ≡ some (inner, rest) → count rest < count s
unfolding cut_brace
cut_brace_shorter String.[] inner rest h = absurd (ground (arith, h))
cut_brace_shorter (String.◌∷◌ c s) inner rest h = elim (Bool-cases (nat_beq (code c) b'}')) [
  | inl e ↦
      let same : s ≡ rest = ap behind (rw (cut_brace, e) at h) in
      omega (arith, ap count same, length-cons c s)
  | inr e ↦ elim (Option-cases (cut_brace s)) [
    | inl f ↦ absurd (ground (arith, rw (cut_brace, e, f) at h))
    | inr ((i, r), f) ↦
        let same : r ≡ rest = ap behind (rw (cut_brace, e, f) at h) in
        omega (arith, ap count same, length-cons c s, cut_brace_shorter s i r f)
  ]
]

attempts-enough : (n m : ℕ) (s : String) → count s < n → count s < m → attempts n s ≡ attempts m s
unfolding attempts
attempts-enough zero m s h k = absurd (omega (arith, h))
attempts-enough (suc n) zero s h k = absurd (omega (arith, k))
attempts-enough (suc n) (suc m) String.[] h k = refl
attempts-enough (suc n) (suc m) (String.◌∷◌ c s) h k =
    let l = length-cons c s in
    let skip = attempts-enough n m s (omega (arith, h, l)) (omega (arith, k, l)) in
    elim (Option-cases (strip "${input." (String.◌∷◌ c s))) [
      | inl e ↦ rw (attempts, e) skip
      | inr (r, e) ↦ elim (Option-cases (cut_brace r)) [
        | inl f ↦ rw (attempts, e, f) skip
        | inr ((inner, rest), f) ↦
            let whole = ap count (strip_sound "${input." (String.◌∷◌ c s) r e) in
            let longer = length-append "${input." r in
            let shorter = cut_brace_shorter r inner rest f in
            rw (attempts, e, f)
              (ap (λ (ms : List String). str_append "${input." inner ∷ ms)
                (attempts-enough n m rest (omega (arith, h, whole, longer, shorter))
                  (omega (arith, k, whole, longer, shorter))))
      ]
    ]

-- The fuel of ValidateInputRefs is enough: with more, the same references are checked.
pub validate_input_refs-fuel :
    (more : ℕ) (s : String)
    → check_attempts (attempts (count s + 1 + more) s) ≡ check_attempts (attempts (count s + 1) s)
validate_input_refs-fuel more s =
    ap check_attempts
      (attempts-enough (count s + 1 + more) (count s + 1) s (omega arith) (omega arith))
