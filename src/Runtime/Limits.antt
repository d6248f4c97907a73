-- ===== src/Runtime/Limits.antt =====
-- The size of JSON values (runtime.rs, `LimitWriter`). What serde_json writes is a parameter.
use openclaw_rust_node.Base.{
  ℕ, ◌+◌, ◌≤◌, Bool, true, false, ◌&&◌, ltb, if◌then◌else◌, ◌≡◌, refl, ◌↔◌, inl, inr, Bool-cases,
  Option, none, some, List, [], ◌∷◌, length, length-append, checked_add, u64_max, arith,
}
use openclaw_rust_node.Sidecar.Frame.{Codec, encoded, flatten}

-- `LimitWriter::write`: the bytes written so far.
unfoldable pub limit_write : (written maximum : ℕ) → List ℕ → Option ℕ
limit_write written maximum bytes = elim (checked_add written (length bytes)) [
  | none ↦ none
  | some next ↦ if ltb maximum next then none else some next
]

unfoldable pub limit_writes : (written maximum : ℕ) → List (List ℕ) → Bool
limit_writes written maximum [] = true
limit_writes written maximum (p ∷ ps) = elim (limit_write written maximum p) [
  | none ↦ false
  | some next ↦ limit_writes next maximum ps
]

unfoldable pub serialized_json_within_limit : {V : Type 0} → Codec V → V → (maximum : ℕ) → Bool
unfolding limit_writes
serialized_json_within_limit codec value maximum =
    limit_writes 0 maximum (codec.pieces value) && codec.complete value

limit_writes_iff :
    (written maximum : ℕ) (ps : List (List ℕ))
    → written ≤ maximum
    → maximum ≤ u64_max
    → (limit_writes written maximum ps ≡ true) ↔ (written + length (flatten ps) ≤ maximum)
unfolding limit_writes limit_write
limit_writes_iff written maximum [] l m = (λ h. omega arith, λ h. refl)
limit_writes_iff written maximum (p ∷ ps) l m =
    elim (Bool-cases (ltb maximum (written + length p))) [
      | inl e ↦
          (λ h. absurd (ground arith), λ h. absurd (ground (arith, length-append p (flatten ps))))
      | inr e ↦
          let within : written + length p ≤ maximum = ground arith in
          let rest = limit_writes_iff (written + length p) maximum ps within m in
          (
            λ h. ground (arith, rest.0, length-append p (flatten ps)),
            λ h. ground (arith, rest.1, length-append p (flatten ps)),
          )
    ]

-- A value is within the limit exactly if serde_json writes all of it in at most so many bytes, however
-- it cuts them into pieces.
pub within_limit_iff :
    {V : Type 0} (codec : Codec V) (value : V) (maximum : ℕ)
    → maximum ≤ u64_max
    → (serialized_json_within_limit codec value maximum ≡ true)
      ↔ ((length (encoded codec value) ≤ maximum) × (codec.complete value ≡ true))
unfolding serialized_json_within_limit
within_limit_iff codec value maximum m =
    let both = limit_writes_iff 0 maximum (codec.pieces value) (omega arith) m in
    (λ h. ground (arith, both.0), λ h. ground (arith, both.1))
