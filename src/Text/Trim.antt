-- ===== src/Text/Trim.antt =====
-- What `str::trim` leaves: no whitespace at either end, so a second `trim` changes nothing.
use openclaw_rust_node.Base.{String, false, ◌&&◌, ◌≡◌, refl, ◌∙◌, ap, inl, inr, Bool-cases}
use openclaw_rust_node.Text.{is_empty, is_whitespace, trim_start, trim_end, trim}

-- The first character is no whitespace.
abbrev pub StartsClean : String → Type 0
StartsClean String.[] = Unit
StartsClean (String.◌∷◌ c s) = is_whitespace c ≡ false

trim_start-StartsClean : (s : String) → StartsClean (trim_start s)
unfolding trim_start
trim_start-StartsClean String.[] = tt
trim_start-StartsClean (String.◌∷◌ c s) = elim (Bool-cases (is_whitespace c)) [
  | inl e ↦ rw e (trim_start-StartsClean s)
  | inr e ↦ rw e e
]

trim_end-StartsClean : (s : String) → StartsClean s → StartsClean (trim_end s)
unfolding trim_end
trim_end-StartsClean String.[] h = tt
trim_end-StartsClean (String.◌∷◌ c s) h = elim (Bool-cases (is_empty (trim_end s))) [
  | inl e ↦ rw (e, h) h
  | inr e ↦ rw e h
]

trim_start_of_StartsClean : (s : String) → StartsClean s → trim_start s ≡ s
unfolding trim_start
trim_start_of_StartsClean String.[] h = refl
trim_start_of_StartsClean (String.◌∷◌ c s) h = rw h

trim_end_idem : (s : String) → trim_end (trim_end s) ≡ trim_end s
unfolding trim_end
trim_end_idem String.[] = refl
trim_end_idem (String.◌∷◌ c s) = elim (Bool-cases (is_empty (trim_end s) && is_whitespace c)) [
  | inl e ↦ rw e
  | inr e ↦ rw e (rw (trim_end_idem s, e))
]

pub trim_idem : (s : String) → trim (trim s) ≡ trim s
unfolding trim
trim_idem s =
    ap trim_end (
      trim_start_of_StartsClean (trim_end (trim_start s))
        (trim_end-StartsClean (trim_start s) (trim_start-StartsClean s)))
    ∙ trim_end_idem (trim_start s)
