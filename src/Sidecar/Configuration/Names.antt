-- ===== src/Sidecar/Configuration/Names.antt =====
-- Which lists of names `validate_names` admits.
use openclaw_rust_node.Base.{String, Bool, true, false, ◌&&◌, ◌≡◌, ◌↔◌, List, [], ◌∷◌, All, arith}
use openclaw_rust_node.Base.Results.{ok}
use openclaw_rust_node.Text.Names.{AreDistinct, AreNew, AreNew-cons, AreNew-nil}
use openclaw_rust_node.Sidecar.Configuration.{
  is_name, is_reserved, validate_names_after, validate_names,
}

-- A name that may be registered, as a command if it is one.
abbrev pub IsAllowed : Bool → String → Type 0
IsAllowed commands name = (is_name name ≡ true) × ((commands && is_reserved name) ≡ false)

validate_names_after-ok_iff :
    (unique names : List String) (commands : Bool)
    → (validate_names_after unique names commands ≡ ok tt)
      ↔ (All (IsAllowed commands) names × AreDistinct names × AreNew unique names)
unfolding validate_names_after AreNew
validate_names_after-ok_iff unique [] commands = (λ h. ground arith, λ h. ground arith)
validate_names_after-ok_iff unique (name ∷ names) commands = (
  λ h. ground (
    arith,
    (validate_names_after-ok_iff (name ∷ unique) names commands).0,
    (AreNew-cons name unique names).0,
  ),
  λ h. ground (
    arith,
    (validate_names_after-ok_iff (name ∷ unique) names commands).1,
    (AreNew-cons name unique names).1,
  ),
)

-- The validation accepts exactly the lists of allowed names without a repetition.
pub validate_names-ok_iff :
    (names : List String) (commands : Bool)
    → (validate_names names commands ≡ ok tt) ↔ (All (IsAllowed commands) names × AreDistinct names)
unfolding validate_names
validate_names-ok_iff names commands =
    let both = validate_names_after-ok_iff [] names commands in
    (λ h. let (a, d, _) = both.0 h in (a, d), λ h. both.1 (h.0, h.1, AreNew-nil names))
