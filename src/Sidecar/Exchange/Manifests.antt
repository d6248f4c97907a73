-- ===== src/Sidecar/Exchange/Manifests.antt =====
-- The comparison of the manifests that the two sides computed.
use openclaw_rust_node.Base.{String, ◌≡◌, refl, true, List, [], ◌∷◌, eq_iff, arith, ◌↔◌}
use openclaw_rust_node.Sidecar.Messages.{SidecarRuntimeManifest}
use openclaw_rust_node.Sidecar.Exchange.{texts_eq, manifest_eq}

texts_eq_sound : (ss ts : List String) → texts_eq ss ts ≡ true → ss ≡ ts
unfolding texts_eq
texts_eq_sound [] [] e = refl
texts_eq_sound [] (t ∷ ts) e = ground arith
texts_eq_sound (s ∷ ss) [] e = ground arith
texts_eq_sound (s ∷ ss) (t ∷ ts) e = ground (arith, (eq_iff s t).0, texts_eq_sound ss ts)

texts_eq_refl : (ss : List String) → texts_eq ss ss ≡ true
unfolding texts_eq
texts_eq_refl [] = refl
texts_eq_refl (s ∷ ss) = ground (arith, (eq_iff s s).1 refl, texts_eq_refl ss)

-- The comparison of manifests decides their equality.
pub manifest_eq_iff : (a b : SidecarRuntimeManifest) → (manifest_eq a b ≡ true) ↔ (a ≡ b)
unfolding manifest_eq
manifest_eq_iff a b = (
  λ e.
      ground
        (arith, texts_eq_sound a.capabilities b.capabilities, texts_eq_sound a.commands b.commands),
  λ e. rw e (ground (arith, texts_eq_refl b.capabilities, texts_eq_refl b.commands)),
)
