-- ===== src/Sidecar/Protocol/Negotiation.antt =====
-- What a negotiation agrees on: no more than either side offered, and the same on both sides.
use Prim.Native.Nat.{bit_and}
use openclaw_rust_node.Base.{ℕ, ◌≤◌, ◌<◌, min, ◌≡◌, ◌≢◌, refl, sym, ◌∙◌, ◌⊎◌, ◌↔◌, arith}
use openclaw_rust_node.Base.Bits.{digit, digit-le, digit_ext, digit-bit_and, bit_and_comm}
use openclaw_rust_node.Base.Results.{ok}
use openclaw_rust_node.Sidecar.Protocol.{
  SidecarLimits, SidecarProtocolOffer, NegotiatedSidecarProtocol, sidecar_protocol_major,
  sidecar_protocol_minor, sidecar_max_feature_bits, min_frame_bytes, validate_limits, agreed,
  negotiate_sidecar_protocol, selection_of,
}

pub record IsUsable (l : SidecarLimits) : Type 0 where
  pub frames : min_frame_bytes ≤ l.max_frame_bytes
  pub in_flight : 0 < l.max_in_flight
  pub timeout : 0 < l.bootstrap_timeout_ms

-- The offers that can be negotiated.
pub record AreCompatible (local remote : SidecarProtocolOffer) : Type 0 where
  pub local_limits : IsUsable local.limits
  pub remote_limits : IsUsable remote.limits
  pub roles : local.peer.role ≢ remote.peer.role
  pub local_features : local.feature_bits ≤ sidecar_max_feature_bits
  pub remote_features : remote.feature_bits ≤ sidecar_max_feature_bits
  pub local_major : local.protocol_major ≡ sidecar_protocol_major
  pub remote_major : remote.protocol_major ≡ sidecar_protocol_major
  pub local_minor : local.protocol_minor ≤ sidecar_protocol_minor

validate_limits-ok :
    (l : SidecarLimits) {l' : SidecarLimits} → validate_limits l ≡ ok l' → IsUsable l × (l' ≡ l)
unfolding validate_limits
validate_limits-ok l h = ground arith

validate_limits-IsUsable : (l : SidecarLimits) → IsUsable l → validate_limits l ≡ ok l
unfolding validate_limits
validate_limits-IsUsable l u = ground arith

-- Success and its value as the code has them; what they mean is `negotiate_agrees`.
pub negotiate-ok_iff :
    (local remote : SidecarProtocolOffer) (n : NegotiatedSidecarProtocol)
    → (negotiate_sidecar_protocol local remote ≡ ok n)
      ↔ (AreCompatible local remote × (n ≡ agreed local remote))
unfolding negotiate_sidecar_protocol
negotiate-ok_iff local remote n = (λ h. ground arith, λ h. ground arith)

-- The largest number that neither of two exceeds.
pub record IsCeiling (a b c : ℕ) : Type 0 where
  pub within_first : c ≤ a
  pub within_second : c ≤ b
  pub reached : (c ≡ a) ⊎ (c ≡ b)

-- What a negotiation has to agree on: in each limit and in the minor version as much as both
-- offer, in each feature what both have, and the other side as the peer.
pub record IsAgreed (local remote : SidecarProtocolOffer) (n : NegotiatedSidecarProtocol)
    : Type 0 where
  pub major : n.protocol_major ≡ remote.protocol_major
  pub minor : IsCeiling local.protocol_minor remote.protocol_minor n.protocol_minor
  pub features :
      (k : ℕ)
      → (digit k n.feature_bits ≡ 1)
        ↔ ((digit k local.feature_bits ≡ 1) × (digit k remote.feature_bits ≡ 1))
  pub frames :
      IsCeiling local.limits.max_frame_bytes remote.limits.max_frame_bytes n.limits.max_frame_bytes
  pub in_flight :
      IsCeiling local.limits.max_in_flight remote.limits.max_in_flight n.limits.max_in_flight
  pub timeout :
      IsCeiling local.limits.bootstrap_timeout_ms remote.limits.bootstrap_timeout_ms
        n.limits.bootstrap_timeout_ms
  pub peer : n.remote_peer ≡ remote.peer

min-IsCeiling : (a b : ℕ) → IsCeiling a b (min a b)
min-IsCeiling a b = record {
  within_first = omega arith;
  within_second = omega arith;
  reached = ground arith;
}

IsCeiling-min : (a b c : ℕ) → IsCeiling a b c → c ≡ min a b
IsCeiling-min a b c w = ground (arith, w.within_first, w.within_second, w.reached)

agreed-IsAgreed :
    (local remote : SidecarProtocolOffer)
    → remote.protocol_major ≡ sidecar_protocol_major
    → IsAgreed local remote (agreed local remote)
agreed-IsAgreed local remote h = record {
  major = sym h;
  minor = min-IsCeiling _ _;
  features = λ k. (
    λ q. omega (
      arith,
      digit-bit_and k local.feature_bits remote.feature_bits,
      digit-le k local.feature_bits,
      digit-le k remote.feature_bits,
      q,
    ),
    λ q. omega (arith, digit-bit_and k local.feature_bits remote.feature_bits, q),
  );
  frames = min-IsCeiling _ _;
  in_flight = min-IsCeiling _ _;
  timeout = min-IsCeiling _ _;
  peer = refl;
}

IsAgreed-features :
    (local remote : SidecarProtocolOffer) (n : NegotiatedSidecarProtocol)
    → IsAgreed local remote n
    → n.feature_bits ≡ bit_and local.feature_bits remote.feature_bits
IsAgreed-features local remote n w = digit_ext _ _ λ k. ground (
  arith,
  digit-bit_and k local.feature_bits remote.feature_bits,
  digit-le k n.feature_bits,
  digit-le k local.feature_bits,
  digit-le k remote.feature_bits,
  w.features k,
)

IsAgreed-agreed :
    (local remote : SidecarProtocolOffer) (n : NegotiatedSidecarProtocol)
    → remote.protocol_major ≡ sidecar_protocol_major
    → IsAgreed local remote n
    → n ≡ agreed local remote
IsAgreed-agreed local remote n h w = ground (
  arith,
  w.major ∙ h,
  IsCeiling-min _ _ _ w.minor,
  IsAgreed-features local remote n w,
  IsCeiling-min _ _ _ w.frames,
  IsCeiling-min _ _ _ w.in_flight,
  IsCeiling-min _ _ _ w.timeout,
  w.peer,
)

-- A negotiation has a result exactly if both offers have usable limits, known features and the
-- major version of this protocol, the roles differ, and the local minor version is known. The result
-- has in each limit and in the minor version the largest number that exceeds neither offer, a feature
-- exactly if both offer it, and the remote peer, and these determine it.
pub negotiate_agrees :
    (local remote : SidecarProtocolOffer) (n : NegotiatedSidecarProtocol)
    → (negotiate_sidecar_protocol local remote ≡ ok n)
      ↔ (AreCompatible local remote × IsAgreed local remote n)
negotiate_agrees local remote n = (
  λ h.
      let (c, e) = (negotiate-ok_iff local remote n).0 h in
      (c, rw e (agreed-IsAgreed local remote c.remote_major)),
  λ (c, w).
      (negotiate-ok_iff local remote n).1 (c, IsAgreed-agreed local remote n c.remote_major w),
)

-- The two peers select the same protocol: where one negotiation succeeds, and the other side
-- implements its own minor version, the other succeeds too, with the same selection.
pub negotiate_symmetric :
    (local remote : SidecarProtocolOffer) {n : NegotiatedSidecarProtocol}
    → negotiate_sidecar_protocol local remote ≡ ok n
    → remote.protocol_minor ≤ sidecar_protocol_minor
    → (m : NegotiatedSidecarProtocol) × (negotiate_sidecar_protocol remote local ≡ ok m)
      × (selection_of m ≡ selection_of n)
negotiate_symmetric local remote {n} h minor =
    let (c, e) = (negotiate-ok_iff local remote n).0 h in
    (
      agreed remote local,
      (negotiate-ok_iff remote local _).1 (
        record {
          local_limits = c.remote_limits;
          remote_limits = c.local_limits;
          roles = λ r. c.roles (sym r);
          local_features = c.remote_features;
          remote_features = c.local_features;
          local_major = c.remote_major;
          remote_major = c.local_major;
          local_minor = minor;
        },
        refl,
      ),
      rw e (ground (arith, bit_and_comm local.feature_bits remote.feature_bits)),
    )
