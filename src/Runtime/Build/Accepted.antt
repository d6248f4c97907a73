-- ===== src/Runtime/Build/Accepted.antt =====
-- Which builders build, and what the runtime that they build guarantees.
use openclaw_rust_node.Base.{
  ◌≤◌, String, false, ◌≡◌, refl, ap, ◌↔◌, Option, none, some, List, [], ◌∷◌, map, All, str_eq,
  eq_iff, from_millis, if◌then◌else◌, arith, inl, inr, Bool-cases,
}
use openclaw_rust_node.Base.Results.{ok, IsOk, fail_if-IsOk, Result-cases}
use openclaw_rust_node.Text.{is_empty, trim}
use openclaw_rust_node.Text.Names.{is_in, AreDistinct}
use openclaw_rust_node.Runtime.Build.{
  assemble, duplicate_command, reserved_command, empty_command, Registration, RegisteredHandler,
  CommandRuntimeBuilder, CommandRuntime, get, contains_key, add_capabilities, is_system_command,
  registered, add_handlers, build,
}

-- A capability that may be declared, and a command that may be registered.
abbrev pub IsNamed : String → Type 0
IsNamed capability = is_empty (trim capability) ≡ false

abbrev pub IsRegistrable : {H : Type 0} → Registration H → Type 0
IsRegistrable r = IsNamed r.command × (is_system_command (trim r.command) ≡ false)

abbrev pub names : {H : Type 0} → List (Registration H) → List String
names registrations = map (λ r. trim r.command) registrations

add_capabilities-IsOk_iff :
    (found capabilities : List String)
    → IsOk (add_capabilities found capabilities) ↔ All IsNamed capabilities
unfolding add_capabilities
add_capabilities-IsOk_iff found [] = (λ h. tt, λ h. (found, refl))
add_capabilities-IsOk_iff found (c ∷ rest) =
    let found' = if is_in (trim c) found then found else trim c ∷ found in
    let step = fail_if-IsOk (is_empty (trim c)) _ (add_capabilities found' rest) in
    let both = add_capabilities-IsOk_iff found' rest in
    (λ h. let (n, h') = step.0 h in (n, both.0 h'), λ h. step.1 (h.0, both.1 h.1))

-- None of the names has an entry.
AreFree : {A : Type 0} → List (String × A) → List String → Type 0
AreFree entries names = All (λ n. contains_key entries n ≡ false) names

AreFree-cons :
    {A : Type 0} (name : String) (a : A) (entries : List (String × A)) (names : List String)
    → AreFree ((name, a) ∷ entries) names
      ↔ (All (λ n. str_eq n name ≡ false) names × AreFree entries names)
unfolding AreFree get
AreFree-cons name a entries [] = (λ h. ground arith, λ h. ground arith)
AreFree-cons name a entries (n ∷ names) = (
  λ h. ground (arith, (AreFree-cons name a entries names).0 h.1),
  λ h. ground (arith, (AreFree-cons name a entries names).1 (h.0.1, h.1.1)),
)

AreFree-nil : (A : Type 0) (ns : List String) → AreFree {A = A} [] ns
unfolding AreFree get
AreFree-nil A [] = tt
AreFree-nil A (n ∷ ns) = (refl, AreFree-nil A ns)

add_handlers-IsOk_iff :
    {H : Type 0} (handlers : List (String × RegisteredHandler H)) (regs : List (Registration H))
    → IsOk (add_handlers handlers regs)
      ↔ (All IsRegistrable regs × AreDistinct (names regs) × AreFree handlers (names regs))
unfolding add_handlers AreFree
add_handlers-IsOk_iff handlers [] = (λ h. (tt, tt, tt), λ h. (handlers, refl))
add_handlers-IsOk_iff handlers (r ∷ rest) =
    let both = add_handlers-IsOk_iff ((trim r.command, registered r) ∷ handlers) rest in
    let cons = AreFree-cons (trim r.command) (registered r) handlers (names rest) in
    let later = add_handlers ((trim r.command, registered r) ∷ handlers) rest in
    let free =
      fail_if-IsOk (contains_key handlers (trim r.command)) (duplicate_command (trim r.command))
        later in
    let allowed =
      fail_if-IsOk (is_system_command (trim r.command)) (reserved_command (trim r.command)) _ in
    let named = fail_if-IsOk (is_empty (trim r.command)) empty_command _ in
    (
      λ h.
          let (n, h1) = named.0 h in
          let (a, h2) = allowed.0 h1 in
          let (f, h3) = free.0 h2 in
          let (rs, ds, fs) = both.0 h3 in
          let (new, fs') = cons.0 fs in (((n, a), rs), (new, ds), (f, fs')),
      λ h.
          let (((n, a), rs), (new, ds), (f, fs')) = h in
          named.1 (n, allowed.1 (a, free.1 (f, both.1 (rs, ds, cons.1 (new, fs'))))),
    )

module _ {H P : Type 0} (b : CommandRuntimeBuilder H P) where
  pub build-ok :
      (r : CommandRuntime H P)
      → build b ≡ ok r
      → (capabilities : List String) × (handlers : List (String × RegisteredHandler H))
        × (add_capabilities [] b.capabilities ≡ ok capabilities)
        × (add_handlers [] b.registrations ≡ ok handlers)
        × (r ≡ assemble b capabilities handlers)
  unfolding build
  build-ok r h = elim (Result-cases (add_capabilities [] b.capabilities)) [
    | inl (c, p) ↦ elim (Result-cases (add_handlers [] b.registrations)) [
      | inl (d, q) ↦ (c, d, p, q, ground arith)
      | inr (e, q) ↦ absurd (ground arith)
    ]
    | inr (e, p) ↦ absurd (ground arith)
  ]

  -- A builder builds exactly if no declared capability is blank, and no registered command is blank,
  -- in the system namespace, or registered twice, the spaces around the names aside.
  pub build-IsOk_iff : IsOk (build b) ↔ (
      All IsNamed b.capabilities
      × All IsRegistrable b.registrations
      × AreDistinct (names b.registrations))
  unfolding build
  build-IsOk_iff =
      let caps = add_capabilities-IsOk_iff [] b.capabilities in
      let handlers = add_handlers-IsOk_iff [] b.registrations in
      (
        λ (r, h).
            let (c, d, p, q, _) = build-ok r h in
            let (rs, ds, _) = handlers.0 (d, q) in (caps.0 (c, p), rs, ds),
        λ (cs, rs, ds).
            let (c, p) = caps.1 cs in
            let (d, q) =
              handlers.1 (rs, ds, AreFree-nil (RegisteredHandler H) (names b.registrations)) in
            rw (p, q) (assemble b c d, refl),
      )

-- The registration of a name.
abbrev pub find_registration :
    {H : Type 0} → List (Registration H) → String → Option (RegisteredHandler H)
find_registration [] name = none
find_registration (r ∷ rest) name =
    let later = find_registration rest name in
    if str_eq name (trim r.command) then some (registered r) else later

abbrev or_else : {A : Type 0} → Option A → Option A → Option A
or_else none b = b
or_else (some a) b = some a

add_handlers-get :
    {H : Type 0} (handlers : List (String × RegisteredHandler H)) (regs : List (Registration H))
    (name : String) (all : List (String × RegisteredHandler H))
    → add_handlers handlers regs ≡ ok all
    → get all name ≡ or_else (get handlers name) (find_registration regs name)
unfolding add_handlers get
add_handlers-get handlers [] name all h = ground arith
add_handlers-get handlers (r ∷ rest) name all h =
    let later = add_handlers-get ((trim r.command, registered r) ∷ handlers) rest name all in
    elim (Bool-cases (str_eq name (trim r.command))) [
      | inl e ↦ ground (arith, later, ap (get handlers) ((eq_iff name (trim r.command)).0 e))
      | inr e ↦ ground (arith, later)
    ]

-- What a runtime can rely on: it has permits, as many as its delivery queue has places, it takes input
-- and output, and its deadlines are positive and ordered.
pub record IsValid {H P : Type 0} (r : CommandRuntime H P) : Type 0 where
  pub has_permits : 1 ≤ r.permits
  pub capacity : r.delivery_capacity ≡ r.permits
  pub takes_input : 1 ≤ r.max_input_bytes
  pub takes_output : 1 ≤ r.max_output_bytes
  pub positive : from_millis 1 ≤ r.default_timeout
  pub ordered : r.default_timeout ≤ r.max_timeout

-- A built runtime is valid whatever limits were asked for, and it routes a name to the handler that was
-- registered for it, with its kind, and a name that was not registered to none.
pub build_routes :
    {H P : Type 0} (b : CommandRuntimeBuilder H P) (r : CommandRuntime H P)
    → build b ≡ ok r
    → IsValid r × ((name : String) → get r.handlers name ≡ find_registration b.registrations name)
unfolding assemble get
build_routes b r h =
    let (c, d, p, q, e) = build-ok b r h in
    (
      rw e (record {
        has_permits = omega arith;
        capacity = refl;
        takes_input = omega arith;
        takes_output = omega arith;
        positive = omega arith;
        ordered = omega arith;
      }),
      λ name. rw e (add_handlers-get [] b.registrations name d q),
    )
