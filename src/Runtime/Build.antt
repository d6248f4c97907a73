-- ===== src/Runtime/Build.antt =====
-- The builder of a command runtime (runtime.rs). `H` is the type of handlers, `P` that of admission
-- policies. A `BTreeMap` is an association list, a `BTreeSet` a list without repetition; what iterates
-- them sorts the names.
pub mod Accepted
use text.Mathlib.Text.{starts_with}
use openclaw_rust_node.Base.{
  ℕ, ◌*◌, max, min, String, Bool, true, false, ◌||◌, Option, none, some, List, [], ◌∷◌, ◌++◌, map,
  str_eq, if◌then◌else◌, from_millis, from_secs,
}
use openclaw_rust_node.Base.Results.{Result, ok, ◌>>=◌, ◌>>◌, fail_if}
use openclaw_rust_node.Text.{is_empty, trim}
use openclaw_rust_node.Text.Names.{is_in, sorted}

pub data RuntimeBuildError : Type 0 where
  empty_capability empty_command : RuntimeBuildError
  reserved_command duplicate_command : String → RuntimeBuildError

pub record Registration (H : Type 0) : Type 0 where
  pub command : String
  pub handler : H
  pub duplex : Bool

pub record RegisteredHandler (H : Type 0) : Type 0 where
  pub handler : H
  pub duplex : Bool

pub record CommandRuntimeBuilder (H P : Type 0) : Type 0 where
  pub registrations : List (Registration H)
  pub capabilities : List String
  pub admission_policy : Option P
  pub max_concurrency : ℕ
  pub max_input_bytes : ℕ
  pub max_output_bytes : ℕ
  pub default_timeout : ℕ
  pub max_timeout : ℕ
  pub result_grace : ℕ

-- The semaphore `permits` starts with `delivery_capacity` permits; those in use are the loop's state.
pub record CommandRuntime (H P : Type 0) : Type 0 where
  pub handlers : List (String × RegisteredHandler H)
  pub capabilities : List String
  pub admission_policy : Option P
  pub permits : ℕ
  pub delivery_capacity : ℕ
  pub max_input_bytes : ℕ
  pub max_output_bytes : ℕ
  pub default_timeout : ℕ
  pub max_timeout : ℕ
  pub result_grace : ℕ

abbrev pub nonzero_duration : ℕ → ℕ
nonzero_duration value = max value (from_millis 1)

-- `BTreeMap::get`.
unfoldable pub get {ℓ} : {A : Type ℓ} → List (String × A) → String → Option A
get [] name = none
get ((n, a) ∷ entries) name = let rest = get entries name in if str_eq name n then some a else rest

abbrev pub contains_key {ℓ} : {A : Type ℓ} → List (String × A) → String → Bool
contains_key entries name = elim (get entries name) [ none ↦ false | some a ↦ true ]

module _ {H P : Type 0} where
  unfoldable pub default : CommandRuntimeBuilder H P
  default = record {
    registrations = [];
    capabilities = [];
    admission_policy = none;
    max_concurrency = 8;
    max_input_bytes = 256 * 1024;
    max_output_bytes = 256 * 1024;
    default_timeout = from_secs 30;
    max_timeout = from_secs (5 * 60);
    result_grace = from_millis 100;
  }

  unfoldable pub capability : CommandRuntimeBuilder H P → String → CommandRuntimeBuilder H P
  capability b name = record b { capabilities = b.capabilities ++ (name ∷ []) }

  unfoldable pub admission_policy : CommandRuntimeBuilder H P → P → CommandRuntimeBuilder H P
  admission_policy b policy = record b { admission_policy = some policy }

  unfoldable pub register :
      CommandRuntimeBuilder H P → String → H → Bool → CommandRuntimeBuilder H P
  register b command handler duplex = record b {
    registrations =
        b.registrations ++ (record { command = command; handler = handler; duplex = duplex } ∷ []);
  }

  unfoldable pub command : CommandRuntimeBuilder H P → String → H → CommandRuntimeBuilder H P
  unfolding register
  command b name handler = register b name handler false

  unfoldable pub duplex_command : CommandRuntimeBuilder H P → String → H → CommandRuntimeBuilder H P
  unfolding register
  duplex_command b name handler = register b name handler true

  unfoldable pub max_concurrency : CommandRuntimeBuilder H P → ℕ → CommandRuntimeBuilder H P
  max_concurrency b maximum = record b { max_concurrency = max maximum 1 }

  unfoldable pub max_input_bytes : CommandRuntimeBuilder H P → ℕ → CommandRuntimeBuilder H P
  max_input_bytes b maximum = record b { max_input_bytes = max maximum 1 }

  unfoldable pub max_output_bytes : CommandRuntimeBuilder H P → ℕ → CommandRuntimeBuilder H P
  max_output_bytes b maximum = record b { max_output_bytes = max maximum 1 }

  unfoldable pub default_timeout : CommandRuntimeBuilder H P → ℕ → CommandRuntimeBuilder H P
  default_timeout b timeout = record b { default_timeout = nonzero_duration timeout }

  unfoldable pub max_timeout : CommandRuntimeBuilder H P → ℕ → CommandRuntimeBuilder H P
  max_timeout b timeout = record b { max_timeout = nonzero_duration timeout }

  unfoldable pub result_grace : CommandRuntimeBuilder H P → ℕ → CommandRuntimeBuilder H P
  result_grace b duration = record b { result_grace = duration }

-- The first loop of `build`: the set of the capabilities so far and the rest of them.
unfoldable pub add_capabilities : List String → List String → Result RuntimeBuildError (List String)
add_capabilities capabilities [] = ok capabilities
add_capabilities capabilities (c ∷ rest) = do
  fail_if (is_empty (trim c)) empty_capability
  add_capabilities (if is_in (trim c) capabilities then capabilities else trim c ∷ capabilities)
      rest

-- The namespace of commands that OpenClaw owns.
unfoldable pub is_system_command : String → Bool
is_system_command command = str_eq command "system" || starts_with command "system."

unfoldable pub registered : {H : Type 0} → Registration H → RegisteredHandler H
registered r = record { handler = r.handler; duplex = r.duplex }

-- The second loop: `insert` replaces an entry and tells so, which ends the loop.
unfoldable pub add_handlers :
    {H : Type 0}
    → List (String × RegisteredHandler H)
    → List (Registration H)
    → Result RuntimeBuildError (List (String × RegisteredHandler H))
add_handlers handlers [] = ok handlers
add_handlers handlers (r ∷ rest) = do
  fail_if (is_empty (trim r.command)) empty_command
  fail_if (is_system_command (trim r.command)) (reserved_command (trim r.command))
  fail_if (contains_key handlers (trim r.command)) (duplicate_command (trim r.command))
  add_handlers ((trim r.command, registered r) ∷ handlers) rest

unfoldable pub assemble :
    {H P : Type 0}
    → CommandRuntimeBuilder H P
    → List String
    → List (String × RegisteredHandler H)
    → CommandRuntime H P
assemble b capabilities handlers = record {
  handlers = handlers;
  capabilities = capabilities;
  admission_policy = b.admission_policy;
  permits = max b.max_concurrency 1;
  delivery_capacity = max b.max_concurrency 1;
  max_input_bytes = max b.max_input_bytes 1;
  max_output_bytes = max b.max_output_bytes 1;
  default_timeout = min (nonzero_duration b.default_timeout) (nonzero_duration b.max_timeout);
  max_timeout = nonzero_duration b.max_timeout;
  result_grace = b.result_grace;
}

unfoldable pub build :
    {H P : Type 0} → CommandRuntimeBuilder H P → Result RuntimeBuildError (CommandRuntime H P)
build b = do
  capabilities ← add_capabilities [] b.capabilities
  handlers ← add_handlers [] b.registrations
  ok (assemble b capabilities handlers)

-- The names of a built runtime, in the order in which the maps iterate.
unfoldable pub command_names : {H P : Type 0} → CommandRuntime H P → List String
command_names r = sorted (map (λ entry. entry.0) r.handlers)

unfoldable pub capability_names : {H P : Type 0} → CommandRuntime H P → List String
capability_names r = sorted r.capabilities
