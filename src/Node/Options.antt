-- ===== src/Node/Options.antt =====
-- The options of a node's connection (node.rs): what the embedding declares, and what is made of it for
-- the dialect of the session and its challenge. `I` is the type of identities, which sign.
use openclaw_rust_node.Base.{
  ℕ, String, Bool, true, false, if◌then◌else◌, Option, none, some, List, [], ◌∷◌, ◌++◌, str_eq,
}
use openclaw_rust_node.Base.Results.{Result, ok, ◌>>=◌}
use openclaw_rust_node.Client.{IdentityError}

pub data NodeProtocolVersion : Type 0 where
  v3 v4 : NodeProtocolVersion

abbrev pub minimum_node_protocol_version : ℕ
minimum_node_protocol_version = 3

abbrev pub protocol_version : ℕ
protocol_version = 4

unfoldable pub number : NodeProtocolVersion → ℕ
number v3 = minimum_node_protocol_version
number v4 = protocol_version

pub record DeviceProof : Type 0 where
  pub id : String
  pub public_key : String
  pub signature : String
  pub signed_at : ℕ
  pub nonce : String

pub record ConnectAuth : Type 0 where
  pub token : Option String
  pub bootstrap_token : Option String
  pub device_token : Option String
  pub password : Option String

abbrev single : Option String → Option String → Option String → Option String → ConnectAuth
single token bootstrap_token device_token password = record {
  token = token;
  bootstrap_token = bootstrap_token;
  device_token = device_token;
  password = password;
}

unfoldable pub token_auth : String → ConnectAuth
token_auth value = single (some value) none none none

unfoldable pub bootstrap_token_auth : String → ConnectAuth
bootstrap_token_auth value = single none (some value) none none

unfoldable pub device_token_auth : String → ConnectAuth
device_token_auth value = single none none (some value) none

unfoldable pub password_auth : String → ConnectAuth
password_auth value = single none none none (some value)

abbrev or_else : Option String → Option String → Option String
or_else none b = b
or_else (some a) b = some a

unfoldable pub signature_token : ConnectAuth → Option String
signature_token a = or_else (or_else a.token a.device_token) a.bootstrap_token

pub record ClientInfo : Type 0 where
  pub id : String
  pub display_name : Option String
  pub version : String
  pub platform : String
  pub device_family : Option String
  pub mode : String
  pub instance_id : Option String

pub record NodeConnectOptions (I : Type 0) : Type 0 where
  pub min_protocol : ℕ
  pub max_protocol : ℕ
  pub client : ClientInfo
  pub advertised_caps : List String
  pub advertised_commands : List String
  pub advertised_permissions : List (String × Bool)
  pub declared_caps : List String
  pub declared_commands : List String
  pub declared_permissions : List (String × Bool)
  pub activated : Bool
  pub path_env : Option String
  pub role : String
  pub scopes : List String
  pub device : Option DeviceProof
  pub identity : Option I
  pub auth : Option ConnectAuth
  pub locale : Option String
  pub user_agent : Option String

unfoldable pub legacy_node_platform : String → String
legacy_node_platform platform =
    if str_eq platform "macos"
    then "darwin"
    else if str_eq platform "windows"
    then "win32"
    else platform

-- `BTreeMap::insert`.
unfoldable pub insert_permission : List (String × Bool) → String → Bool → List (String × Bool)
insert_permission [] name allowed = (name, allowed) ∷ []
insert_permission ((n, a) ∷ entries) name allowed =
    let rest = insert_permission entries name allowed in
    if str_eq name n then (name, allowed) ∷ entries else (n, a) ∷ rest

-- What an identity signs: the nonce, the platform and device family, the token, and the time.
abbrev pub Signer : Type 0 → Type 0
Signer I =
    I
    → (nonce platform : String) → (device_family token : Option String) → (issued_at_ms : ℕ)
    → Result IdentityError DeviceProof

abbrev pub token_of : Option ConnectAuth → Option String
token_of none = none
token_of (some auth) = signature_token auth

module _ {I : Type 0} where
  unfoldable pub new : (version platform : String) → NodeConnectOptions I
  new version platform = record {
    min_protocol = minimum_node_protocol_version;
    max_protocol = protocol_version;
    client = record {
      id = "node-host";
      display_name = none;
      version = version;
      platform = platform;
      device_family = none;
      mode = "node";
      instance_id = none;
    };
    advertised_caps = [];
    advertised_commands = [];
    advertised_permissions = [];
    declared_caps = [];
    declared_commands = [];
    declared_permissions = [];
    activated = false;
    path_env = none;
    role = "node";
    scopes = [];
    device = none;
    identity = none;
    auth = none;
    locale = none;
    user_agent = none;
  }

  unfoldable pub with_display_name : NodeConnectOptions I → String → NodeConnectOptions I
  with_display_name o value = record o { client = record o.client { display_name = some value } }

  unfoldable pub with_instance_id : NodeConnectOptions I → String → NodeConnectOptions I
  with_instance_id o value = record o { client = record o.client { instance_id = some value } }

  unfoldable pub with_device_family : NodeConnectOptions I → String → NodeConnectOptions I
  with_device_family o value = record o { client = record o.client { device_family = some value } }

  unfoldable pub with_capability : NodeConnectOptions I → String → NodeConnectOptions I
  with_capability o value = record o { declared_caps = o.declared_caps ++ (value ∷ []) }

  unfoldable pub with_command : NodeConnectOptions I → String → NodeConnectOptions I
  with_command o value = record o { declared_commands = o.declared_commands ++ (value ∷ []) }

  unfoldable pub with_permission : NodeConnectOptions I → String → Bool → NodeConnectOptions I
  with_permission o name allowed = record o {
    declared_permissions = insert_permission o.declared_permissions name allowed;
  }

  unfoldable pub with_activation : NodeConnectOptions I → NodeConnectOptions I
  with_activation o = record o { activated = true }

  unfoldable pub with_path_env : NodeConnectOptions I → String → NodeConnectOptions I
  with_path_env o value = record o { path_env = some value }

  unfoldable pub with_device : NodeConnectOptions I → DeviceProof → NodeConnectOptions I
  with_device o value = record o { device = some value; identity = none }

  unfoldable pub with_identity : NodeConnectOptions I → I → NodeConnectOptions I
  with_identity o value = record o { identity = some value; device = none }

  unfoldable pub with_auth : NodeConnectOptions I → ConnectAuth → NodeConnectOptions I
  with_auth o value = record o { auth = some value }

  unfoldable pub with_locale : NodeConnectOptions I → String → NodeConnectOptions I
  with_locale o value = record o { locale = some value }

  unfoldable pub with_user_agent : NodeConnectOptions I → String → NodeConnectOptions I
  with_user_agent o value = record o { user_agent = some value }

  unfoldable pub for_protocol : NodeConnectOptions I → NodeProtocolVersion → NodeConnectOptions I
  for_protocol o v4 = record o { min_protocol = number v4; max_protocol = number v4 }
  for_protocol o v3 = record o {
    min_protocol = number v3;
    max_protocol = number v3;
    client = record o.client {
      platform = legacy_node_platform o.client.platform;
      device_family = none;
    };
  }

  unfoldable pub identity_metadata :
      NodeConnectOptions I → NodeProtocolVersion → String × Option String
  identity_metadata o v3 = (legacy_node_platform o.client.platform, none)
  identity_metadata o v4 = (o.client.platform, o.client.device_family)

  unfoldable pub advertise : NodeConnectOptions I → NodeConnectOptions I
  advertise o =
      if o.activated
      then record o {
        advertised_caps = o.declared_caps;
        advertised_commands = o.declared_commands;
        advertised_permissions = o.declared_permissions;
      }
      else o

  unfoldable pub prove :
      Signer I
      → NodeConnectOptions I
      → Option I
      → String
      → ℕ
      → Result IdentityError (NodeConnectOptions I)
  prove sign o none nonce issued_at_ms = ok o
  prove sign o (some identity) nonce issued_at_ms = do
    proof ←
        sign identity nonce o.client.platform o.client.device_family (token_of o.auth) issued_at_ms
    ok (record o { identity = none; device = some proof })

  unfoldable pub finalize_identity :
      Signer I → NodeConnectOptions I → String → ℕ → Result IdentityError (NodeConnectOptions I)
  unfolding advertise prove
  finalize_identity sign o nonce issued_at_ms =
      prove sign (advertise o) o.identity nonce issued_at_ms
