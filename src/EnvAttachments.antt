-- ===== src/EnvAttachments.antt =====
-- ConfigMaps and Secrets in a container's environment: normalizeAttachmentKeys and the Attach and
-- Detach functions of internal/service/apps.go.
pub mod Detaching
pub mod Tests
use kube_op.Prelude.{
  ℕ, ◌≡◌, Bool, true, false, not, ◌&&◌, ◌||◌, List, [], ◌∷◌, ◌++◌, Option, none, some, any,
  if◌then◌else◌,
}
use kube_op.Text.{Text, text, is_empty, same, trim_space}

-- `corev1.EnvFromSource`: the names of its references.
pub record EnvFromSource : Type 0 where
  pub prefix : Text
  pub config_map_ref : Option Text
  pub secret_ref : Option Text

-- `ConfigMapKeySelector` and `SecretKeySelector`
pub record KeySelector : Type 0 where
  pub name : Text
  pub key : Text

-- `corev1.EnvVarSource`; the field path stands for the sources that the program does not touch.
pub record EnvVarSource : Type 0 where
  pub config_map_key_ref : Option KeySelector
  pub secret_key_ref : Option KeySelector
  pub field_path : Option Text

pub record EnvVar : Type 0 where
  pub name : Text
  pub value : Text
  pub value_from : Option EnvVarSource

pub record Container : Type 0 where
  pub name : Text
  pub image : Text
  pub env_from : List EnvFromSource
  pub env : List EnvVar

-- The functions come twice in the source, for ConfigMaps and for Secrets.
pub data SourceKind : Type 0 where
  config_map secret : SourceKind

abbrev pub env_from_ref : SourceKind → EnvFromSource → Option Text
env_from_ref config_map s = s.config_map_ref
env_from_ref secret s = s.secret_ref

abbrev pub key_ref : SourceKind → EnvVarSource → Option KeySelector
key_ref config_map s = s.config_map_key_ref
key_ref secret s = s.secret_key_ref

abbrev pub is_named : Text → Option Text → Bool
is_named name none = false
is_named name (some other) = same other name

abbrev pub selects : Text → Option KeySelector → Bool
selects name none = false
selects name (some selector) = same selector.name name

-- `src.ConfigMapRef != nil && src.ConfigMapRef.Name == name`
unfoldable pub env_from_refers : SourceKind → Text → EnvFromSource → Bool
unfolding same
env_from_refers kind name s = is_named name (env_from_ref kind s)

-- `ev.ValueFrom != nil && ev.ValueFrom.ConfigMapKeyRef != nil && …Name == name`
unfoldable pub env_refers : SourceKind → Text → EnvVar → Bool
unfolding same
env_refers kind name v = elim (v.value_from) [
  | none ↦ false
  | some s ↦ selects name (key_ref kind s)
]

abbrev pub new_env_from : SourceKind → Text → EnvFromSource
new_env_from config_map name = record { prefix = []; config_map_ref = some name; secret_ref = none }
new_env_from secret name = record { prefix = []; config_map_ref = none; secret_ref = some name }

abbrev pub key_source : SourceKind → KeySelector → EnvVarSource
key_source config_map s = record {
  config_map_key_ref = some s;
  secret_key_ref = none;
  field_path = none;
}
key_source secret s = record {
  config_map_key_ref = none;
  secret_key_ref = some s;
  field_path = none;
}

abbrev pub key_env : SourceKind → Text → Text → Text → EnvVar
key_env kind name env_name key = record {
  name = env_name;
  value = [];
  value_from = some (key_source kind (record { name = name; key = key }));
}

-- The loop of `normalizeAttachmentKeys`.
unfoldable pub unseen_keys : List Text → List Text → List Text
unfolding trim_space same
unseen_keys seen [] = []
unseen_keys seen (key ∷ keys) =
    let k = trim_space key in
    let skip = is_empty k || any (λ other. same other k) seen in
    let rest = unseen_keys (if skip then seen else k ∷ seen) keys in if skip then rest else k ∷ rest

-- `normalizeAttachmentKeys`
unfoldable pub normalize_attachment_keys : List Text → List Text
unfolding unseen_keys
normalize_attachment_keys keys = unseen_keys [] keys

-- The first variable of that name is replaced; without one, the variable is appended.
unfoldable pub set_env : EnvVar → List EnvVar → List EnvVar
unfolding same
set_env v [] = v ∷ []
set_env v (w ∷ env) = if same w.name v.name then v ∷ env else w ∷ set_env v env

-- The loop over the keys.
unfoldable pub attach_keys : SourceKind → Text → Text → List Text → List EnvVar → List EnvVar
unfolding set_env
attach_keys kind name prefix [] env = env
attach_keys kind name prefix (key ∷ keys) env =
    attach_keys kind name prefix keys (set_env (key_env kind name (prefix ++ key) key) env)

abbrev pub attach_all : SourceKind → Text → List EnvFromSource → List EnvFromSource
attach_all kind name sources =
    if any (λ s. env_from_refers kind name s) sources
    then sources
    else sources ++ (new_env_from kind name ∷ [])

abbrev pub attach_normalized : SourceKind → Text → Text → List Text → Container → Container
attach_normalized kind name prefix [] c = record c { env_from = attach_all kind name c.env_from }
attach_normalized kind name prefix (key ∷ keys) c = record c {
  env = attach_keys kind name prefix (key ∷ keys) c.env;
}

unfoldable pub attach_env : SourceKind → Text → List Text → Text → Container → Container
unfolding normalize_attachment_keys attach_keys env_from_refers trim_space
attach_env kind name keys prefix c =
    attach_normalized kind name (trim_space prefix) (normalize_attachment_keys keys) c

unfoldable pub without_env_from : SourceKind → Text → List EnvFromSource → List EnvFromSource
unfolding env_from_refers
without_env_from kind name [] = []
without_env_from kind name (s ∷ sources) =
    let rest = without_env_from kind name sources in
    if env_from_refers kind name s then rest else s ∷ rest

unfoldable pub without_env : SourceKind → Text → List EnvVar → List EnvVar
unfolding env_refers
without_env kind name [] = []
without_env kind name (v ∷ env) =
    let rest = without_env kind name env in if env_refers kind name v then rest else v ∷ rest

unfoldable pub detach_env : SourceKind → Text → Container → Container
unfolding without_env_from without_env
detach_env kind name c = record c {
  env_from = without_env_from kind name c.env_from;
  env = without_env kind name c.env;
}

-- `AttachConfigMapEnv`, `AttachSecretEnv`, `DetachConfigMapEnv` and `DetachSecretEnv` for a
-- container that is not nil.
unfoldable pub attach_config_map_env : Text → List Text → Text → Container → Container
unfolding attach_env
attach_config_map_env name keys prefix c = attach_env config_map name keys prefix c

unfoldable pub attach_secret_env : Text → List Text → Text → Container → Container
unfolding attach_env
attach_secret_env name keys prefix c = attach_env secret name keys prefix c

unfoldable pub detach_config_map_env : Text → Container → Container
unfolding detach_env
detach_config_map_env name c = detach_env config_map name c

unfoldable pub detach_secret_env : Text → Container → Container
unfolding detach_env
detach_secret_env name c = detach_env secret name c
