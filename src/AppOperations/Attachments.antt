-- ===== src/AppOperations/Attachments.antt =====
-- AttachConfigMapToApp, AttachSecretToApp, DetachConfigMapFromApp and DetachSecretFromApp.
use kube_op.Prelude.{
  List, [], ◌∷◌, ◌++◌, Option, some, if◌then◌else◌, Result, ok, err, ◌>>=◌, and_then, on_ok,
}
use kube_op.Text.{Text, text, is_empty, trim_space}
use kube_op.Events.{string, strings, entry, EventInput}
use kube_op.EnvAttachments.{
  Container, SourceKind, config_map, secret, attach_env, detach_env, normalize_attachment_keys,
}
use kube_op.AppOperations.{
  Project, App, Deployment, ControlPlane, Calls, OperationFailure, no_containers, name_required,
  locate, append_event, info_event, app_meta, update_deployment,
}

abbrev pub source_word : SourceKind → Text
source_word config_map = text "configmap"
source_word secret = text "secret"

-- The mutation of the first container.
abbrev pub on_first :
    (Container → Container) → List Container → Result OperationFailure (List Container)
on_first f [] = err no_containers
on_first f (c ∷ cs) = ok (f c ∷ cs)

abbrev pub on_first_container :
    (Container → Container) → Deployment → Result OperationFailure Deployment
on_first_container f d = do
  containers ← on_first f d.containers
  ok (record d { containers = containers })

-- The body of the four functions, for a name that is trimmed.
unfoldable pub change_container :
    Calls
    → Text
    → Text
    → Text
    → (Container → Container)
    → (Project → App → EventInput)
    → ControlPlane
    → ControlPlane × Option OperationFailure
unfolding locate update_deployment append_event
change_container calls project_id app_id name f event s =
    if is_empty name
    then (s, some name_required)
    else on_ok (locate calls project_id app_id s) s (λ (p, a).
      and_then (update_deployment calls p a (λ d. on_first_container f d) s)
        (λ t. append_event calls (event p a) t))

abbrev pub attach_mode : List Text → Text
attach_mode [] = text "envFrom"
attach_mode (key ∷ keys) = text "keys"

abbrev pub attached_event :
    SourceKind → Text → Text → Text → List Text → Text → Project → App → EventInput
attached_event kind project_id app_id name keys prefix p a =
    info_event project_id app_id (text "app_" ++ (source_word kind ++ text "_attached"))
      (source_word kind ++ (text " " ++ (name ++ text " attached")))
      (entry (source_word kind) (string name) (
        entry (text "mode") (string (attach_mode keys)) (
          entry (text "keys") (strings keys)
            (entry (text "prefix") (string prefix) (app_meta p a)))))

abbrev pub detached_event : SourceKind → Text → Text → Text → Project → App → EventInput
detached_event kind project_id app_id name p a =
    info_event project_id app_id (text "app_" ++ (source_word kind ++ text "_detached"))
      (source_word kind ++ (text " " ++ (name ++ text " detached")))
      (entry (source_word kind) (string name) (app_meta p a))

-- `AttachConfigMapToApp` and `AttachSecretToApp`
unfoldable pub attach_to_app :
    SourceKind
    → Calls
    → Text
    → Text
    → Text
    → List Text
    → Text
    → ControlPlane
    → ControlPlane × Option OperationFailure
unfolding change_container attach_env trim_space normalize_attachment_keys
attach_to_app kind calls project_id app_id name keys prefix s =
    change_container calls project_id app_id (trim_space name)
      (λ c.
        attach_env kind (trim_space name) (normalize_attachment_keys keys) (trim_space prefix) c)
      (λ p a.
        attached_event kind project_id app_id (trim_space name) (normalize_attachment_keys keys)
          (trim_space prefix) p a)
      s

-- `DetachConfigMapFromApp` and `DetachSecretFromApp`
unfoldable pub detach_from_app :
    SourceKind → Calls → Text → Text → Text → ControlPlane → ControlPlane × Option OperationFailure
unfolding change_container detach_env trim_space
detach_from_app kind calls project_id app_id name s =
    change_container calls project_id app_id (trim_space name)
      (λ c. detach_env kind (trim_space name) c)
      (λ p a. detached_event kind project_id app_id (trim_space name) p a) s

-- The four operations by their names in the source.
unfoldable pub attach_config_map_to_app :
    Calls
    → Text
    → Text
    → Text
    → List Text
    → Text
    → ControlPlane
    → ControlPlane × Option OperationFailure
unfolding attach_to_app
attach_config_map_to_app calls project_id app_id name keys prefix s =
    attach_to_app config_map calls project_id app_id name keys prefix s

unfoldable pub attach_secret_to_app :
    Calls
    → Text
    → Text
    → Text
    → List Text
    → Text
    → ControlPlane
    → ControlPlane × Option OperationFailure
unfolding attach_to_app
attach_secret_to_app calls project_id app_id name keys prefix s =
    attach_to_app secret calls project_id app_id name keys prefix s

unfoldable pub detach_config_map_from_app :
    Calls → Text → Text → Text → ControlPlane → ControlPlane × Option OperationFailure
unfolding detach_from_app
detach_config_map_from_app calls project_id app_id name s =
    detach_from_app config_map calls project_id app_id name s

unfoldable pub detach_secret_from_app :
    Calls → Text → Text → Text → ControlPlane → ControlPlane × Option OperationFailure
unfolding detach_from_app
detach_secret_from_app calls project_id app_id name s =
    detach_from_app secret calls project_id app_id name s
