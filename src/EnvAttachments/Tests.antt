-- ===== src/EnvAttachments/Tests.antt =====
-- A container with one variable, a ConfigMap and a Secret.
use kube_op.Prelude.{◌≡◌, refl, List, [], ◌∷◌, ◌++◌, none}
use kube_op.Text.{Text, text, trim_space, same}
use kube_op.EnvAttachments.{
  Container, secret, key_env, attach_env, detach_env, attach_config_map_env, attach_secret_env,
  detach_secret_env, normalize_attachment_keys, env_refers,
}
use kube_op.EnvAttachments.Detaching.{detach_env-attach_env, IsDetached, IsFree}

abbrev web : Container
web = record {
  name = text "web";
  image = text "web:1";
  env_from = [];
  env = record { name = text "PORT"; value = text "80"; value_from = none } ∷ [];
}

abbrev keys : List Text
keys = text " user" ∷ text "" ∷ text "user" ∷ text "pass" ∷ []

selected_keys :
    (attach_secret_env (text "db") keys (text "DB_") web).env
    ≡ web.env
      ++ (key_env secret (text "db") (text "DB_user") (text "user")
          ∷ key_env secret (text "db") (text "DB_pass") (text "pass")
          ∷ [])
unfolding attach_secret_env
selected_keys = refl

-- Attaching twice adds one reference.
attached_twice :
    attach_config_map_env (text "cm") [] [] (attach_config_map_env (text "cm") [] [] web)
    ≡ attach_config_map_env (text "cm") [] [] web
unfolding attach_config_map_env
attached_twice = refl

-- A variable that attaching replaced does not come back.
replaced_variable :
    (detach_secret_env (text "db") (attach_secret_env (text "db") (text "PORT" ∷ []) [] web)).env
    ≡ []
unfolding attach_secret_env detach_secret_env
replaced_variable = refl

web-IsDetached : IsDetached secret (text "db") web
unfolding env_refers
web-IsDetached = record { env_from = tt; env = (refl, tt) }

web-IsFree :
    IsFree secret (text "db") (trim_space (text "DB_")) (normalize_attachment_keys keys) web
unfolding trim_space normalize_attachment_keys same
web-IsFree = ((refl, tt), ((refl, tt), tt))

detach_env-attach_env_example :
    detach_env secret (text "db") (attach_env secret (text "db") keys (text "DB_") web) ≡ web
detach_env-attach_env_example =
    detach_env-attach_env secret (text "db") keys (text "DB_") web web-IsDetached web-IsFree
