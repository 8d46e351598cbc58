-- ===== src/Maintenance.antt =====
-- Maintenance mode of the control plane (internal/service/maintenance.go).
use kube_op.Prelude.{Bool, ◌++◌, Option, none, some, length, ltb, if◌then◌else◌, Result, ok, err}
use kube_op.Text.{Text, text, is_empty, trim_space}

-- `store.MaintenanceState` without the time of the change.
pub record MaintenanceState : Type 0 where
  pub enabled : Bool
  pub message : Text
  pub updated_by : Text

-- `MaintenanceUpdateInput`
pub record MaintenanceUpdateInput : Type 0 where
  pub enabled : Bool
  pub message : Text

pub data MaintenanceFailure : Type 0 where
  load_failed store_failed message_too_long : MaintenanceFailure
  maintenance_enabled : Text → MaintenanceFailure

-- `MaintenanceError.Error`
unfoldable pub maintenance_error : Text → Text
unfolding trim_space
maintenance_error message =
    let base = text "maintenance mode enabled" in
    if is_empty (trim_space message) then base else base ++ (text ": " ++ trim_space message)

abbrev pub actor_or_system : Text → Text
actor_or_system actor = if is_empty actor then text "system" else actor

-- `UpdateMaintenanceState`; `store_fails` tells that the store returns an error.
unfoldable pub update_maintenance_state :
    Bool
    → Text
    → MaintenanceUpdateInput
    → MaintenanceState
    → MaintenanceState × Option MaintenanceFailure
unfolding trim_space
update_maintenance_state store_fails actor input state =
    let msg = trim_space input.message in
    if ltb 512 (length msg)
    then (state, some message_too_long)
    else if store_fails
    then (state, some store_failed)
    else (
      record {
        enabled = input.enabled;
        message = msg;
        updated_by = actor_or_system (trim_space actor);
      },
      none,
    )

-- `GetMaintenanceState`
unfoldable pub get_maintenance_state :
    Bool → MaintenanceState → Result MaintenanceFailure MaintenanceState
get_maintenance_state load_fails state = if load_fails then err load_failed else ok state

-- `ensureMaintenanceAllows`; its error is nil where the action may go on.
unfoldable pub ensure_maintenance_allows : Bool → MaintenanceState → Option MaintenanceFailure
ensure_maintenance_allows load_fails state =
    if load_fails
    then some load_failed
    else if state.enabled
    then some (maintenance_enabled state.message)
    else none
