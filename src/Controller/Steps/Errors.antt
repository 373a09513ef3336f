-- ===== src/Controller/Steps/Errors.antt =====
-- What a configuration that cannot be rendered leaves behind, in the reconcilers of the components.
use kea_dhcp_operator.Controller.Conditions.{find_condition, merged, find_condition-set_condition}
use kea_dhcp_operator.Controller.Status.{is_ready_status}
use kea_dhcp_operator.Controller.Client.{OwnerApi, ◌>>◌, failed}
use kea_dhcp_operator.Controller.Steps.{
  render_error, render_failed, passed_over, ComponentStatus, update_status, State,
}
use kea_dhcp_operator.Base.{String, ◌≡◌, false, some, ◌<>◌, refl}

-- The status after the error: the umbrella controller reads the component as not ready, and the
-- condition on the configuration has the error as its message.
pub is_ready_status-render_error :
    (now e : String) (st : ComponentStatus)
    → (is_ready_status (render_error now e st) ≡ false)
      × (find_condition "ConfigurationValid" (render_error now e st).conditions
          ≡ some (
              merged now "ConfigurationValid" "False" "RenderError" e
                (find_condition "ConfigurationValid" st.conditions)))
unfolding render_error is_ready_status
is_ready_status-render_error now e st = (
  refl,
  find_condition-set_condition now "ConfigurationValid" "False" "RenderError" e _ st.conditions,
)

module _ {Objects Owners Owner Status : Type 0} (api : OwnerApi Owners Owner Status) where
  pub render_failed_lem :
      (server : Owner) (status : Status) (e : String) (w : State Objects Owners)
      → render_failed api server status e w ≡ (
        failed ("rendering config: " <> e),
        record w { owners = (api.update_status server status w.owners).1 },
      )
  unfolding render_failed passed_over update_status ◌>>◌
  render_failed_lem server status e w = refl
