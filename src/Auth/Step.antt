-- ===== src/Auth/Step.antt =====
-- auth.rs: `auth_step_from_data`, which step of the login the server asks for next.
use libreatrust.Base.{
  List, Option, Text, [], codes, head?, if◌then◌else◌, is_empty, none, not, or_else, some, text_eq,
  ◌&&◌, ◌∷◌,
}
use libreatrust.Auth.{
  AuthIdItem, AuthStep, AuthStepData, SmsMode, custom, with_auth_id, without_auth_id,
}

abbrev pub find_item : Text → List AuthIdItem → Option AuthIdItem
find_item service [] = none
find_item service (item ∷ items) =
    if not (is_empty service) && text_eq item.auth_type service
    then some item
    else find_item service items

-- The item for the service, or else the first one.
abbrev pub selected_item : Text → List AuthIdItem → Option AuthIdItem
selected_item service items = or_else (find_item service items) (head? items)

abbrev pub item_id : Option AuthIdItem → Text
item_id none = []
item_id (some item) = item.auth_id

abbrev pub item_type : Option AuthIdItem → Text
item_type none = []
item_type (some item) = item.auth_type

-- The mode of a service with an authentication id.
unfoldable pub mode_of : Text → Text → Option SmsMode
mode_of service auth_id =
    if text_eq service (codes "auth/sms")
    then some (if is_empty auth_id then without_auth_id else with_auth_id)
    else if text_eq service (codes "auth/customSms")
    then some custom
    else none

unfoldable pub auth_step_from_data : AuthStepData → AuthStep
unfolding mode_of
auth_step_from_data step =
    let selected = selected_item step.next_service step.next_service_list in
    let auth_id = item_id selected in
    let named = if is_empty step.next_service then item_type selected else step.next_service in
    let service = if is_empty named && not (is_empty auth_id) then codes "auth/sms" else named in
    record { service = service; auth_id = auth_id; sms_mode = mode_of service auth_id }
