-- ===== src/MqttApi/Responses.antt =====
-- src/mqtt_api.rs: the texts and the data of the responses. A text is the list of its code points, and of
-- serde_json's values there are those that the code builds.
use rinklers.Prelude.{ℕ, Option, none, some, List, ◌++◌, Bool, true, false}
use rinklers.Util.Durations.{to_string}
use rinklers.MqttApi.{
  Payloads, Message, setting_state, running, ApiError, invalid_path, invalid_payload_utf8,
  invalid_payload_json, section_not_found, Reply, accepted, rejected, number, as_code,
}
use rinklers.MqttApi.Index.{codes}

pub data JsonValue : Type 0 where
  null : JsonValue
  string : List ℕ → JsonValue

pub record ApiResponse : Type 0 where
  pub message : List ℕ
  pub data' : JsonValue

pub record ApiResponseData : Type 0 where
  pub message : List ℕ
  pub code : ℕ
  pub data' : JsonValue

-- `ApiResponseData::new`
abbrev pub new_response_data : List ℕ → ℕ → JsonValue → ApiResponseData
new_response_data message code data' = record { message = message; code = code; data' = data' }

-- the text of a Boolean value
abbrev pub bool_text : Bool → List ℕ
bool_text true = codes "true"
bool_text false = codes "false"

-- the texts of `process_msg`
abbrev pub format_message : Message → List ℕ
format_message (setting_state name b) =
    codes "setting section \"" ++ (codes name ++ (codes "\" state to " ++ bool_text b))
format_message (running name duration) =
    codes "running section \"" ++ (codes name ++ (codes "\" for " ++ duration))

-- `ApiResponse::new`
abbrev pub api_response : (message : List ℕ) → JsonValue → ApiResponse
api_response message data' = record { message = message; data' = data' }

-- `From<ApiResponse>`
abbrev pub from_response : ApiResponse → ApiResponseData
from_response response = new_response_data response.message 1000 response.data'

module _ (p : Payloads) where
  open p use {path, utf8_error_text, json_error_text}

  -- `description` of the errors
  abbrev pub description : ApiError p → List ℕ
  description (invalid_path _) = codes "message received on invalid path"
  description (invalid_payload_utf8 _) = codes "invalid utf8 bytes in payload"
  description (invalid_payload_json _ _) = codes "invalid json in payload"
  description (section_not_found _) = codes "section not found"

  -- `display`, which without one of its own is the description
  abbrev pub display : ApiError p → List ℕ
  display (invalid_path topic) = codes "message received on invalid path: " ++ path topic
  display (invalid_payload_utf8 e) = description (invalid_payload_utf8 e)
  display (invalid_payload_json e method) =
      codes "invalid json in payload for request type " ++ codes method
  display (section_not_found section_idx) =
      description (section_not_found section_idx) ++ (codes ": " ++ to_string section_idx)

  -- the text of `cause`
  abbrev pub cause : ApiError p → Option (List ℕ)
  cause (invalid_path _) = none
  cause (invalid_payload_utf8 e) = some (utf8_error_text e)
  cause (invalid_payload_json e _) = some (json_error_text e)
  cause (section_not_found _) = none

  abbrev pub cause_data : Option (List ℕ) → JsonValue
  cause_data none = null
  cause_data (some text) = string text

  -- `From<ApiError>`
  abbrev pub from_error : ApiError p → ApiResponseData
  from_error error =
      new_response_data (display error) (number (as_code p error)) (cause_data (cause error))

  -- `response_data` in `run_on_client`
  abbrev pub response_data : Reply p → ApiResponseData
  response_data (accepted m) = from_response (api_response (format_message m) null)
  response_data (rejected e) = from_error e
