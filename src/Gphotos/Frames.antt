-- ===== src/Gphotos/Frames.antt =====
-- internal/gphotos/batchexecute.go: the frames of an answer. encoding/json is a parameter, `parse`.
use gpb.Gphotos.Json.{Json, null, string}
use gpb.Common.{
  ℕ, zero, suc, ◌||◌, not, Option, none, some, List, [], ◌∷◌, String, ◌==◌, string_eq,
  if◌then◌else◌,
}

pub record Frame : Type 0 where
  pub tag : String
  pub rpc_id : String
  pub payload : String

-- json.Unmarshal into a string, which leaves its zero value at a null.
abbrev pub string_in : Json → Option String
string_in (string value) = some value
string_in null = some ""
string_in _ = none

abbrev pub field_at : List Json → ℕ → Option Json
field_at [] index = none
field_at (field ∷ row) zero = some field
field_at (field ∷ row) (suc index) = field_at row index

abbrev pub string_or_empty : Option String → String
string_or_empty none = ""
string_or_empty (some value) = value

abbrev pub string_of_field : Option Json → String
string_of_field none = ""
string_of_field (some field) = string_or_empty (string_in field)

unfoldable pub optional_string : List Json → ℕ → String
optional_string row index = string_of_field (field_at row index)

abbrev pub frame_with : List Json → Option String → List Frame → List Frame
frame_with row none rest = rest
frame_with row (some tag) rest =
    record { tag = tag; rpc_id = optional_string row 1; payload = optional_string row 2 } ∷ rest

unfoldable pub frames_from_rows : List (List Json) → List Frame
unfolding optional_string
frames_from_rows [] = []
frames_from_rows ([] ∷ rows) = frames_from_rows rows
frames_from_rows ((field ∷ row) ∷ rows) =
    frame_with (field ∷ row) (string_in field) (frames_from_rows rows)

-- The two errors of payloadFor: a payload that is not JSON, and no frame for the rpc.
pub data Payload : Type 0 where
  payload_is : Json → Payload
  not_json no_frame : Payload

abbrev pub payload_or_error : Option Json → Payload
payload_or_error none = not_json
payload_or_error (some payload) = payload_is payload

unfoldable pub payload_for : (String → Option Json) → List Frame → String → Payload
payload_for parse [] rpc_id = no_frame
payload_for parse (candidate ∷ frames) rpc_id =
    let rest = payload_for parse frames rpc_id in
    if not (candidate.rpc_id == rpc_id) || candidate.payload == ""
    then rest
    else payload_or_error (parse candidate.payload)
