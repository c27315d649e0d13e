-- ===== src/Protocol/Tool.antt =====
-- protocol/src/tool_v1.rs: the approval of a tool's permission prompt, over JSON values with the
-- members of an object in the order of the text. `serde_json`'s parser is a parameter.
pub mod Request
pub mod Decide
pub mod Strict
pub mod CrossOrigin
pub mod Decided
use oshioki.Base.{
  ℕ, Bool, true, false, not, ◌||◌, ◌&&◌, Option, none, some, List, [], ◌∷◌, String, any, ◌==◌,
  text_has_eq, if◌then◌else◌,
}
use oshioki.Base.Result.{Result, ok, refuse, ok_or, ◌>>=◌, ◌>>◌}
use oshioki.Protocol.Error.{Error, invalid_request}
use oshioki.Protocol.External.{Bytes, ClientData}

-- `serde_json::Value`, and the texts it is read from; a number keeps its token.
mutual
  pub data Json : Type 0 where
    null : Json
    boolean : Bool → Json
    number : String → Json
    string : String → Json
    array : Items → Json
    object : Members → Json

  pub data Items : Type 0 where
    nil : Items
    item : Json → Items → Items

  pub data Members : Type 0 where
    end : Members
    member : String → Json → Members → Members

-- `StrictValueVisitor`: every object's keys are new when they are read. `seen` is the set in
-- `visit_map`.
unfoldable mutual
  pub is_strict : Json → Bool
  is_strict (array vs) = are_strict vs
  is_strict (object ms) = are_strict_members [] ms
  is_strict _ = true

  pub are_strict : Items → Bool
  are_strict nil = true
  are_strict (item v vs) = is_strict v && are_strict vs

  pub are_strict_members : (seen : List String) → Members → Bool
  are_strict_members seen end = true
  are_strict_members seen (member k v ms) =
      not (any (λ s. s == k) seen) && is_strict v && are_strict_members (k ∷ seen) ms

-- `Value::get` of an object's member; a strict object has one at most.
abbrev pub get_member : String → Members → Option Json
get_member key end = none
get_member key (member k v ms) = if k == key then some v else get_member key ms

abbrev pub get : String → Json → Option Json
get key (object ms) = get_member key ms
get key _ = none

-- `and_then(Value::as_str)`
abbrev pub as_text : Option Json → Option String
as_text (some (string s)) = some s
as_text _ = none

-- `context_matches`
abbrev pub context_matches : Json → (key : String) → (expected : Option String) → Bool
context_matches event key none = elim (get key event) [
  | none ↦ true
  | some null ↦ true
  | some _ ↦ false
]
context_matches event key (some expected) = elim (get key event) [
  | some (string actual) ↦ actual == expected
  | _ ↦ false
]

-- `from_slice` parses the whole text, and leaves repeated keys in place.
unfoldable pub strict_json_value : (from_slice : Bytes → Option Json) → Bytes → Result Error Json
strict_json_value from_slice raw = do
  value ← ok_or (from_slice raw) invalid_request
  refuse (not (is_strict value)) invalid_request
  ok value

abbrev bool_field : Option Json → Option Bool
bool_field none = some false
bool_field (some (boolean b)) = some b
bool_field (some _) = none

abbrev client_data : Option String → Option String → Option String → Option Bool → Option ClientData
client_data (some type_) (some challenge) (some origin) (some cross_origin) =
    some (record {
      type_ = type_;
      challenge = challenge;
      origin = origin;
      cross_origin = cross_origin;
    })
client_data _ _ _ _ = none

-- `serde_json::from_value` at this file's `ClientData`, whose flag is read from `cross_origin`: the
-- other three structs of that name rename it to `crossOrigin`. An array gives the fields in order.
unfoldable pub client_data_from_value : Json → Option ClientData
client_data_from_value (object ms) =
    client_data (as_text (get_member "type" ms)) (as_text (get_member "challenge" ms))
      (as_text (get_member "origin" ms)) (bool_field (get_member "cross_origin" ms))
client_data_from_value (array (item t (item c (item o nil)))) =
    client_data (as_text (some t)) (as_text (some c)) (as_text (some o)) (some false)
client_data_from_value (array (item t (item c (item o (item x nil))))) =
    client_data (as_text (some t)) (as_text (some c)) (as_text (some o)) (bool_field (some x))
client_data_from_value _ = none
