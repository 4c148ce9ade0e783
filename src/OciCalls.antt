-- ===== src/OciCalls.antt =====
-- The OCI functions that a direct path load calls, and their errors: src/oci.cpp and src/include/oraduck/oci_api.hpp.
-- What OCI answers is a parameter, which may depend on all calls before and their answers.
use oraduck.Prelude.Int.{ℤ}
use oraduck.Prelude.{
  ℕ, ◌+◌, Bool, true, false, ◌&&◌, ◌||◌, Option, none, some, List, [], ◌∷◌, ◌++◌, ◌==◌,
  if◌then◌else◌, is_empty, Bytes, codes, to_decimal,
}

pub data Handle : Type 0 where
  dirpath_ctx column_array dirpath_stream : Handle
  column : ℕ → Handle

-- OCI_ATTR_...
pub data Attribute : Type 0 where
  name schema_name parallel skipindex_method buf_size num_rows num_cols list_columns data_type
        data_size dateformat row_count col_count :
      Attribute

-- The functions that are called, with the arguments that the program chooses.
pub data OciCall : Type 0 where
  handle_alloc handle_free : Handle → OciCall
  set_text : Handle → Attribute → Bytes → OciCall
  set_number : Handle → Attribute → ℕ → OciCall
  get_number : Handle → Attribute → OciCall
  param_get descriptor_free : ℕ → OciCall
  row_get : ℕ → OciCall
  entry_set : ℕ → ℕ → Option Bytes → ℕ → ℕ → OciCall
  to_stream : ℕ → ℕ → OciCall
  error_get dirpath_prepare load_stream stream_reset dirpath_finish dirpath_abort : OciCall

-- OCI_SUCCESS and the other values of an sword.
pub data Status : Type 0 where
  success success_with_info need_data no_data still_executing invalid_handle continue_ : Status
  other : ℤ → Status

-- The status, and what the out arguments hold: a number, a text with its code, the three arrays of a row.
pub record Reply : Type 0 where
  pub status : Status
  pub number : ℕ
  pub text : Bytes
  pub code : ℕ
  pub row : ℕ × ℕ × ℕ

abbrev pub Trace : Type 0
Trace = List (OciCall × Reply)

abbrev pub Oci : Type 0
Oci = Trace → OciCall → Reply

-- std::to_string of a status.
pub status_text : Status → Bytes
status_text success = codes "0"
status_text success_with_info = codes "1"
status_text need_data = codes "99"
status_text no_data = codes "100"
status_text still_executing = codes "-3123"
status_text invalid_handle = codes "-2"
status_text continue_ = codes "-24200"
status_text (other (ℤ.pos n)) = to_decimal n
status_text (other (ℤ.negsuc n)) = codes "-" ++ to_decimal (n + 1)

pub is_success : Status → Bool
is_success success = true
is_success success_with_info = false
is_success need_data = false
is_success no_data = false
is_success still_executing = false
is_success invalid_handle = false
is_success continue_ = false
is_success (other n) = false

-- CheckOci lets these pass.
unfoldable pub is_ok : Status → Bool
is_ok success = true
is_ok success_with_info = true
is_ok need_data = false
is_ok no_data = false
is_ok still_executing = false
is_ok invalid_handle = false
is_ok continue_ = false
is_ok (other n) = false

-- The text that OciErrorText has for a status before it asks OCI.
pub known_error : Status → Option Bytes
known_error invalid_handle = some (codes "invalid OCI handle")
known_error need_data = some (codes "unexpected OCI_NEED_DATA")
known_error no_data = some (codes "unexpected OCI_NO_DATA")
known_error still_executing = some (codes "unexpected OCI_STILL_EXECUTING")
known_error success = none
known_error success_with_info = none
known_error continue_ = none
known_error (other n) = none

-- Without the line ends and the spaces at the end.
pub trim_end : Bytes → Bytes
trim_end [] = []
trim_end (c ∷ s) =
    let rest = trim_end s in if is_empty rest && ((c == 10) || (c == b' ')) then [] else c ∷ rest

-- The text and the code that OCIErrorGet gave.
pub error_reply : Status → Reply → Bytes × ℕ
error_reply status reply =
    if is_success reply.status
    then (trim_end reply.text, reply.code)
    else (codes "OCI error " ++ (status_text status ++ codes " (no text available)"), 0)

-- Opens what stands here.
unfoldable pub oci_calls : Unit {0}
unfolding status_text is_success is_ok known_error trim_end error_reply
oci_calls = tt
