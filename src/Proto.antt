-- ===== src/Proto.antt =====
-- The protocol of src/proto.hh and src/proto.cc: the members of a document, which check_member and
-- get_member read. The library rapidjson parses the document; what its Is... and Get... answer on a value
-- is a Member here.
pub mod Breakpoints
pub mod Commands
pub mod Values
pub mod Data
pub mod Requests
pub mod Symbols
pub mod Rows
pub mod Results
pub mod Trip
mod Examples
use hgdb.Prelude.{
  ◌==◌, Text, codes, ℕ, Bool, true, false, if◌then◌else◌, Option, none, some, List, [], ◌∷◌, ◌++◌,
}
use hgdb.Prelude.Int.{ℤ}
use hgdb.Prelude.Maps.{lookup, contains_key, emplace, text_key}

-- Get of the types that are read, and IsInt64.
pub record Number : Type 0 where
  pub is_int64 : Bool
  pub int64 : ℤ
  pub uint64 : ℕ
  pub uint32 : ℕ

-- A text as a C string, which ends before its first NUL.
unfoldable pub c_str : Text → Text
c_str [] = []
c_str (c ∷ s) = let rest = c_str s in if c == 0 then [] else c ∷ rest

-- A string is the C string that GetString gives, without a NUL. Of the values of an object only the
-- strings are read; none is a value of another type.
pub data Member : Type 0 where
  string : Text → Member
  number : Number → Member
  boolean : Bool → Member
  object : List (Text × Option Text) → Member
  other : Member

abbrev pub Document : Type 0
Document = List (Text × Member)

-- Parse: HasMember asserts that the value is an object.
pub data Parsed : Type 0 where
  parse_error : Parsed
  no_object : Parsed
  document : Document → Parsed

-- A payload that was read, with what is left in error_reason_; one with the status error, of which
-- only the reason is used; and undefined behaviour.
pub data Read {ℓ} (A : Type ℓ) : Type ℓ where
  read : A → Text → Read A
  failed : Text → Read A
  undefined : Read A

abbrev pub unable_to_find : Text → Text
unable_to_find member_name = codes "Unable to find member " ++ member_name

abbrev pub invalid_type : Text → Text
invalid_type member_name = codes "Invalid type for " ++ member_name

unfoldable pub check_member : Document → Text → Text → Bool → Bool × Text
unfolding contains_key
check_member d member_name error set_error =
    if contains_key member_name d
    then (true, error)
    else (false, (if set_error then unable_to_find member_name else error))

-- get_member, where every call checks the type; the value or nothing, and the error.
unfoldable pub get_member {ℓ} :
    {A : Type ℓ}
    → (Text → Text → Member → Option A × Text)
    → Document
    → Text
    → Text
    → Bool
    → Option A × Text
unfolding lookup
get_member of_type d member_name error set_error = elim (lookup member_name d) [
  | none ↦ (none, (if set_error then unable_to_find member_name else error))
  | some value ↦ of_type member_name error value
]

abbrev pub string_of : Text → Text → Member → Option Text × Text
string_of member_name error (string s) = (some s, error)
string_of member_name error _ = (none, invalid_type member_name)

abbrev pub uint64_of : Text → Text → Member → Option ℕ × Text
uint64_of member_name error (number n) = (some n.uint64, error)
uint64_of member_name error _ = (none, invalid_type member_name)

abbrev pub uint32_of : Text → Text → Member → Option ℕ × Text
uint32_of member_name error (number n) = (some n.uint32, error)
uint32_of member_name error _ = (none, invalid_type member_name)

abbrev pub int64_of : Text → Text → Member → Option ℤ × Text
int64_of member_name error (number n) = (some n.int64, error)
int64_of member_name error _ = (none, invalid_type member_name)

abbrev pub bool_of : Text → Text → Member → Option Bool × Text
bool_of member_name error (boolean b) = (some b, error)
bool_of member_name error _ = (none, invalid_type member_name)

-- The values of a map; none where one is no string.
unfoldable pub string_values :
    List (Text × Option Text) → List (Text × Text) → Option (List (Text × Text))
unfolding emplace c_str
string_values [] result = some result
string_values ((key, none) ∷ members) result = none
string_values ((key, some value) ∷ members) result =
    string_values members (emplace (c_str key) value result)

unfoldable pub map_of : Text → Text → Member → Option (List (Text × Text)) × Text
unfolding string_values
map_of member_name error (object members) = elim (string_values members []) [
  | none ↦ (none, codes "Invalid type for member " ++ member_name)
  | some result ↦ (some result, error)
]
map_of member_name error _ = (none, invalid_type member_name)

-- The early return on a member that is not there.
abbrev pub require {ℓ κ} :
    {A : Type ℓ} {B : Type κ} → Option A × Text → (A → Text → Read B) → Read B
require (none, error) next = failed error
require (some a, error) next = next a error

abbrev pub required {ℓ κ} :
    {A : Type ℓ} {B : Type κ}
    → (Text → Text → Member → Option A × Text)
    → Document
    → Text
    → Text
    → (A → Text → Read B)
    → Read B
unfolding get_member
required of_type d member_name error next =
    require (get_member of_type d member_name error true) next
