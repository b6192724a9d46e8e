-- ===== src/Proto/Breakpoints.antt =====
-- The payloads about breakpoints of src/proto.cc: BreakPointRequest, BreakPointIDRequest and
-- BreakPointLocationRequest.
use hgdb.Prelude.{
  Text, codes, ℕ, [], ◌%◌, ◌^◌, Bool, true, false, if◌then◌else◌, Option, none, some, text_eq,
}
use hgdb.Interfaces.{BreakPoint}
use hgdb.Proto.{
  Document, Read, read, failed, undefined, get_member, require, required, string_of, uint64_of,
}

pub data Action : Type 0 where
  add remove : Action

pub record BreakPointRequest : Type 0 where
  pub bp : BreakPoint
  pub bp_action : Action

abbrev action_of : Text → Option Action
action_of s =
    if text_eq s (codes "add")
    then some add
    else if text_eq s (codes "remove")
    then some remove
    else none

abbrev value_or {ℓ} : {A : Type ℓ} → A → Option A → A
value_or default none = default
value_or default (some a) = a

-- bp_, whose lines and columns have 32 bits.
abbrev bp_of : ℕ → Text → ℕ → ℕ → Text → BreakPoint
bp_of id filename line_num column_num condition = record {
  id = id % 2 ^ 32;
  instance_id = none;
  filename = filename;
  line_num = line_num % 2 ^ 32;
  column_num = column_num % 2 ^ 32;
  condition = condition;
  trigger = [];
}

-- Behind the line: a column and a condition that need not be there.
abbrev with_line : Document → Text → Action → ℕ → Text → Read BreakPointRequest
unfolding get_member
with_line d filename act line_num error =
    let (column_num, e1) = get_member uint64_of d (codes "column_num") error false in
    let (condition, e2) = get_member string_of d (codes "condition") e1 false in
    read
      (record {
        bp = bp_of 0 filename line_num (value_or 0 column_num) (value_or [] condition);
        bp_action = act;
      })
      e2

-- The line that is to be added is taken though it may not be there.
abbrev line_of : Action → Option ℕ → Option ℕ
line_of act (some line_num) = some line_num
line_of add none = none
line_of remove none = some 0

abbrev line_required : Action → Bool
line_required add = true
line_required remove = false

abbrev with_action : Document → Text → Option Action → Text → Read BreakPointRequest
unfolding get_member
with_action d filename none error = failed error
with_action d filename (some act) error =
    let (line_num, e) = get_member uint64_of d (codes "line_num") error (line_required act) in
    elim (line_of act line_num) [ none ↦ undefined | some line ↦ with_line d filename act line e ]

unfoldable pub breakpoint_payload : Document → Read BreakPointRequest
unfolding get_member
breakpoint_payload d =
    let (filename, e1) = get_member string_of d (codes "filename") [] true in
    let (bp_act, e2) = get_member string_of d (codes "action") e1 true in
    require (filename, e2) λ file e3. require (bp_act, e3) λ act. with_action d file (action_of act)

abbrev id_with_action : Document → ℕ → Option Action → Text → Read BreakPointRequest
unfolding get_member
id_with_action d id none error = failed error
id_with_action d id (some act) error =
    let (condition, e) = get_member string_of d (codes "condition") error false in
    read (record { bp = bp_of id [] 0 0 (value_or [] condition); bp_action = act }) e

unfoldable pub breakpoint_id_payload : Document → Read BreakPointRequest
unfolding get_member
breakpoint_id_payload d =
    let (id, e1) = get_member uint64_of d (codes "id") [] true in
    let (bp_act, e2) = get_member string_of d (codes "action") e1 true in
    require (id, e2) λ n e3. require (bp_act, e3) λ act. id_with_action d n (action_of act)

pub record BreakPointLocationRequest : Type 0 where
  pub filename : Text
  pub line_num : Option ℕ
  pub column_num : Option ℕ

unfoldable pub bp_location_payload : Document → Read BreakPointLocationRequest
unfolding get_member
bp_location_payload d = required string_of d (codes "filename") [] λ filename e1.
    let (line_num, e2) = get_member uint64_of d (codes "line_num") e1 true in
    let (column_num, e3) = get_member uint64_of d (codes "column_num") e2 true in
    read (record { filename = filename; line_num = line_num; column_num = column_num }) e3
