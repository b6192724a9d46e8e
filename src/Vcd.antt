-- ===== src/Vcd.antt =====
-- The VCD parser of tools/vcd/vcd.hh and tools/vcd/vcd.cc: the stream, its tokens, and what the parser
-- tells its callbacks. An input stream that fails for another reason than its end is not modelled.
pub mod Tokens
pub mod Parser
pub mod Values
pub mod Endless
mod Examples
use hgdb.Prelude.{
  Text, codes, ℕ, zero, suc, ◌+◌, ◌-◌, ◌^◌, ◌==◌, Bool, true, false, ◌||◌, if◌then◌else◌, Option,
  none, some, List, [], ◌∷◌, ◌++◌, is_empty,
}

-- The bytes ahead, how many have been read, and eof(), which a read beyond the end sets.
pub record Stream : Type 0 where
  pub ahead : Text
  pub position : ℕ
  pub at_end : Bool

-- tellg(), as an unsigned number: it is -1 behind a read beyond the end.
abbrev pub tellg : Stream → ℕ
tellg s = if s.at_end then 2 ^ 64 - 1 else s.position

abbrev pub is_blank : ℕ → Bool
is_blank c = c == b' ' || (c == 9 || (c == 13 || (c == 10 || c == 12)))

-- The loop of next_token; `token` is what has been read of it. A read beyond the end leaves the zero
-- byte in `c`, which goes to the token like any other.
unfoldable pub read_token : Text → Text → ℕ → Text × Stream
read_token token [] position =
    (token ++ 0 ∷ [], record { ahead = []; position = position; at_end = true })
read_token token (c ∷ rest) position =
    let skipped = read_token token rest (suc position) in
    let longer = read_token (token ++ c ∷ []) rest (suc position) in
    let ended : Text × Stream =
      (token, record { ahead = rest; position = suc position; at_end = false }) in
    if is_blank c then (if is_empty token then skipped else ended) else longer

unfoldable pub next_token : Stream → Text × Stream
unfolding read_token
next_token s = if s.at_end then ([], s) else read_token [] s.ahead s.position

pub data MetaType : Type 0 where
  date version timescale comment : MetaType

-- A call of one of the parser's callbacks; the last two numbers are the start and the end position.
pub data Event : Type 0 where
  meta_info : MetaType → Text → ℕ → ℕ → Event
  enter_scope : Text → Text → ℕ → ℕ → Event
  exit_scope : Event
  var_def : Text → ℕ → Text → Text → Text → ℕ → ℕ → Event
  definition_finished : Event
  time_change : ℕ → Event
  value_change : ℕ → Text → Text → Bool → ℕ → ℕ → Event
  dump_var_action : Text → Event

-- `events` are the calls so far, the last one first.
pub record VcdParser : Type 0 where
  pub filename : Text
  pub stream : Stream
  pub events : List Event
  pub error_message : Text
  pub has_error : Bool
