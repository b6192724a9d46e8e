-- ===== src/Util.antt =====
-- src/util.cc and src/util.hh: splitting a text into tokens, and joining tokens.
pub mod Tokens
pub mod Numbers
mod Examples
use hgdb.Prelude.{Text, Bool, not, if◌then◌else◌, List, [], ◌∷◌, ◌++◌, is_empty}
use hgdb.Prelude.Maps.{contains, nat_key}

-- The loop of get_tokens. `token` is line.substr(prev, pos - prev) as far as it has been read; a
-- delimiter ends it, and it is kept if pos > prev.
unfoldable pub scan_tokens : Text → Text → Text → List Text
scan_tokens delimiter token [] = if is_empty token then [] else token ∷ []
scan_tokens delimiter token (c ∷ rest) =
    let ended = scan_tokens delimiter [] rest in
    let longer = scan_tokens delimiter (token ++ c ∷ []) rest in
    if contains c delimiter then (if is_empty token then ended else token ∷ ended) else longer

-- The second loop: empty tokens are dropped.
unfoldable pub remove_empty : List Text → List Text
remove_empty [] = []
remove_empty (t ∷ ts) = if not (is_empty t) then t ∷ remove_empty ts else remove_empty ts

unfoldable pub get_tokens : Text → Text → List Text
unfolding scan_tokens remove_empty contains
get_tokens line delimiter = remove_empty (scan_tokens delimiter [] line)

-- The loop of join after the first element.
unfoldable pub join_rest : List Text → Text → Text
join_rest [] sep = []
join_rest (t ∷ ts) sep = sep ++ (t ++ join_rest ts sep)

-- join dereferences its first iterator, so that the list must not be empty.
unfoldable pub join : Text → List Text → Text → Text
unfolding join_rest
join first others sep = first ++ join_rest others sep
