-- ===== src/Runtime/Evaluate/Threads.antt =====
-- The hits of eval_breakpoints, in one thread and in two.
use hgdb.Prelude.{ℕ, ◌≡◌, Bool, Option, none, some, ◌>>=◌, List, ◌++◌, length}
use hgdb.Runtime.{Debugger}
use hgdb.Runtime.Evaluate.{Parts}

-- A result, where there is one, with so many hits.
abbrev Sized : ℕ → Option (List Bool × Debugger) → Type 0
Sized n none = Unit
Sized n (some (hits, d)) = length hits ≡ n

abbrev BothSized : ℕ → ℕ → Parts → Type 0
BothSized n m none = Unit
BothSized n m (some ((hits, more), d)) = (length hits ≡ n) × (length more ≡ m)

-- The two parts of the vector.
abbrev joined : Parts → Option (List Bool × Debugger)
joined parts = parts >>= λ ((hits, more), d). some (hits ++ more, d)
