-- ===== src/Scheduler/Next/Twins.antt =====
-- The tests of scan_breakpoints, and what they look for.
use hgdb.Prelude.{
  ◌≡◌, refl, Bool, true, false, ==_iff, text_eq_iff, &&_true, &&_intro, not, ◌==◌, ◌↔◌, ◌≢◌, sym,
  ◌∙◌,
}
use hgdb.Prelude.Maps.{nat_key}
use hgdb.Scheduler.{DebugBreakPoint, is_kind, data_}
use hgdb.Scheduler.Next.{same_place, joins}

-- A breakpoint at the file, line and column of another.
abbrev pub AtPlace : DebugBreakPoint → DebugBreakPoint → Type 0
AtPlace ref b =
    (b.line_num ≡ ref.line_num) × (b.filename ≡ ref.filename) × (b.column_num ≡ ref.column_num)

-- A breakpoint that is evaluated together with another: it stands at the same place, is not a mere
-- data breakpoint, and has another instance and the same enable condition.
abbrev pub IsTwin : DebugBreakPoint → DebugBreakPoint → Type 0
IsTwin ref b =
    AtPlace ref b
    × (is_kind data_ b.type ≡ false)
    × (b.instance_id ≢ ref.instance_id)
    × (b.enable_expr.expression ≡ ref.enable_expr.expression)

pub same_place_iff : (ref b : DebugBreakPoint) → (same_place b ref ≡ true) ↔ AtPlace ref b
same_place_iff ref b = (forth, back)
  where
    forth : same_place b ref ≡ true → AtPlace ref b
    forth h =
        let (line, rest) = &&_true _ _ h in
        let (file, column) = &&_true _ _ rest in
        ((==_iff _ _).0 line, (text_eq_iff _ _).0 file, (==_iff _ _).0 column)

    back : AtPlace ref b → same_place b ref ≡ true
    back (line, file, column) =
        &&_intro _ _ ((==_iff _ _).1 line)
          (&&_intro _ _ ((text_eq_iff _ _).1 file) ((==_iff _ _).1 column))

not-true : (b : Bool) → not b ≡ true → b ≡ false
not-true true h = cc
not-true false h = refl

not-false : (b : Bool) → b ≡ false → not b ≡ true
not-false true h = cc
not-false false h = refl

pub joins-IsTwin :
    (ref b : DebugBreakPoint) → same_place b ref ≡ true → joins ref b ≡ true → IsTwin ref b
joins-IsTwin ref b at h =
    let (kind, rest) = &&_true _ _ h in
    let (other, text) = &&_true _ _ rest in
    let apart = not-true (b.instance_id == ref.instance_id) other in
    (
      (same_place_iff ref b).0 at,
      not-true _ kind,
      (λ e. true-ne-false (sym ((==_iff _ _).1 e) ∙ apart)),
      (text_eq_iff _ _).0 text,
    )
  where
    true-ne-false : ¬ (true ≡ false)
    true-ne-false e = cc

pub IsTwin-joins : (ref b : DebugBreakPoint) → IsTwin ref b → joins ref b ≡ true
IsTwin-joins ref b (at, kind, apart, text) = &&_intro _ _ (not-false _ kind) (
    &&_intro _ _ (not-false _ (apart_lem (b.instance_id == ref.instance_id) refl))
      ((text_eq_iff _ _).1 text))
  where
    apart_lem :
        (c : Bool)
        → (b.instance_id == ref.instance_id) ≡ c
        → (b.instance_id == ref.instance_id) ≡ false
    apart_lem true e = absurd (apart ((==_iff _ _).0 e))
    apart_lem false e = e
