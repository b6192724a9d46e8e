-- ===== src/Monitor/Delay.antt =====
-- The buffer of a delayed variable.
use hgdb.Prelude.{
  ℕ, zero, suc, ◌+◌, ◌-◌, ◌<◌, ◌≤◌, ltb, ◌==◌, ◌≡◌, refl, ap, sym, ◌∙◌, Bool, true, false, not,
  if◌then◌else◌, Option, none, some, List, [], ◌∷◌, ◌++◌, length, length-append, get_elem?, drop,
  append_assoc, append-nil, arith,
}
use hgdb.Prelude.Int.{ℤ}
use hgdb.Monitor.{push_value, front_value}

-- The values that are left after a series of set_value, from an empty buffer or one with `before`.
abbrev pub feed : ℕ → List (Option ℤ) → List (Option ℤ) → List (Option ℤ)
feed depth before [] = before
feed depth before (v ∷ vs) = feed depth (push_value depth v before) vs

abbrev pub last_values : ℕ → List (Option ℤ) → List (Option ℤ)
last_values depth vs = drop (length vs - depth) vs

drop-append :
    (k : ℕ) (xs ys : List (Option ℤ)) → k ≤ length xs → drop k (xs ++ ys) ≡ drop k xs ++ ys
drop-append zero xs ys h = refl
drop-append (suc k) [] ys h = absurd (omega arith)
drop-append (suc k) (x ∷ xs) ys h = drop-append k xs ys (omega arith)

drop_one : (k : ℕ) (xs : List (Option ℤ)) → drop 1 (drop k xs) ≡ drop (suc k) xs
drop_one zero [] = refl
drop_one zero (x ∷ xs) = refl
drop_one (suc k) [] = refl
drop_one (suc k) (x ∷ xs) = drop_one k xs

length-drop : (k : ℕ) (xs : List (Option ℤ)) → length (drop k xs) ≡ length xs - k
length-drop zero xs = omega arith
length-drop (suc k) [] = omega arith
length-drop (suc k) (x ∷ xs) = omega (arith, length-drop k xs)

drop_nil : (k : ℕ) → drop {A = Option ℤ} k [] ≡ []
drop_nil zero = refl
drop_nil (suc k) = refl

get_elem?-drop : (k : ℕ) (xs : List (Option ℤ)) → get_elem? (drop k xs) 0 ≡ get_elem? xs k
get_elem?-drop zero xs = refl
get_elem?-drop (suc k) [] = refl
get_elem?-drop (suc k) (x ∷ xs) = get_elem?-drop k xs

ltb_lt : (a b : ℕ) → ltb a b ≡ true → a < b
ltb_lt a b h = ground arith

ltb_le : (a b : ℕ) → ltb a b ≡ false → b ≤ a
ltb_le a b h = ground arith

is_full : (n depth m : ℕ) → m ≡ n - (n - depth) → (m == depth) ≡ not (ltb n depth)
is_full n depth m e = ground arith

if-not {ℓ} : {A : Type ℓ} (b : Bool) (x y : A) → (if not b then y else x) ≡ (if b then x else y)
if-not true x y = refl
if-not false x y = refl

grown_length :
    (k : ℕ) (xs : List (Option ℤ)) (v : Option ℤ) → length (drop k xs ++ v ∷ []) ≡ length xs - k + 1
grown_length k xs v = length-append (drop k xs) (v ∷ []) ∙ ap (λ n. n + 1) (length-drop k xs)

grown_index :
    (depth k : ℕ) (xs : List (Option ℤ)) (v : Option ℤ)
    → k ≡ length xs - depth
    → depth < length (drop k xs ++ v ∷ [])
    → suc k ≡ length (xs ++ v ∷ []) - depth
grown_index depth k xs v e h = omega (arith, grown_length k xs v, length-append xs (v ∷ []), e, h)

kept_index :
    (depth k : ℕ) (xs : List (Option ℤ)) (v : Option ℤ)
    → k ≡ length xs - depth
    → length (drop k xs ++ v ∷ []) ≤ depth
    → k ≡ length (xs ++ v ∷ []) - depth
kept_index depth k xs v e h = omega (arith, grown_length k xs v, length-append xs (v ∷ []), e, h)

grow_lem :
    (depth k : ℕ) (xs : List (Option ℤ)) (v : Option ℤ) (c : Bool)
    → k ≡ length xs - depth
    → ltb depth (length (drop k xs ++ v ∷ [])) ≡ c
    → (if c then drop 1 (drop k xs ++ v ∷ []) else drop k xs ++ v ∷ [])
      ≡ drop (length (xs ++ v ∷ []) - depth) (xs ++ v ∷ [])
grow_lem depth k xs v true e h =
    ap (drop 1) (sym (drop-append k xs (v ∷ []) (omega arith)))
    ∙ drop_one k (xs ++ v ∷ [])
    ∙ ap (λ n. drop n (xs ++ v ∷ [])) (grown_index depth k xs v e (ltb_lt _ _ h))
grow_lem depth k xs v false e h =
    sym (drop-append k xs (v ∷ []) (omega arith))
    ∙ ap (λ n. drop n (xs ++ v ∷ [])) (kept_index depth k xs v e (ltb_le _ _ h))

push_value-last_values :
    (depth : ℕ) (v : Option ℤ) (xs : List (Option ℤ))
    → push_value depth v (last_values depth xs) ≡ last_values depth (xs ++ v ∷ [])
unfolding push_value
push_value-last_values depth v xs = grow_lem depth (length xs - depth) xs v _ refl refl

feed-last_values :
    (depth : ℕ) (before vs : List (Option ℤ))
    → feed depth (last_values depth before) vs ≡ last_values depth (before ++ vs)
feed-last_values depth before [] = rw append-nil
feed-last_values depth before (v ∷ vs) =
    ap (λ b. feed depth b vs) (push_value-last_values depth v before)
    ∙ feed-last_values depth (before ++ v ∷ []) vs
    ∙ ap (last_values depth) (append_assoc before (v ∷ []) vs)

feed_from_empty : (depth : ℕ) (vs : List (Option ℤ)) → feed depth [] vs ≡ last_values depth vs
feed_from_empty depth vs =
    ap (λ b. feed depth b vs) (sym (drop_nil (0 - depth))) ∙ feed-last_values depth [] vs

front_value-last_values :
    (depth : ℕ) (vs : List (Option ℤ))
    → front_value depth (last_values depth vs)
      ≡ (if ltb (length vs) depth then some none else get_elem? vs (length vs - depth))
unfolding front_value
front_value-last_values depth vs =
    rw
      (
        is_full (length vs) depth (length (last_values depth vs))
            (length-drop (length vs - depth) vs),
        get_elem?-drop (length vs - depth) vs,
      )
      (if-not (ltb (length vs) depth) _ _)

-- A buffer that began empty holds the last values that were set, as many as its depth; and its
-- get_value is the empty value while fewer than `depth` were set, and from then on the value that was
-- set `depth - 1` times before the last one (for a depth of 0, the front of an empty queue).
pub front_value-feed :
    (depth : ℕ) (vs : List (Option ℤ))
    → (feed depth [] vs ≡ last_values depth vs)
      × (front_value depth (feed depth [] vs)
          ≡ (if ltb (length vs) depth then some none else get_elem? vs (length vs - depth)))
unfolding front_value
front_value-feed depth vs =
    let held = feed_from_empty depth vs in
    (held, ap (front_value depth) held ∙ front_value-last_values depth vs)
