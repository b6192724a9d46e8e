-- ===== src/Prelude/Maps.antt =====
-- std::unordered_map and std::unordered_set as association lists, with the standard library's names
-- of the operations that the program calls. Keys are compared by the test of an instance.
use Prim.Native.Nat.{ℕ}
use mathlib.Core.Path.{◌≡◌, refl}
use mathlib.Core.Logic.{◌↔◌, ◌⊎◌, inl, inr}
use mathlib.Core.Bool.{Bool, true, false, ◌||◌, not, ◌&&◌}
use mathlib.Core.Option.{Option, none, some}
use mathlib.Core.List.{List, [], ◌∷◌}
use native.Mathlib.Omega.{arith}
use hgdb.Prelude.Tests.{◌==◌ as nat_eq, ==_iff, if◌then◌else◌}
use hgdb.Prelude.Texts.{Text, text_eq, text_eq_iff}

pub record Key {ℓ} (K : Type ℓ) : Type ℓ where
  pub same : K → K → Bool
  pub same_iff : (a b : K) → (same a b ≡ true) ↔ (a ≡ b)

instance abbrev pub nat_key : Key ℕ
nat_key = record { same = nat_eq; same_iff = ==_iff }

instance abbrev pub text_key : Key Text
text_key = record { same = text_eq; same_iff = text_eq_iff }

module _ {ℓ κ} {K : Type ℓ} {V : Type κ} ⦃k : Key K⦄ where
  -- at, or end() of find.
  unfoldable pub lookup : K → List (K × V) → Option V
  lookup a [] = none
  lookup a ((b, v) ∷ m) = if k.same b a then some v else lookup a m

  unfoldable pub contains_key : K → List (K × V) → Bool
  contains_key a [] = false
  contains_key a ((b, v) ∷ m) = k.same b a || contains_key a m

  -- operator[] on the left of an assignment.
  unfoldable pub assign : K → V → List (K × V) → List (K × V)
  assign a v [] = (a, v) ∷ []
  assign a v ((b, w) ∷ m) = if k.same b a then (b, v) ∷ m else (b, w) ∷ assign a v m

  -- A key that is there keeps its value.
  unfoldable pub emplace : K → V → List (K × V) → List (K × V)
  emplace a v [] = (a, v) ∷ []
  emplace a v ((b, w) ∷ m) = if k.same b a then (b, w) ∷ m else (b, w) ∷ emplace a v m

  unfoldable pub erase_key : K → List (K × V) → List (K × V)
  erase_key a [] = []
  erase_key a ((b, w) ∷ m) = if k.same b a then erase_key a m else (b, w) ∷ erase_key a m

module _ {ℓ κ} {K : Type ℓ} {V : Type κ} ⦃k : Key K⦄ where
  pub lookup-assign :
      (a b : K) (v : V) (m : List (K × V))
      → lookup b (assign a v m) ≡ (if k.same a b then some v else lookup b m)
  unfolding lookup assign
  lookup-assign a b v [] = refl
  lookup-assign a b v ((c, w) ∷ m) =
      ground (arith, k.same_iff a b, k.same_iff c a, k.same_iff c b, lookup-assign a b v m)

  pub lookup-emplace :
      (a b : K) (v : V) (m : List (K × V))
      → lookup a m ≡ none
      → lookup b (emplace a v m) ≡ (if k.same a b then some v else lookup b m)
  unfolding lookup emplace
  lookup-emplace a b v [] h = refl
  lookup-emplace a b v ((c, w) ∷ m) h =
      ground (arith, k.same_iff a b, k.same_iff c a, k.same_iff c b, lookup-emplace a b v m)

  pub lookup-erase_key :
      (a b : K) (m : List (K × V))
      → lookup b (erase_key a m) ≡ (if k.same a b then none else lookup b m)
  unfolding lookup erase_key
  lookup-erase_key a b [] = ground arith
  lookup-erase_key a b ((c, w) ∷ m) =
      ground (arith, k.same_iff a b, k.same_iff c a, k.same_iff c b, lookup-erase_key a b m)

  pub contains_key-lookup :
      (a : K) (m : List (K × V)) → lookup a m ≡ none → contains_key a m ≡ false
  unfolding lookup contains_key
  contains_key-lookup a [] h = refl
  contains_key-lookup a ((b, w) ∷ m) h = ground (arith, contains_key-lookup a m)

-- Sets are lists of keys.
module _ {ℓ} {K : Type ℓ} ⦃k : Key K⦄ where
  unfoldable pub contains : K → List K → Bool
  contains a [] = false
  contains a (b ∷ s) = k.same b a || contains a s

  unfoldable pub insert : K → List K → List K
  unfolding contains
  insert a s = if contains a s then s else a ∷ s

  unfoldable pub erase : K → List K → List K
  erase a [] = []
  erase a (b ∷ s) = if k.same b a then erase a s else b ∷ erase a s

  pub contains-insert :
      (a b : K) (s : List K) → contains b (insert a s) ≡ (k.same a b || contains b s)
  unfolding insert
  contains-insert a b s = elim (cases (contains a s)) [
    | inl h ↦ rw (h, insert) (member h)
    | inr h ↦ rw (h, insert) refl
  ]
    where
      cases : (c : Bool) → (c ≡ true) ⊎ (c ≡ false)
      cases true = inl refl
      cases false = inr refl

      member : contains a s ≡ true → contains b s ≡ (k.same a b || contains b s)
      member h = same_key (k.same a b) refl
        where
          same_key : (c : Bool) → k.same a b ≡ c → contains b s ≡ (c || contains b s)
          same_key true e = rw (← (k.same_iff a b).0 e) h
          same_key false e = refl

  pub contains-erase :
      (a b : K) (s : List K) → contains b (erase a s) ≡ (not (k.same a b) && contains b s)
  unfolding contains erase
  contains-erase a b [] = ground arith
  contains-erase a b (c ∷ s) =
      ground (arith, k.same_iff a b, k.same_iff c a, k.same_iff c b, contains-erase a b s)
