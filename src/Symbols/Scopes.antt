-- ===== src/Symbols/Scopes.antt =====
-- Which variable of a scope a name stands for.
use hgdb.Prelude.{
  Text, codes, ◌≡◌, ◌↔◌, refl, true, &&_true, &&_intro, List, [], ◌∷◌, text_eq, text_eq_iff,
}
use hgdb.Util.{get_tokens}
use hgdb.Symbols.{same_tokens, rtl_equivalent}

same_tokens-eq : (xs ys : List Text) → same_tokens xs ys ≡ true → xs ≡ ys
unfolding same_tokens
same_tokens-eq [] [] h = refl
same_tokens-eq [] (b ∷ ys) h = cc
same_tokens-eq (a ∷ xs) [] h = cc
same_tokens-eq (a ∷ xs) (b ∷ ys) h =
    let (p, q) = &&_true (text_eq a b) (same_tokens xs ys) h in
    let e : a ≡ b = (text_eq_iff a b).0 p in let f : xs ≡ ys = same_tokens-eq xs ys q in cc

same_tokens_refl : (xs : List Text) → same_tokens xs xs ≡ true
unfolding same_tokens
same_tokens_refl [] = refl
same_tokens_refl (a ∷ xs) = &&_intro _ _ ((text_eq_iff a a).1 refl) (same_tokens_refl xs)

-- Two names are equivalent exactly if they have the same tokens between dots and square brackets.
pub rtl_equivalent-get_tokens :
    (a b : Text)
    → (rtl_equivalent a b ≡ true) ↔ (get_tokens a (codes "[].") ≡ get_tokens b (codes "[]."))
unfolding rtl_equivalent
rtl_equivalent-get_tokens a b =
    let xs = get_tokens a (codes "[].") in
    let ys = get_tokens b (codes "[].") in (same_tokens-eq xs ys, λ e. rw e (same_tokens_refl ys))
