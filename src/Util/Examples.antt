-- ===== src/Util/Examples.antt =====
-- The theorems on tokens at concrete texts.
use hgdb.Prelude.{codes, ◌≡◌, refl, [], ◌∷◌, All}
use hgdb.Prelude.Maps.{contains, nat_key}
use hgdb.Util.{get_tokens, join}
use hgdb.Util.Tokens.{IsToken, concat, get_tokens-All, concat-get_tokens, get_tokens-join}

get_tokens-All_example : All (IsToken (codes ". ")) (get_tokens (codes "a..b c") (codes ". "))
get_tokens-All_example = get_tokens-All (codes "a..b c") (codes ". ")

concat-get_tokens_example : concat (get_tokens (codes "a..b c") (codes ". ")) ≡ codes "abc"
unfolding contains
concat-get_tokens_example = concat-get_tokens (codes "a..b c") (codes ". ")

get_tokens-join_example :
    get_tokens (join (codes "top") (codes "dut" ∷ []) (codes ".")) (codes ".")
    ≡ codes "top" ∷ codes "dut" ∷ []
unfolding contains
get_tokens-join_example =
    get_tokens-join (codes ".") (codes "top") 46 (codes "dut" ∷ []) refl
      (refl, (refl, (refl, (refl, tt)))) ((refl, (refl, (refl, (refl, tt)))), tt)
