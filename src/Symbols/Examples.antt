-- ===== src/Symbols/Examples.antt =====
-- The theorems on names at concrete names.
use hgdb.Prelude.{codes, ◌≡◌, ◌↔◌, true}
use hgdb.Util.{get_tokens}
use hgdb.Symbols.{rtl_equivalent}
use hgdb.Symbols.Scopes.{rtl_equivalent-get_tokens}

rtl_equivalent-get_tokens_example :
    (rtl_equivalent (codes "a[0].b") (codes "a.0.b") ≡ true)
    ↔ (get_tokens (codes "a[0].b") (codes "[].") ≡ get_tokens (codes "a.0.b") (codes "[]."))
rtl_equivalent-get_tokens_example = rtl_equivalent-get_tokens (codes "a[0].b") (codes "a.0.b")
