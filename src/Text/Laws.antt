-- ===== src/Text/Laws.antt =====
-- Laws of the text functions.

use text.Mathlib.TextLemmas.{nil-append, cons-append}
use Prim.Native.Char.{code}
use pzsvc_exec.Prelude.{String, ◌<>◌, none, some, [], ◌∷◌, ◌≡◌, refl, ap, ◌++◌, arith}
use pzsvc_exec.Text.{cut, split_two, codes}

-- The first colon after a text that has none.
pub cut-append : (a b : String) → cut ":" a ≡ none → cut ":" (a <> ":" <> b) ≡ some (a, b)
unfolding cut
cut-append String.[] b h = rw (nil-append, cons-append, nil-append) refl
cut-append (String.◌∷◌ c a) b h = rw cons-append (ground (arith, cut-append a b))

-- A file name without a colon is split off at the colon that follows it.
pub split_two-append :
    (a b : String) → cut ":" a ≡ none → split_two (a <> ":" <> b) ":" ≡ a ∷ b ∷ []
unfolding split_two
split_two-append a b h = rw (cut-append a b h, split_two)

-- The code points of two texts in a row.
pub codes-append : (a b : String) → codes (a <> b) ≡ codes a ++ codes b
codes-append String.[] b = rw nil-append refl
codes-append (String.◌∷◌ c a) b = rw cons-append (ap (λ l. code c ∷ l) (codes-append a b))
