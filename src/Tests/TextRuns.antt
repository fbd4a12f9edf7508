-- ===== src/Tests/TextRuns.antt =====
-- Runs of the text functions.
use pzsvc_exec.Prelude.{true, false, some, [], ◌∷◌, ◌≡◌, refl}
use pzsvc_exec.Prelude.Int.{pos, negsuc}
use pzsvc_exec.Text.{split, trim_space, lower_ext, spells, atoi, decimal, after_last}

test_split : split "a b c" " " ≡ "a" ∷ "b" ∷ "c" ∷ []
unfolding split
test_split = refl

test_trim : trim_space "  a b\n " ≡ "a b"
unfolding trim_space
test_trim = refl

test_ext : spells (lower_ext "/a.b/c.GeoJson") ".geojson" ≡ true
unfolding lower_ext
test_ext = refl

test_atoi :
    (atoi "-120" ≡ (negsuc 119, true))
    × (atoi "12x" ≡ (pos 0, false))
    × (atoi "+7" ≡ (pos 7, true))
    × (atoi "" ≡ (pos 0, false))
unfolding atoi
test_atoi = (refl, refl, refl, refl)

test_dec : decimal 1200 ≡ "1200"
unfolding decimal
test_dec = refl

test_after : after_last "/x/pz/y/pz/z" "pz" ≡ some "/z"
unfolding after_last
test_after = refl
