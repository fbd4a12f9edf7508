-- ===== src/Pzsvc/Ids.antt =====
-- pzsvc/utils.go: the identifiers of PsuUUID and the lists of SliceToCommaSep.
pub mod Laws
use Prim.Native.Char.{Char, nul}
use Prim.Native.String
use pzsvc_exec.Prelude.{ℕ, zero, suc, ◌-◌, ◌/◌, ◌%◌, String, ◌<>◌, List, [], ◌∷◌}
use pzsvc_exec.Host.{Try, ok, err, on_error}

-- The loop of SliceToCommaSep, with the list so far.
unfoldable pub append_all : (accum : String) → List String → String
append_all accum [] = accum
append_all accum (x ∷ xs) = append_all (accum <> "," <> x) xs

unfoldable pub slice_to_comma_sep : List String → String
unfolding append_all
slice_to_comma_sep [] = ""
slice_to_comma_sep (x ∷ xs) = append_all x xs

abbrev pub take {ℓ} : {A : Type ℓ} → ℕ → List A → List A
take zero xs = []
take (suc n) [] = []
take (suc n) (x ∷ xs) = x ∷ take n xs

abbrev pub drop {ℓ} : {A : Type ℓ} → ℕ → List A → List A
drop zero xs = xs
drop (suc n) [] = []
drop (suc n) (x ∷ xs) = drop n xs

-- b[from:to], of a slice that is long enough
abbrev pub slice {ℓ} : {A : Type ℓ} → List A → (from to : ℕ) → List A
slice b from to = take (to - from) (drop from b)

-- The character with this number, of a text that is long enough.
char_at : String → ℕ → Char
char_at String.[] d = nul
char_at (String.◌∷◌ c s) zero = c
char_at (String.◌∷◌ c s) (suc d) = char_at s d

-- An upper-case hexadecimal digit.
unfoldable pub hex_digit : ℕ → Char
unfolding char_at
hex_digit d = char_at "0123456789ABCDEF" d

-- `%X` of bytes.
unfoldable pub hex : List ℕ → String
unfolding hex_digit
hex [] = ""
hex (b ∷ bs) = String.◌∷◌ (hex_digit (b / 16)) (String.◌∷◌ (hex_digit (b % 16)) (hex bs))

-- From what rand.Read gives for sixteen bytes on.
unfoldable pub psu_uuid : Try (List ℕ) → Try String
unfolding hex
psu_uuid read =
    on_error read (λ e. err e)
      (λ b. ok (
        hex (slice b 0 4)
        <> "-"
        <> hex (slice b 4 6)
        <> "-"
        <> hex (slice b 6 8)
        <> "-"
        <> hex (slice b 8 10)
        <> "-"
        <> hex (drop 10 b)))
