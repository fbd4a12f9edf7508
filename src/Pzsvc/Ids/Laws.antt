-- ===== src/Pzsvc/Ids/Laws.antt =====
-- pzsvc/utils.go: what can be read back from an identifier, and the list beside strings.Join.
use Prim.Native.Char.{Char, code}
use text.Mathlib.TextLemmas.{nil-append, cons-append, append_assoc}
use pzsvc_exec.Prelude.{
  Bool, true, false, not, ◌&&◌, ℕ, zero, suc, ◌+◌, ◌-◌, ◌*◌, ◌/◌, ◌%◌, ◌<◌, String, ◌<>◌, Option,
  none, some, List, [], ◌∷◌, ◌++◌, ◌≡◌, ◌∙◌, refl, sym, ap, arith, leb, nat_eq, if◌then◌else◌, All,
}
use pzsvc_exec.Host.{Try, ok, err}
use pzsvc_exec.Text.{join}
use pzsvc_exec.Pzsvc.Ids.{append_all, slice_to_comma_sep, take, drop, hex_digit, hex, psu_uuid}

abbrev digit_value : ℕ → ℕ
digit_value c = if leb c 57 then c - 48 else c - 55

-- The bytes that the digits of a text stand for, without its dashes. A first digit may be waiting
-- for the second.
abbrev read_hex : Option ℕ → String → List ℕ
read_hex high String.[] = []
read_hex none (String.◌∷◌ c s) =
    if nat_eq (code c) 45 then read_hex none s else read_hex (some (digit_value (code c))) s
read_hex (some high) (String.◌∷◌ c s) = (high * 16 + digit_value (code c)) ∷ read_hex none s

abbrev pub bytes_of : String → List ℕ
bytes_of s = read_hex none s

-- A test that every number below the bound passes.
abbrev all_below : (ℕ → Bool) → ℕ → Bool
all_below p zero = true
all_below p (suc n) = p n && all_below p n

passes_below : (p : ℕ → Bool) (n d : ℕ) → all_below p n ≡ true → d < n → p d ≡ true
passes_below p zero d h lt = absurd (omega arith)
passes_below p (suc n) d h lt = ground (arith, passes_below p n d)

abbrev is_read_back : ℕ → Bool
is_read_back d = nat_eq (digit_value (code (hex_digit d))) d && not (nat_eq (code (hex_digit d)) 45)

all_read_back : all_below is_read_back 16 ≡ true
unfolding hex_digit
all_read_back = refl

hex_digit-value :
    (d : ℕ)
    → d < 16
    → (digit_value (code (hex_digit d)) ≡ d) × (nat_eq (code (hex_digit d)) 45 ≡ false)
hex_digit-value d h =
    let e = passes_below is_read_back 16 d all_read_back h in (ground (arith, e), ground (arith, e))

abbrev pub IsByte : ℕ → Type 0
IsByte b = b < 256

read_pair :
    (c d : Char) (s : String)
    → nat_eq (code c) 45 ≡ false
    → bytes_of (String.◌∷◌ c (String.◌∷◌ d s))
      ≡ (digit_value (code c) * 16 + digit_value (code d)) ∷ bytes_of s
read_pair c d s h = ground (arith, h)

-- A byte's two digits are read back.
bytes_of-byte :
    (b : ℕ) (s : String)
    → IsByte b
    → bytes_of (String.◌∷◌ (hex_digit (b / 16)) (String.◌∷◌ (hex_digit (b % 16)) s))
      ≡ b ∷ bytes_of s
bytes_of-byte b s h =
    let (high, dash) = hex_digit-value (b / 16) (omega (arith, h)) in
    let (low, _) = hex_digit-value (b % 16) (omega arith) in
    let back : digit_value (code (hex_digit (b / 16))) * 16
          + digit_value (code (hex_digit (b % 16)))
        ≡ b =
      omega (arith, high, low) in
    read_pair (hex_digit (b / 16)) (hex_digit (b % 16)) s dash ∙ ap (λ n. n ∷ bytes_of s) back

two-append :
    (c d : Char) (t s : String)
    → String.◌∷◌ c (String.◌∷◌ d t) <> s ≡ String.◌∷◌ c (String.◌∷◌ d (t <> s))
two-append c d t s = rw (cons-append, cons-append) refl

bytes_of-hex :
    (bs : List ℕ) (s : String) → All IsByte bs → bytes_of (hex bs <> s) ≡ bs ++ bytes_of s
unfolding hex
bytes_of-hex [] s h = rw nil-append refl
bytes_of-hex (b ∷ bs) s (h, hs) =
    ap bytes_of (two-append (hex_digit (b / 16)) (hex_digit (b % 16)) (hex bs) s)
    ∙ bytes_of-byte b (hex bs <> s) h
    ∙ ap (λ l. b ∷ l) (bytes_of-hex bs s hs)

bytes_of-dash : (s : String) → bytes_of ("-" <> s) ≡ bytes_of s
bytes_of-dash s = rw (cons-append, nil-append) refl

take-drop {ℓ} : {A : Type ℓ} (n : ℕ) (xs : List A) → take n xs ++ drop n xs ≡ xs
take-drop zero xs = refl
take-drop (suc n) [] = refl
take-drop (suc n) (x ∷ xs) = ap (λ l. x ∷ l) (take-drop n xs)

drop-nil {ℓ} : {A : Type ℓ} (n : ℕ) → drop {A = A} n [] ≡ []
drop-nil zero = refl
drop-nil (suc n) = refl

drop-drop {ℓ} : {A : Type ℓ} (n m : ℕ) (xs : List A) → drop n (drop m xs) ≡ drop (m + n) xs
drop-drop n zero xs = ap (λ k. drop k xs) (omega arith)
drop-drop n (suc m) [] = drop-nil n ∙ sym (drop-nil (suc m + n))
drop-drop n (suc m) (x ∷ xs) =
    let e : suc (m + n) ≡ suc m + n = omega arith in drop-drop n m xs ∙ ap (λ k. drop k (x ∷ xs)) e

All-take {ℓ} : {A : Type ℓ} (P : A → Type 0) (n : ℕ) (xs : List A) → All P xs → All P (take n xs)
All-take P zero xs h = tt
All-take P (suc n) [] h = tt
All-take P (suc n) (x ∷ xs) (h, hs) = (h, All-take P n xs hs)

All-drop {ℓ} : {A : Type ℓ} (P : A → Type 0) (n : ℕ) (xs : List A) → All P xs → All P (drop n xs)
All-drop P zero xs h = h
All-drop P (suc n) [] h = tt
All-drop P (suc n) (x ∷ xs) (h, hs) = All-drop P n xs hs

slice-append {ℓ} :
    {A : Type ℓ} (xs : List A) (from n : ℕ)
    → take n (drop from xs) ++ drop (from + n) xs ≡ drop from xs
slice-append xs from n =
    ap (λ l. take n (drop from xs) ++ l) (sym (drop-drop n from xs)) ∙ take-drop n (drop from xs)

-- A piece of the identifier, and the dash behind it.
bytes_of-piece :
    (b : List ℕ) (from n : ℕ) (s : String)
    → All IsByte b
    → bytes_of s ≡ drop (from + n) b
    → bytes_of (hex (take n (drop from b)) <> "-" <> s) ≡ drop from b
bytes_of-piece b from n s h rest =
    bytes_of-hex (take n (drop from b)) ("-" <> s) (All-take IsByte n _ (All-drop IsByte from b h))
    ∙ ap (λ l. take n (drop from b) ++ l) (bytes_of-dash s ∙ rest)
    ∙ slice-append b from n

bytes_of-last : (b : List ℕ) → All IsByte b → bytes_of (hex b) ≡ b
unfolding hex
bytes_of-last [] h = refl
bytes_of-last (b ∷ bs) (h, hs) = bytes_of-byte b (hex bs) h ∙ ap (λ l. b ∷ l) (bytes_of-last bs hs)

abbrev text_of : Try String → String
text_of (ok s) = s
text_of (err e) = ""

-- The random bytes are read back from the identifier made of them: no two choices of bytes give
-- one identifier.
pub bytes_of-psu_uuid :
    (b : List ℕ) (id : String) → All IsByte b → psu_uuid (ok b) ≡ ok id → bytes_of id ≡ b
unfolding psu_uuid
bytes_of-psu_uuid b id h e =
    ap bytes_of (sym (ap text_of e))
    ∙ bytes_of-piece b 0 4 _ h (
        bytes_of-piece b 4 2 _ h (
          bytes_of-piece b 6 2 _ h
            (bytes_of-piece b 8 2 _ h (bytes_of-last (drop 10 b) (All-drop IsByte 10 b h)))))

join-append : (a b : String) (xs : List String) → join ((a <> b) ∷ xs) "," ≡ a <> join (b ∷ xs) ","
unfolding join
join-append a b [] = refl
join-append a b (x ∷ xs) = append_assoc a b ("," <> join (x ∷ xs) ",")

join_from : (accum : String) (xs : List String) → append_all accum xs ≡ join (accum ∷ xs) ","
unfolding append_all join
join_from accum [] = refl
join_from accum (x ∷ xs) =
    join_from (accum <> "," <> x) xs
    ∙ join-append accum ("," <> x) xs
    ∙ ap (λ s. accum <> s) (join-append "," x xs)

-- The list is the one that strings.Join makes.
pub slice_to_comma_sep_lem : (xs : List String) → slice_to_comma_sep xs ≡ join xs ","
unfolding slice_to_comma_sep join
slice_to_comma_sep_lem [] = refl
slice_to_comma_sep_lem (x ∷ xs) = join_from x xs
