-- ===== src/Dispatcher/Command/Line.antt =====
-- The words of a command line.
use text.Mathlib.TextLemmas.{append_assoc}
use pzsvc_exec.Prelude.{
  ℕ, String, ◌<>◌, Bool, true, not, ◌&&◌, ◌||◌, ltb, nat_eq, nonempty, List, [], ◌∷◌, ◌++◌, map,
  ◌≡◌, ◌∙◌, refl, ap, All,
}
use pzsvc_exec.Text.{codes, join}

-- A word of a command line, as it is or between single quotation marks.
pub data Word : Type 0 where
  bare quoted : String → Word

abbrev pub written : Word → String
written (bare s) = s
written (quoted s) = "'" <> s <> "'"

abbrev pub content : Word → String
content (bare s) = s
content (quoted s) = s

abbrev pub all_codes : (ℕ → Bool) → List ℕ → Bool
all_codes p [] = true
all_codes p (c ∷ cs) = p c && all_codes p cs

abbrev one_of : List ℕ → ℕ → Bool
one_of [] c = Bool.false
one_of (d ∷ ds) c = nat_eq c d || one_of ds c

-- Letters, digits and the signs %+,-./:=@_ stand for themselves in a shell.
abbrev pub is_plain : ℕ → Bool
is_plain c =
    (ltb 47 c && ltb c 58)
    || (ltb 64 c && ltb c 91)
    || (ltb 96 c && ltb c 123)
    || one_of (37 ∷ 43 ∷ 44 ∷ 45 ∷ 46 ∷ 47 ∷ 58 ∷ 61 ∷ 64 ∷ 95 ∷ []) c

-- A word that a shell takes as it is.
abbrev pub is_bare : String → Bool
is_bare s = nonempty s && all_codes is_plain (codes s)

-- A text that a shell takes as it is between single quotation marks: it has none.
abbrev pub is_quotable : String → Bool
is_quotable s = all_codes (λ c. not (nat_eq c 39)) (codes s)

abbrev pub IsClean : Word → Type 0
IsClean (bare s) = is_bare s ≡ true
IsClean (quoted s) = is_quotable s ≡ true

-- The line is the program's name and such words, with blanks between them, of which the arguments
-- are the texts.
abbrev pub IsLine : (line program : String) (args : List String) → Type 0
IsLine line program args =
    (words : List Word) × All IsClean words
    × (line ≡ join (map written words) " ")
    × (map content words ≡ program ∷ args)

-- Lines with blanks between their parts.
pub split_first :
    (a b : String) (rest : List String)
    → join ((a <> " " <> b) ∷ rest) " " ≡ join (a ∷ b ∷ rest) " "
unfolding join
split_first a b [] = refl
split_first a b (r ∷ rs) =
    append_assoc a (" " <> b) (" " <> join (r ∷ rs) " ")
    ∙ ap (λ s. a <> s) (append_assoc " " b (" " <> join (r ∷ rs) " "))

pub join-front :
    (x : String) (xs ys : List String)
    → join (join (x ∷ xs) " " ∷ ys) " " ≡ join (x ∷ (xs ++ ys)) " "
unfolding join
join-front x [] ys = refl
join-front x (x' ∷ xs) ys =
    split_first x (join (x' ∷ xs) " ") ys ∙ ap (λ s. x <> " " <> s) (join-front x' xs ys)
