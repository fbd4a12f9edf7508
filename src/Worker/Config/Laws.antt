-- ===== src/Worker/Config/Laws.antt =====
-- What the map of the inputs holds.
use pzsvc_exec.Prelude.{
  String, ◌==◌, true, false, none, some, List, [], ◌∷◌, ◌++◌, ◌≡◌, refl, All, Map, lookup, assign,
  lookup-assign, ◌∙◌,
}
use pzsvc_exec.Worker.Config.{InputSource, assign_inputs, inputs_as_map}

-- Another file than the one that is asked for.
abbrev pub IsOther : String → InputSource → Type 0
IsOther k i = (i.file_name == k) ≡ false

assign_inputs-append :
    (before after : List InputSource) (m : Map String)
    → assign_inputs (before ++ after) m ≡ assign_inputs after (assign_inputs before m)
unfolding assign_inputs
assign_inputs-append [] after m = refl
assign_inputs-append (i ∷ before) after m =
    assign_inputs-append before after (assign i.file_name i.url m)

lookup-others :
    (k : String) (inputs : List InputSource) (m : Map String)
    → All (IsOther k) inputs
    → lookup k (assign_inputs inputs m) ≡ lookup k m
unfolding assign_inputs
lookup-others k [] m h = refl
lookup-others k (i ∷ inputs) m (o, h) =
    lookup-others k inputs (assign i.file_name i.url m) h
    ∙ rw (lookup-assign i.file_name k i.url m, o) refl

-- Of several inputs with one file name the last one counts: the map gives its URL. A name that no
-- input has is not in the map.
pub inputs_as_map_lem :
    (k : String) (before : List InputSource) (i : InputSource) (after : List InputSource)
    → All (IsOther k) after
    → ((i.file_name == k) ≡ true → lookup k (inputs_as_map (before ++ (i ∷ after))) ≡ some i.url)
      × (lookup k (inputs_as_map after) ≡ none)
unfolding inputs_as_map assign_inputs lookup
inputs_as_map_lem k before i after h = (
  λ same. rw (assign_inputs-append before (i ∷ after) []) (last same),
  lookup-others k after [] h,
)
  where
    last :
        (i.file_name == k) ≡ true
        → lookup k (assign_inputs (i ∷ after) (assign_inputs before [])) ≡ some i.url
    last same =
        lookup-others k after _ h
        ∙ rw (lookup-assign i.file_name k i.url (assign_inputs before []), same) refl
