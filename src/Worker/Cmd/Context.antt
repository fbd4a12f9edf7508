-- ===== src/Worker/Cmd/Context.antt =====
-- worker/cmd.go: the flags that init declares, and what runCmd reads of them. The command-line
-- library is a parameter.
use pzsvc_exec.Prelude.{
  String, ◌<>◌, ◌==◌, Bool, true, false, ◌||◌, List, [], ◌∷◌, ◌≡◌, if◌then◌else◌, All,
}
use pzsvc_exec.Worker.Cmd.{Flags}

-- cli.StringFlag and cli.StringSliceFlag, with the names that the declaration separates by commas.
pub record CliFlag : Type 0 where
  pub names : List String
  pub is_slice : Bool

abbrev string_flag : String → CliFlag
string_flag name = record { names = name ∷ []; is_slice = false }

abbrev slice_flag : (name alias : String) → CliFlag
slice_flag name alias = record { names = name ∷ alias ∷ []; is_slice = true }

abbrev pub app_flags : List CliFlag
app_flags =
    string_flag "config"
    ∷ string_flag "cliExtra"
    ∷ string_flag "piazzaBaseURL"
    ∷ string_flag "piazzaAPIKey"
    ∷ string_flag "userID"
    ∷ string_flag "serviceID"
    ∷ string_flag "jobID"
    ∷ slice_flag "input" "i"
    ∷ slice_flag "output" "o"
    ∷ []

-- cli.Context: ctx.String and ctx.StringSlice.
pub record Context : Type 0 where
  pub string : String → String
  pub string_slice : String → List String

-- All that runCmd reads.
abbrev pub flags_of : Context → Flags
flags_of ctx = record {
  config = ctx.string "config";
  cli_extra = ctx.string "cliExtra";
  piazza_base_url = ctx.string "piazzaBaseURL";
  piazza_api_key = ctx.string "piazzaAPIKey";
  user_id = ctx.string "userID";
  service_id = ctx.string "serviceID";
  job_id = ctx.string "jobID";
  input = ctx.string_slice "input";
  output = ctx.string_slice "output";
}

-- An argument is a flag of this name, with one dash or two.
abbrev pub is_flag : List String → String → Bool
is_flag [] arg = false
is_flag (n ∷ ns) arg = (arg == "-" <> n) || (arg == "--" <> n) || is_flag ns arg

-- The values behind a flag, under any of its names.
abbrev pub values_of : List String → List String → List String
values_of names [] = []
values_of names (arg ∷ []) = []
values_of names (arg ∷ v ∷ args) =
    if is_flag names arg then v ∷ values_of names args else values_of names args

-- The last of them, or "".
abbrev pub last_value : List String → String
last_value [] = ""
last_value (v ∷ []) = v
last_value (v ∷ w ∷ vs) = last_value (w ∷ vs)

-- Some flag has this name.
abbrev is_declared : List CliFlag → String → Bool
is_declared [] arg = false
is_declared (f ∷ fs) arg = is_flag f.names arg || is_declared fs arg

-- Every second argument is a declared flag, and its value follows.
abbrev pub ArePairs : List String → Type 0
ArePairs [] = Unit
ArePairs (arg ∷ []) = ⊥
ArePairs (arg ∷ v ∷ args) = (is_declared app_flags arg ≡ true) × ArePairs args

-- What the library documents of flags and their values: a string is the last value that was given,
-- a slice is all of them, under any name of the flag.
pub record ReadsFlags (parse : List String → Context) : Type 0 where
  pub strings :
      (args : List String)
      → ArePairs args
      → All
          (λ f.
            f.is_slice ≡ false
            → All (λ n. (parse args).string n ≡ last_value (values_of f.names args)) f.names)
          app_flags
  pub slices :
      (args : List String)
      → ArePairs args
      → All
          (λ f.
            f.is_slice ≡ true
            → All (λ n. (parse args).string_slice n ≡ values_of f.names args) f.names)
          app_flags
