-- ===== src/Dispatcher/Command/Words.antt =====
-- dispatcher/poll/loop.go: the words of the worker's command.
use text.Mathlib.TextLemmas.{append_assoc}
use pzsvc_exec.Prelude.{String, ◌<>◌, List, [], ◌∷◌, ◌≡◌, ◌∙◌, refl, ap, sym}
use pzsvc_exec.Text.{join}
use pzsvc_exec.Pzsvc.Model.{InpStruct}
use pzsvc_exec.Dispatcher.Command.{worker_command}

-- The flags of the first part of the command, each with its value.
abbrev pub head_parts :
    (config_path svc_id : String) → InpStruct → (job_id : String) → List (String × String)
head_parts config_path svc_id inp job_id =
    ("--cliExtra", inp.command)
    ∷ ("--userID", inp.user_id)
    ∷ ("--config", config_path)
    ∷ ("--serviceID", svc_id)
    ∷ ("--jobID", job_id)
    ∷ []

abbrev pub quoted : List (String × String) → List String
quoted [] = []
quoted ((flag, v) ∷ rest) = (flag <> " '" <> v <> "'") ∷ quoted rest

-- The text from a prefix on to the value of the flag behind it, where the prefix, the flag and the
-- first quotation mark are one literal.
value_behind :
    (p flag lit x : String)
    → p <> " " <> flag <> " '" ≡ lit
    → p <> " " <> flag <> " '" <> x ≡ lit <> x
value_behind p flag lit x e =
    ap (λ s. p <> " " <> s) (sym (append_assoc flag " '" x))
    ∙ ap (λ s. p <> s) (sym (append_assoc " " (flag <> " '") x))
    ∙ sym (append_assoc p (" " <> flag <> " '") x)
    ∙ ap (λ s. s <> x) e

flag_behind :
    (p flag v x lit : String)
    → p <> " " <> flag <> " '" ≡ lit
    → p <> " " <> (flag <> " '" <> v <> "'") <> x ≡ lit <> v <> "'" <> x
flag_behind p flag v x lit e =
    ap (λ s. p <> " " <> s)
      (append_assoc flag (" '" <> v <> "'") x
        ∙ ap (λ s. flag <> s)
            (append_assoc " '" (v <> "'") x ∙ ap (λ s. " '" <> s) (append_assoc v "'" x)))
    ∙ value_behind p flag lit (v <> "'" <> x) e

-- The command is its words: `worker`, and the flags with their values between quotation marks.
pub worker_command_lem :
    (config_path svc_id : String) (inp : InpStruct) (job_id : String)
    → worker_command config_path svc_id inp job_id
      ≡ join ("worker" ∷ quoted (head_parts config_path svc_id inp job_id)) " "
unfolding worker_command join
worker_command_lem config_path svc_id inp job_id = sym (
    flag_behind "worker" "--cliExtra" inp.command _ "worker --cliExtra '" refl
    ∙ ap (λ s. "worker --cliExtra '" <> inp.command <> s)
        (flag_behind "'" "--userID" inp.user_id _ "' --userID '" refl
          ∙ ap (λ s. "' --userID '" <> inp.user_id <> s)
              (flag_behind "'" "--config" config_path _ "' --config '" refl
                ∙ ap (λ s. "' --config '" <> config_path <> s)
                    (flag_behind "'" "--serviceID" svc_id _ "' --serviceID '" refl
                      ∙ ap (λ s. "' --serviceID '" <> svc_id <> s)
                          (value_behind "'" "--jobID" "' --jobID '" (job_id <> "'") refl)))))
