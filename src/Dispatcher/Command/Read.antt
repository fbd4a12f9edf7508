-- ===== src/Dispatcher/Command/Read.antt =====
-- dispatcher/poll/loop.go: the worker's command as a command line.
use text.Mathlib.TextLemmas.{append_assoc}
use pzsvc_exec.Prelude.{
  String, ◌<>◌, true, List, [], ◌∷◌, ◌++◌, map, ◌≡◌, ◌∙◌, refl, ap, sym, All, arith,
}
use pzsvc_exec.Text.{join}
use pzsvc_exec.Host.{ok}
use pzsvc_exec.Pzsvc.Model.{InpStruct}
use pzsvc_exec.Dispatcher.Command.{input_parts, output_parts, worker_command, build_worker_command}
use pzsvc_exec.Dispatcher.Command.Line.{
  Word, bare, quoted, written, content, is_bare, is_quotable, IsClean, IsLine, split_first,
  join-front,
}
use pzsvc_exec.Dispatcher.Command.Words.{head_parts, worker_command_lem}
use pzsvc_exec.Dispatcher.Command.Words
use pzsvc_exec.Dispatcher.Command.Argv.{unquoted, tail_parts, argv, input_pairs}

-- The flags with their values between quotation marks, and the parts that stay as they are.
line_words : List (String × String) → List String → List Word
line_words [] [] = []
line_words [] (p ∷ parts) = bare p ∷ line_words [] parts
line_words ((flag, v) ∷ rest) parts = bare flag ∷ quoted v ∷ line_words rest parts

content-line_words :
    (head : List (String × String)) (parts : List String)
    → map content (line_words head parts) ≡ unquoted head ++ parts
unfolding line_words
content-line_words [] [] = refl
content-line_words [] (p ∷ parts) = ap (λ l. p ∷ l) (content-line_words [] parts)
content-line_words ((flag, v) ∷ rest) parts = ap (λ l. flag ∷ v ∷ l) (content-line_words rest parts)

pair_lem : (flag v : String) → flag <> " '" <> v <> "'" ≡ flag <> " " <> ("'" <> v <> "'")
pair_lem flag v = ap (λ s. flag <> s) (append_assoc " " "'" (v <> "'"))

written-line_words :
    (pre : String) (head : List (String × String)) (parts : List String)
    → join (pre ∷ (Words.quoted head ++ parts)) " "
      ≡ join (pre ∷ map written (line_words head parts)) " "
unfolding join line_words
written-line_words pre [] [] = refl
written-line_words pre [] (p ∷ parts) = ap (λ s. pre <> " " <> s) (written-line_words p [] parts)
written-line_words pre ((flag, v) ∷ rest) parts =
    ap (λ s. pre <> " " <> s)
      (ap (λ s. join (s ∷ (Words.quoted rest ++ parts)) " ") (pair_lem flag v)
        ∙ split_first flag ("'" <> v <> "'") (Words.quoted rest ++ parts)
        ∙ ap (λ s. flag <> " " <> s) (written-line_words ("'" <> v <> "'") rest parts))

-- What the dispatcher writes without quotation marks or between them needs no other escaping.
pub record IsPlain (config_path svc_id : String) (inp : InpStruct) (job_id : String) : Type 0 where
  pub command : is_quotable inp.command ≡ true
  pub user : is_quotable inp.user_id ≡ true
  pub config : is_quotable config_path ≡ true
  pub service : is_quotable svc_id ≡ true
  pub job : is_quotable job_id ≡ true
  pub inputs : All (λ s. is_bare s ≡ true) (input_pairs inp.in_ext_names inp.in_ext_files)
  pub outputs : All (λ s. is_bare s ≡ true) inp.out_geo_js

outputs-bare :
    (outs : List String)
    → All (λ s. is_bare s ≡ true) outs
    → All IsClean (line_words [] (output_parts outs))
unfolding line_words output_parts
outputs-bare [] h = tt
outputs-bare (o ∷ outs) (h, hs) = (refl, (h, outputs-bare outs hs))

parts-bare :
    (names files outs : List String)
    → All (λ s. is_bare s ≡ true) (input_pairs names files)
    → All (λ s. is_bare s ≡ true) outs
    → All IsClean (line_words [] (input_parts names files ++ output_parts outs))
unfolding line_words input_parts
parts-bare [] files outs h k = outputs-bare outs k
parts-bare (n ∷ names) [] outs h k = outputs-bare outs k
parts-bare (n ∷ names) (f ∷ files) outs (h, hs) k = (refl, (h, parts-bare names files outs hs k))

module _ (config_path svc_id : String) (inp : InpStruct) (job_id : String) where
  words : List Word
  words = bare "worker" ∷ line_words (head_parts config_path svc_id inp job_id) (tail_parts inp)

  words-IsClean : IsPlain config_path svc_id inp job_id → All IsClean words
  unfolding words line_words
  words-IsClean p =
      let rest = parts-bare inp.in_ext_names inp.in_ext_files inp.out_geo_js p.inputs p.outputs in
      (
        refl,
        (
          refl,
          (
            p.command,
            (refl, (p.user, (refl, (p.config, (refl, (p.service, (refl, (p.job, rest)))))))),
          ),
        ),
      )

  built-words :
      join (worker_command config_path svc_id inp job_id ∷ tail_parts inp) " "
      ≡ join (map written words) " "
  unfolding words
  built-words =
      ap (λ s. join (s ∷ tail_parts inp) " ") (worker_command_lem config_path svc_id inp job_id)
      ∙ join-front "worker" (Words.quoted (head_parts config_path svc_id inp job_id))
          (tail_parts inp)
      ∙ written-line_words "worker" (head_parts config_path svc_id inp job_id) (tail_parts inp)

  -- The command that is built is a line with these arguments.
  pub built-IsLine :
      (command : String)
      → IsPlain config_path svc_id inp job_id
      → build_worker_command config_path svc_id inp job_id ≡ ok command
      → IsLine command "worker" (argv config_path svc_id inp job_id)
  unfolding build_worker_command words
  built-IsLine command p e = (
    words,
    words-IsClean p,
    (let same : join (worker_command config_path svc_id inp job_id ∷ tail_parts inp) " " ≡ command =
          ground (arith, e) in
        sym same ∙ built-words),
    ap (λ l. "worker" ∷ l)
        (content-line_words (head_parts config_path svc_id inp job_id) (tail_parts inp)),
  )
