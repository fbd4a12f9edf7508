-- ===== src/Dispatcher/Command/Argv.antt =====
-- dispatcher/poll/loop.go and worker/cmd.go: the worker's flags beside what the dispatcher writes.
use pzsvc_exec.Prelude.{String, ◌<>◌, false, List, [], ◌∷◌, ◌++◌, ◌≡◌, ◌∙◌, refl, ap}
use pzsvc_exec.Text.{join}
use pzsvc_exec.Pzsvc.Model.{InpStruct}
use pzsvc_exec.Dispatcher.Command.{input_parts, output_parts, worker_command}
use pzsvc_exec.Worker.Cmd.Context.{
  Context, flags_of, is_flag, values_of, last_value, ArePairs, ReadsFlags,
}
use pzsvc_exec.Dispatcher.Command.Words.{head_parts, quoted, worker_command_lem}

abbrev pub unquoted : List (String × String) → List String
unquoted [] = []
unquoted ((flag, v) ∷ rest) = flag ∷ v ∷ unquoted rest

-- The arguments of the inputs and outputs.
abbrev pub tail_parts : InpStruct → List String
tail_parts inp = input_parts inp.in_ext_names inp.in_ext_files ++ output_parts inp.out_geo_js

-- What the shell makes of the command where no value has a quotation mark or a blank.
abbrev pub argv : (config_path svc_id : String) → InpStruct → (job_id : String) → List String
argv config_path svc_id inp job_id =
    unquoted (head_parts config_path svc_id inp job_id) ++ tail_parts inp

abbrev pub input_pairs : (names files : List String) → List String
input_pairs (n ∷ names) (f ∷ files) = (n <> ":" <> f) ∷ input_pairs names files
input_pairs _ _ = []

output_parts-ArePairs : (outs : List String) → ArePairs (output_parts outs)
unfolding output_parts
output_parts-ArePairs [] = tt
output_parts-ArePairs (o ∷ outs) = (refl, output_parts-ArePairs outs)

parts-ArePairs :
    (names files outs : List String) → ArePairs (input_parts names files ++ output_parts outs)
unfolding input_parts
parts-ArePairs [] files outs = output_parts-ArePairs outs
parts-ArePairs (n ∷ names) [] outs = output_parts-ArePairs outs
parts-ArePairs (n ∷ names) (f ∷ files) outs = (refl, parts-ArePairs names files outs)

argv-ArePairs :
    (config_path svc_id : String) (inp : InpStruct) (job_id : String)
    → ArePairs (argv config_path svc_id inp job_id)
argv-ArePairs config_path svc_id inp job_id = (
  refl,
  (refl, (refl, (refl, (refl, parts-ArePairs inp.in_ext_names inp.in_ext_files inp.out_geo_js)))),
)

-- A flag that stands for neither inputs nor outputs has no value among them.
values_of-outputs :
    (flag : List String) (outs : List String)
    → is_flag flag "-o" ≡ false
    → values_of flag (output_parts outs) ≡ []
unfolding output_parts
values_of-outputs flag [] h = refl
values_of-outputs flag (o ∷ outs) h = rw h (values_of-outputs flag outs h)

values_of-others :
    (flag : List String) (names files outs : List String)
    → is_flag flag "-i" ≡ false
    → is_flag flag "-o" ≡ false
    → values_of flag (input_parts names files ++ output_parts outs) ≡ []
unfolding input_parts
values_of-others flag [] files outs h k = values_of-outputs flag outs k
values_of-others flag (n ∷ names) [] outs h k = values_of-outputs flag outs k
values_of-others flag (n ∷ names) (f ∷ files) outs h k =
    rw h (values_of-others flag names files outs h k)

values_of-input :
    (names files outs : List String)
    → values_of ("input" ∷ "i" ∷ []) (input_parts names files ++ output_parts outs)
      ≡ input_pairs names files
unfolding input_parts
values_of-input [] files outs = values_of-outputs ("input" ∷ "i" ∷ []) outs refl
values_of-input (n ∷ names) [] outs = values_of-outputs ("input" ∷ "i" ∷ []) outs refl
values_of-input (n ∷ names) (f ∷ files) outs =
    ap (λ l. (n <> ":" <> f) ∷ l) (values_of-input names files outs)

output_values : (outs : List String) → values_of ("output" ∷ "o" ∷ []) (output_parts outs) ≡ outs
unfolding output_parts
output_values [] = refl
output_values (o ∷ outs) = ap (λ l. o ∷ l) (output_values outs)

values_of-output :
    (names files outs : List String)
    → values_of ("output" ∷ "o" ∷ []) (input_parts names files ++ output_parts outs) ≡ outs
unfolding input_parts
values_of-output [] files outs = output_values outs
values_of-output (n ∷ names) [] outs = output_values outs
values_of-output (n ∷ names) (f ∷ files) outs = values_of-output names files outs

module _ (parse : List String → Context) (config_path svc_id : String) (inp : InpStruct)
    (job_id : String) (law : ReadsFlags parse) where
  -- The values of a flag that is neither the inputs' nor the outputs', among all the arguments.
  head_values :
      (flag : List String)
      → is_flag flag "-i" ≡ false
      → is_flag flag "-o" ≡ false
      → values_of flag (tail_parts inp) ≡ []
  head_values flag = values_of-others flag inp.in_ext_names inp.in_ext_files inp.out_geo_js

  -- A flag that is given once has the value that it is given.
  lone_value :
      {x : String} (n v : String)
      → is_flag (n ∷ []) "-i" ≡ false
      → is_flag (n ∷ []) "-o" ≡ false
      → x ≡ last_value (v ∷ values_of (n ∷ []) (tail_parts inp))
      → x ≡ v
  lone_value n v h k e = e ∙ ap (λ vs. last_value (v ∷ vs)) (head_values (n ∷ []) h k)

  -- The worker's command is its words, each value between quotation marks. Among these words and the
  -- arguments of the inputs and outputs, a command-line library that reads flags as it documents finds
  -- for the worker the job's command and user, the configuration, the service, the job, the pairs of
  -- names and addresses, and the outputs; no address of Piazza and no key are passed on.
  pub flags_of-argv :
      (worker_command config_path svc_id inp job_id
        ≡ join ("worker" ∷ quoted (head_parts config_path svc_id inp job_id)) " ")
      × (flags_of (parse (argv config_path svc_id inp job_id)) ≡ record {
        config = config_path;
        cli_extra = inp.command;
        piazza_base_url = "";
        piazza_api_key = "";
        user_id = inp.user_id;
        service_id = svc_id;
        job_id = job_id;
        input = input_pairs inp.in_ext_names inp.in_ext_files;
        output = inp.out_geo_js;
      })
  flags_of-argv =
      let args = argv config_path svc_id inp job_id in
      let (c, (x, (u, (k, (i, (s, (j, _))))))) =
        law.strings args (argv-ArePairs config_path svc_id inp job_id) in
      let (_, (_, (_, (_, (_, (_, (_, (ins, (outs, _))))))))) =
        law.slices args (argv-ArePairs config_path svc_id inp job_id) in
      let e1 : (parse args).string "config" ≡ config_path =
        lone_value "config" config_path refl refl (c refl).0 in
      let e2 : (parse args).string "cliExtra" ≡ inp.command =
        lone_value "cliExtra" inp.command refl refl (x refl).0 in
      let e3 : (parse args).string "piazzaBaseURL" ≡ "" =
        (u refl).0 ∙ ap last_value (head_values ("piazzaBaseURL" ∷ []) refl refl) in
      let e4 : (parse args).string "piazzaAPIKey" ≡ "" =
        (k refl).0 ∙ ap last_value (head_values ("piazzaAPIKey" ∷ []) refl refl) in
      let e5 : (parse args).string "userID" ≡ inp.user_id =
        lone_value "userID" inp.user_id refl refl (i refl).0 in
      let e6 : (parse args).string "serviceID" ≡ svc_id =
        lone_value "serviceID" svc_id refl refl (s refl).0 in
      let e7 : (parse args).string "jobID" ≡ job_id =
        lone_value "jobID" job_id refl refl (j refl).0 in
      let e8 : (parse args).string_slice "input" ≡ input_pairs inp.in_ext_names inp.in_ext_files =
        (ins refl).0 ∙ values_of-input inp.in_ext_names inp.in_ext_files inp.out_geo_js in
      let e9 : (parse args).string_slice "output" ≡ inp.out_geo_js =
        (outs refl).0 ∙ values_of-output inp.in_ext_names inp.in_ext_files inp.out_geo_js in
      (
        worker_command_lem config_path svc_id inp job_id,
        rw (e1, e2, e3, e4, e5, e6, e7, e8, e9) refl,
      )
