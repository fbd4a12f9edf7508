-- ===== src/Dispatcher/Command/Received.antt =====
-- dispatcher/poll/loop.go and worker/cmd.go: the worker's configuration for the dispatcher's flags.
use pzsvc_exec.Prelude.{
  String, ◌<>◌, ◌==◌, false, none, List, [], ◌∷◌, ◌≡◌, ◌∙◌, refl, ap, sym, All,
}
use pzsvc_exec.Text.{cut}
use pzsvc_exec.Host.{Host, Try, ok}
use pzsvc_exec.Pzsvc.Model.{InpStruct, zero_session}
use pzsvc_exec.Pzsvc.Json.{Decoder}
use pzsvc_exec.Pzsvc.Config.{Config}
use pzsvc_exec.Dispatcher.Command.{input_parts}
use pzsvc_exec.Dispatcher.Command.Laws.{parse_inputs-input_parts, flag_values, sources}
use pzsvc_exec.Dispatcher.Command.Argv.{input_pairs}
use pzsvc_exec.Worker.Config.{WorkerConfig}
use pzsvc_exec.Worker.Cmd.{Flags, parse_inputs, initial_config, complete}
use pzsvc_exec.Worker.Cmd.Context.{Context}

flag_values-input_parts :
    (names files : List String)
    → flag_values "-i" (input_parts names files) ≡ input_pairs names files
unfolding flag_values input_parts
flag_values-input_parts [] files = refl
flag_values-input_parts (n ∷ names) [] = refl
flag_values-input_parts (n ∷ names) (f ∷ files) =
    ap (λ l. (n <> ":" <> f) ∷ l) (flag_values-input_parts names files)

parse_inputs-input_pairs :
    (names files : List String)
    → All (λ n. cut ":" n ≡ none) names
    → parse_inputs (input_pairs names files) ≡ ok (sources names files)
parse_inputs-input_pairs names files h =
    sym (ap parse_inputs (flag_values-input_parts names files))
    ∙ parse_inputs-input_parts names files h

-- The worker's configuration for a job: what the dispatcher was told of the job, and the address and
-- the key of the worker's own environment.
abbrev pub received :
    Host → Config → (svc_id : String) → InpStruct → (job_id : String) → WorkerConfig
received host c svc_id inp job_id = record {
  session = record zero_session {
    app_name = "pzsvc-worker";
    session_id = "startup";
    log_root_dir = "pzsvc-exec";
    pz_addr = host.getenv c.pz_addr_en_var;
    pz_auth = "Basic " <> host.base64 (host.getenv c.api_key_en_var <> ":");
  };
  cli_command_extra = inp.command;
  piazza_base_url = host.getenv c.pz_addr_en_var;
  piazza_api_key = host.getenv c.api_key_en_var;
  piazza_service_id = svc_id;
  user_id = inp.user_id;
  job_id = job_id;
  inputs = sources inp.in_ext_names inp.in_ext_files;
  outputs = inp.out_geo_js;
  pz_se_config = c;
  mute_logs = false;
}

module _ (host : Host) (d : Decoder Config) (c : Config) (parse : List String → Context)
    (config_path svc_id : String) (inp : InpStruct) (job_id : String) where
  -- The command's flags, and the configuration that was read beside them.
  abbrev completed : Flags → Try WorkerConfig
  completed flags = complete host flags (record (initial_config d flags) { pz_se_config = c })

  -- The flags that the worker finds.
  abbrev pub dispatched : Flags
  dispatched = record {
    config = config_path;
    cli_extra = inp.command;
    piazza_base_url = "";
    piazza_api_key = "";
    user_id = inp.user_id;
    service_id = svc_id;
    job_id = job_id;
    input = input_pairs inp.in_ext_names inp.in_ext_files;
    output = inp.out_geo_js;
  }

  -- The checks of the worker let these flags through, and complete the configuration to that of the
  -- job, where the service is named, no input's name has a colon, the job has an output, and the
  -- worker's environment has an address and a key.
  pub completed-dispatched :
      {o : String} {outputs : List String}
      → (svc_id == "") ≡ false
      → All (λ n. cut ":" n ≡ none) inp.in_ext_names
      → inp.out_geo_js ≡ o ∷ outputs
      → (host.getenv c.pz_addr_en_var == "") ≡ false
      → (host.getenv c.api_key_en_var == "") ≡ false
      → completed dispatched ≡ ok (received host c svc_id inp job_id)
  unfolding complete initial_config
  completed-dispatched named plain_names has address key =
      rw
        (
          named,
          address,
          key,
          parse_inputs-input_pairs inp.in_ext_names inp.in_ext_files plain_names,
          has,
        )
        refl
