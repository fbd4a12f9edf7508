-- ===== src/Dispatcher/Poll/Progress.antt =====
-- Below its limit the dispatcher launches a job that waits.
use pzsvc_exec.Prelude.{
  ℕ, zero, suc, String, ◌<>◌, ◌==◌, false, none, some, List, [], ◌∷◌, ◌≡◌, length,
}
use pzsvc_exec.Prelude.Int.{at_least}
use pzsvc_exec.Host.{Host, Trace, Request, Response, Try, ok, err}
use pzsvc_exec.Host.Exactly.{Exactly}
use pzsvc_exec.Host.Returns.{Returns}
use pzsvc_exec.Pzsvc.Model.{InpStruct}
use pzsvc_exec.Pzsvc.Http.{is_failure, json_request}
use pzsvc_exec.Dispatcher.JobData.{DispatcherJson, PzTaskItem}
use pzsvc_exec.Dispatcher.Cf.{count_query, validation_query, DefaultFactory, WrappedCfSession}
use pzsvc_exec.Dispatcher.Poll.{Loop, Signal}

-- Where a job is asked for.
abbrev pub task_url : Loop → String
task_url l = l.pz_session.pz_addr <> "/service/" <> l.svc_id <> "/task"

abbrev task_request : Loop → Request
task_request l = json_request "POST" "" (task_url l) l.pz_session.pz_auth

-- A session is cached and stays valid; whenever the tasks are counted there are fewer than the limit;
-- every request is answered, and the answer to one for a job is a job whose input can be decoded and
-- has as many names as URLs.
pub record IsServing (host : Host) (json : DispatcherJson) (l : Loop) (f : DefaultFactory)
    (s : WrappedCfSession) (client : ℕ) (item : PzTaskItem) (input : InpStruct) : Type 0 where
  pub cached : f.cached_session ≡ some s
  pub connected : s.client ≡ some client
  pub valid : (t : Trace) → host.cloud_foundry.list_apps t client validation_query ≡ none
  pub spare :
      (t : Trace)
      → (tasks : List String) × (host.cloud_foundry.tasks_by_app t client l.vcap_id count_query
          ≡ ok tasks)
        × (at_least (length tasks) l.task_limit ≡ false)
  pub addressed : (task_url l == "") ≡ false
  pub reachable : host.request_error "POST" (task_url l) ≡ none
  pub answered :
      (t : Trace) (r : Request)
      → (reply : Response) × (host.respond t r ≡ ok reply)
        × (is_failure reply.status_code ≡ false)
        × (reply.body.failure ≡ none)
        × (json.task_item.decode reply.body.content ≡ (item, none))
  pub waiting : (item.out_data.svc_data.in_data.data_inputs.body.content == "") ≡ false
  pub decoded :
      json.inp_struct.decode item.out_data.svc_data.in_data.data_inputs.body.content ≡ (input, none)
  pub paired : length input.in_ext_files ≡ length input.in_ext_names

abbrev pub replicate : ℕ → Signal → List Signal
replicate zero s = []
replicate (suc n) s = s ∷ replicate n s

module _ (host : Host) (json : DispatcherJson) (l : Loop) (f : DefaultFactory)
    (s : WrappedCfSession) (client : ℕ) (item : PzTaskItem) (input : InpStruct)
    (h : IsServing host json l f s client item input) where
  abbrev IsSpare : Try ℕ → Type 0
  IsSpare (ok n) = at_least n l.task_limit ≡ false
  IsSpare (err e) = ⊥
