-- ===== src/Worker/Input/Answers.antt =====
-- worker/input: what the host has answered to a download that ended without an error.
use pzsvc_exec.Prelude.{String, ◌≡◌, refl, Option, none, some}
use pzsvc_exec.Prelude.Int.{ℤ}
use pzsvc_exec.Host.{
  Host, Response, FileState, present, absent, unknown, Trace, look, emit, stat_file, opened,
  written, GoError, pure, on_nil, ◌>>◌,
}
use pzsvc_exec.Host.Returns.{
  Returns, Returns-pure, Returns-crash, Returns-then, Returns-bind, Returns-ask,
  Returns-on_nil_both,
}
use pzsvc_exec.Worker.Config.{InputSource}
use pzsvc_exec.Worker.Input.{open_new, check_and_open, store, download_input}

module _ (host : Host) where
  -- At some time a stat did not find the file.
  abbrev pub IsAbsent : String → Type 0
  IsAbsent name = (t : Trace) × (e : GoError) × (host.stat t name ≡ absent e)

  -- The host has written this to the file.
  abbrev pub IsWritten : String → String → Type 0
  IsWritten name content = (t : Trace) × (host.write_file t name content ≡ none)

  -- A download without an error found no file and has written one.
  abbrev pub IsAnswer : InputSource → Option GoError → Type 0
  IsAnswer source none =
      IsAbsent source.file_name × ((content : String) × IsWritten source.file_name content)
  IsAnswer source (some e) = Unit

  written-IsAnswer :
      (source : InputSource) (u : Trace) (content : String) (w f : Option GoError)
      → IsAbsent source.file_name
      → host.write_file u source.file_name content ≡ w
      → Returns (IsAnswer source) (pure (on_nil w f some))
  written-IsAnswer source u content none none new k = Returns-pure none (new, (content, (u, k)))
  written-IsAnswer source u content none (some e) new k = Returns-pure (some e) tt
  written-IsAnswer source u content (some e) f new k = Returns-pure (some e) tt

  store-IsAnswer :
      (source : InputSource) (last : Option Response × Option GoError)
      → IsAbsent source.file_name
      → Returns (IsAnswer source) (store host source.file_name last)
  unfolding store
  store-IsAnswer source (r, some e) new = Returns-pure (some e) tt
  store-IsAnswer source (none, none) new = Returns-crash
  store-IsAnswer source (some r, none) new =
      Returns-ask (λ t. host.write_file t source.file_name r.body.content)
        (λ e. emit (written source.file_name r.body.content) >> pure (on_nil e r.body.failure some))
        (λ u.
          Returns-then (emit (written source.file_name r.body.content)) _
            (λ _. written-IsAnswer source u r.body.content _ r.body.failure new refl))

  open_new-IsAbsent :
      (name : String) (t : Trace) (state : FileState)
      → host.stat t name ≡ state
      → Returns (λ r. r ≡ none → IsAbsent name) (open_new host name state)
  unfolding open_new
  open_new-IsAbsent name t present h = Returns-pure _ (λ k. absurd (cc))
  open_new-IsAbsent name t (unknown e) h = Returns-pure _ (λ k. absurd (cc))
  open_new-IsAbsent name t (absent e) h =
      Returns-then (look (λ u. host.open_file u name)) _
        (λ e'. Returns-then (emit (opened name)) _ (λ _. Returns-pure e' (λ _. (t, e, h))))

  check_and_open-IsAbsent :
      (name : String) → Returns (λ r. r ≡ none → IsAbsent name) (check_and_open host name)
  unfolding check_and_open
  check_and_open-IsAbsent name =
      Returns-ask (λ t. host.stat t name)
        (λ state. emit (stat_file name) >> open_new host name state)
        (λ t. Returns-then (emit (stat_file name)) _ (λ _. open_new-IsAbsent name t _ refl))

  pub download-IsAnswer :
      (retries : ℤ) (source : InputSource)
      → Returns (IsAnswer source) (download_input host retries source)
  unfolding download_input
  download-IsAnswer retries source =
      Returns-bind _ _ _ (check_and_open-IsAbsent source.file_name) (λ r new.
        Returns-on_nil_both r _ _
          (λ h. Returns-then _ _ (λ last. store-IsAnswer source last (new h)))
          (λ e k. Returns-pure (some e) tt))
