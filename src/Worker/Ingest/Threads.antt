-- ===== src/Worker/Ingest/Threads.antt =====
-- worker/ingest: the goroutines of ingestFileAsync and the loop of handleIngestResults over their
-- channels, interleaved in any order. A channel without a buffer is a step of both its ends. These are the
-- steps of a program in which no goroutine panics: Panics has the others.
pub mod Panics
pub mod Order
pub mod Ends
pub mod Leaks
pub mod Sequential
use pzsvc_exec.Prelude.{String, ℕ, suc, Bool, Option, none, List, [], ◌∷◌, map}
use pzsvc_exec.Host.{Try, GoError}
use pzsvc_exec.Worker.Ingest.{MultiIngestOutput, AsyncIngestorCall, add_result, settled, timed_out}

-- The goroutine that calls IngestFile: in the call, at the send of its answer, or through with it.
pub data Inner : Type 0 where
  calling : Inner
  offering : Try String → Inner
  finished : Inner

-- The goroutine around it: at the select, at the send of what it got, at the close, or through.
pub data Outer : Type 0 where
  selecting : Outer
  sending : Try String → Outer
  sent : Outer
  closed : Outer

-- One call of ingestFileAsync. The answer is what IngestFile returns, should it return.
pub record Ingestor : Type 0 where
  pub call : AsyncIngestorCall
  pub answer : Try String
  pub inner : Inner
  pub outer : Outer

-- The steps that the two goroutines take without the reader.
pub data Move : Ingestor → Ingestor → Type 0 where
  answers :
      {c : AsyncIngestorCall} {a : Try String} {o : Outer}
      → Move
          (record { call = c; answer = a; inner = calling; outer = o })
          (record { call = c; answer = a; inner = offering a; outer = o })
  passes_on :
      {c : AsyncIngestorCall} {a r : Try String}
      → Move
          (record { call = c; answer = a; inner = offering r; outer = selecting })
          (record { call = c; answer = a; inner = finished; outer = sending r })
  times_out :
      {c : AsyncIngestorCall} {a : Try String} {i : Inner}
      → Move
          (record { call = c; answer = a; inner = i; outer = selecting })
          (record { call = c; answer = a; inner = i; outer = sending timed_out })
  closes :
      {c : AsyncIngestorCall} {a : Try String} {i : Inner}
      → Move
          (record { call = c; answer = a; inner = i; outer = sent })
          (record { call = c; answer = a; inner = i; outer = closed })

-- One of the goroutines moves.
pub data OneMoves : List Ingestor → List Ingestor → Type 0 where
  here : {g g' : Ingestor} {gs : List Ingestor} → Move g g' → OneMoves (g ∷ gs) (g' ∷ gs)
  there : {g : Ingestor} {gs gs' : List Ingestor} → OneMoves gs gs' → OneMoves (g ∷ gs) (g ∷ gs')

-- The channels that were read to their end, those that were not, in the order of the loop, and the
-- output so far.
pub record Reading : Type 0 where
  pub passed : List Ingestor
  pub waiting : List Ingestor
  pub output : MultiIngestOutput

pub data Step : Reading → Reading → Type 0 where
  behind :
      {p p' w : List Ingestor} {out : MultiIngestOutput}
      → OneMoves p p'
      → Step
          (record { passed = p; waiting = w; output = out })
          (record { passed = p'; waiting = w; output = out })
  ahead :
      {p w w' : List Ingestor} {out : MultiIngestOutput}
      → OneMoves w w'
      → Step
          (record { passed = p; waiting = w; output = out })
          (record { passed = p; waiting = w'; output = out })
  -- `for result := range resultChan` receives a result,
  receives :
      {p w : List Ingestor} {out : MultiIngestOutput} {c : AsyncIngestorCall} {a r : Try String}
      {i : Inner}
      → Step
          (record {
            passed = p;
            waiting = record { call = c; answer = a; inner = i; outer = sending r } ∷ w;
            output = out;
          })
          (record {
            passed = p;
            waiting = record { call = c; answer = a; inner = i; outer = sent } ∷ w;
            output = add_result out (settled c r);
          })
  -- and ends at the close of the channel.
  goes_on :
      {p w : List Ingestor} {out : MultiIngestOutput} {c : AsyncIngestorCall} {a : Try String}
      {i : Inner}
      → Step
          (record {
            passed = p;
            waiting = record { call = c; answer = a; inner = i; outer = closed } ∷ w;
            output = out;
          })
          (record {
            passed = record { call = c; answer = a; inner = i; outer = closed } ∷ p;
            waiting = w;
            output = out;
          })

-- A run of so many steps.
pub data Reach (s : Reading) : ℕ → Reading → Type 0 where
  start : Reach s 0 s
  later : {n : ℕ} {t u : Reading} → Reach s n t → Step t u → Reach s (suc n) u

-- callAsyncIngestor: a new pair of goroutines for each call. With each call comes its answer.
abbrev pub launched : AsyncIngestorCall × Try String → Ingestor
launched (c, a) = record { call = c; answer = a; inner = calling; outer = selecting }

-- The start of the loop, with the errors of the assembly.
abbrev pub call_async_ingestor : List (AsyncIngestorCall × Try String) → List GoError → Reading
call_async_ingestor calls errors = record {
  passed = [];
  waiting = map launched calls;
  output = record { data_ids = []; errors = errors; combined_error = none };
}
