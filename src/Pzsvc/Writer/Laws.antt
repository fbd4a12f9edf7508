-- ===== src/Pzsvc/Writer/Laws.antt =====
-- pzsvc/http.go: the headers of a preflight on a writer that keeps them.
use pzsvc_exec.Prelude.{
  String, ◌==◌, ◌≡◌, refl, ◌↔◌, true, false, Option, some, nonempty, if◌then◌else◌, eq_iff,
}
use pzsvc_exec.Host.{Request}
use pzsvc_exec.Pzsvc.Writer.{ResponseWriter, header_of, preflight}

-- Header().Get after Header().Set, as net/http documents it, for a header of the reply.
pub record KeepsHeaders {W : Type 0} (w : ResponseWriter W) : Type 0 where
  pub get_header : String → W → Option String
  pub get-set :
      (j k v : String) (s : W)
      → get_header j (w.set_header k v s) ≡ (if k == j then some v else get_header j s)

module _ {W : Type 0} (w : ResponseWriter W) (h : KeepsHeaders w) where
  -- A request with an origin gets that origin and the two methods back, and any other request
  -- leaves the headers as they are. The answer is whether the method is OPTIONS.
  pub preflight_lem :
      (r : Request) (s : W)
      → ((preflight w r s).0 ≡ true ↔ (r.method ≡ "OPTIONS"))
        × (nonempty (header_of r "Origin") ≡ true
            → (h.get_header "Access-Control-Allow-Origin" (preflight w r s).1
                ≡ some (header_of r "Origin"))
              × (h.get_header "Access-Control-Allow-Methods" (preflight w r s).1
                  ≡ some "POST, OPTIONS"))
        × (nonempty (header_of r "Origin") ≡ false → (preflight w r s).1 ≡ s)
  unfolding preflight
  preflight_lem r s = (
    eq_iff r.method "OPTIONS",
    (λ some_origin. (
      rw (some_origin, h.get-set, h.get-set, h.get-set) refl,
      rw (some_origin, h.get-set, h.get-set) refl,
    )),
    (λ no_origin. rw no_origin refl),
  )
