-- ===== src/Proxy/Server/Identity.antt =====
-- The requests that reach a server after it has seen a wrong model.
use wevibe_bench.Prelude.{◌≡◌, refl, some, List, [], ◌∷◌, String, Result-cases, inl, inr}
use wevibe_bench.Prelude.Json.{obj, Fields}
use wevibe_bench.Prelude.Dict.{string_eq}
use wevibe_bench.Proxy.Double.{Double}
use wevibe_bench.Proxy.Profile.{get_profile}
use wevibe_bench.Proxy.Ledger.{Books}
use wevibe_bench.Proxy.Server.{Server}
use wevibe_bench.Proxy.Server.Handler.{
  Course, Config, HttpRequest, RequestBody, bad_length, not_json_body, decoded, shape, number,
  parse_body, handle_post,
}
use wevibe_bench.Proxy.Server.Entry.{handle_post_by_body}

module _ {W : Type 0} (fl : Double W) where
  -- The server has seen this wrong model, and these are its books.
  abbrev pub IsClosed : String → Books W → Server W → Type 0
  IsClosed m b s = (s.identity_mismatch ≡ some m) × (s.books ≡ b)

  shape-IsClosed :
      (config : Config W) (course : Course) (id : String) (body : Fields) (m : String) (b : Books W)
      (s : Server W)
      → IsClosed m b s
      → IsClosed m b (shape fl config course id body s).1
  unfolding shape
  shape-IsClosed config course id body m b s h =
      elim (Result-cases (get_profile config.registry config.profile_name)) [
        | inr (e, raised) ↦ rw (raised, shape) h
        | inl (p, found) ↦ rw (found, h.0, shape) h
      ]

  parse_body-IsClosed :
      (config : Config W) (course : Course) (id : String) (body : RequestBody) (m : String)
      (b : Books W) (s : Server W)
      → IsClosed m b s
      → IsClosed m b (parse_body fl config course id body s).1
  unfolding parse_body
  parse_body-IsClosed config course id (decoded (obj body)) m b s h =
      shape-IsClosed config course id body m b (number fl s) h
  parse_body-IsClosed config course id (decoded _) m b s h = h
  parse_body-IsClosed config course id bad_length m b s h = h
  parse_body-IsClosed config course id not_json_body m b s h = h

  -- `handle_post` over requests that come one after another, each with what it meets
  unfoldable pub handle_all : Config W → List (Course × HttpRequest) → Server W → Server W
  unfolding handle_post
  handle_all config [] s = s
  handle_all config ((course, request) ∷ rest) s =
      handle_all config rest (handle_post fl config course request s).1

  handle_all-stays :
      (config : Config W) (requests : List (Course × HttpRequest)) (m : String) (b : Books W)
      (s : Server W)
      → IsClosed m b s
      → IsClosed m b (handle_all config requests s)
  unfolding handle_all
  handle_all-stays config [] m b s h = h
  handle_all-stays config ((course, request) ∷ rest) m b s h = handle_all-stays config rest m b _ (
      handle_post_by_body fl (λ x. IsClosed m b x.1) config course request s (λ _. h)
        (parse_body-IsClosed config course request.trace_id request.body m b s h))

  -- After the upstream has named a wrong model once, no request changes the ledger or its file, and
  -- the mismatch stays.
  pub handle_all-IsClosed :
      (config : Config W) (requests : List (Course × HttpRequest)) (m : String) (s : Server W)
      → s.identity_mismatch ≡ some m
      → IsClosed m s.books (handle_all config requests s)
  handle_all-IsClosed config requests m s h = handle_all-stays config requests m s.books s (h, refl)
