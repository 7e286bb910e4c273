-- ===== src/Proxy/Server/Entry.antt =====
-- The tests of `_handle_post` before it reads the body.
use wevibe_bench.Prelude.{Bool, true, false, not, if◌then◌else◌, str_eq, ◌&&◌}
use wevibe_bench.Prelude.Text.{is_truthy}
use wevibe_bench.Prelude.Dict.{string_eq}
use wevibe_bench.Proxy.Double.{Double}
use wevibe_bench.Proxy.Server.{Server}
use wevibe_bench.Proxy.Server.Handler.{
  parse_bearer_token, is_ascii, Course, Config, HttpRequest, Reply, parse_body, handle_post,
}

module _ {W : Type 0} (fl : Double W) where
  unless :
      (Q : Reply × Server W → Type 0) (b : Bool) (x rest : Reply × Server W)
      → Q x
      → Q rest
      → Q (if b then x else rest)
  unless Q true x rest here there = here
  unless Q false x rest here there = there

  -- What becomes of the server is decided where the body is read.
  pub handle_post_by_body :
      (Q : Reply × Server W → Type 0) (config : Config W) (course : Course) (request : HttpRequest)
      (s : Server W)
      → ((reply : Reply) → Q (reply, s))
      → Q (parse_body fl config course request.trace_id request.body s)
      → Q (handle_post fl config course request s)
  unfolding handle_post
  handle_post_by_body Q config course request s here there =
      let token = parse_bearer_token config.lower request.authorization in
      unless Q (not (str_eq request.path "/api/v1/chat/completions")) _ _ (here _) (
        unless Q (not (is_truthy token)) _ _ (here _) (
          unless Q (not (is_ascii token && is_ascii config.run_token)) _ _ (here _)
            (unless Q (not (str_eq token config.run_token)) _ _ (here _) there)))
