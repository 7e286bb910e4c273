-- ===== src/Proxy/Tests/Serving.antt =====
-- A server that answers one request, and one that has seen a wrong model.
use wevibe_bench.Prelude.{◌≡◌, refl, false, none, some, [], ◌∷◌}
use wevibe_bench.Prelude.Int.{ℤ, pos, ◌-ℤ◌}
use wevibe_bench.Prelude.Json.{int, obj, Fields, end, field}
use wevibe_bench.Prelude.Dict.{lookup}
use wevibe_bench.Proxy.Ledger.{fresh_ledger}
use wevibe_bench.Proxy.Server.{Server, actual_cost}
use wevibe_bench.Proxy.Server.Handler.{HttpRequest, decoded, Course, Config, handle_post}
use wevibe_bench.Proxy.Server.Settling.{holds_of}
use wevibe_bench.Proxy.Server.Holds.{handle_post-holds}
use wevibe_bench.Proxy.Server.Identity.{IsClosed, handle_all, handle_all-IsClosed}
use wevibe_bench.Proxy.Tests.Data.{micros, opus, client, calm, no_file}

abbrev config : Config ℤ
config = record {
  registry = ("opus", opus) ∷ [];
  profile_name = "opus";
  run_token = "token";
  max_tokens_cap = pos 32768;
  lower = λ s. s;
  compact = λ v. "{}";
}

-- The upstream reports fifty tokens in and two out, and no price.
abbrev answer : Fields
answer =
    field "usage"
      (obj (
        field "prompt_tokens" (int (pos 50))
          (field "completion_tokens" (int (pos 2)) (field "cost" (int (pos 3)) end))))
      end

abbrev course : Course
course = record {
  upstream = some (record { status = 200; lines = []; body = answer });
  reserving_at = calm;
  settling_at = calm;
  retaining_at = calm;
  failing_at = calm;
  relay_log_fails = false;
  settle_log_fails = false;
  answer_fails = false;
}

abbrev request : HttpRequest
request = record {
  path = "/api/v1/chat/completions";
  authorization = "bearer token";
  body = decoded (obj client);
  trace_id = "t1";
}

abbrev server : Server ℤ
unfolding fresh_ledger
server = record {
  books = record {
    ledger = fresh_ledger micros "r" "m" "p" (pos 20_000_000) none false false;
    disk = no_file;
  };
  ordinal = pos 0;
  proven_billed_input_ub = pos 0;
  identity_mismatch = none;
}

answered :
    let (reply, after) = handle_post micros config course request server in
    (reply.status ≡ 200)
    × (reply.settled ≡ actual_cost)
    × (after.books.ledger.accrued_actual ≡ pos 3_000_000)
    × (after.proven_billed_input_ub ≡ pos 4)
unfolding handle_post server ◌-ℤ◌
answered = (refl, refl, refl, refl)

handle_post-holds_example :
    holds_of micros (handle_post micros config course request server).1 ≡ holds_of micros server
unfolding fresh_ledger lookup
handle_post-holds_example =
    handle_post-holds micros config course request server refl (λ stage. refl)

abbrev closed : Server ℤ
closed = record server { identity_mismatch = some "other" }

handle_all-IsClosed_example :
    IsClosed micros "other" closed.books
      (handle_all micros config ((course, request) ∷ (course, request) ∷ []) closed)
handle_all-IsClosed_example =
    handle_all-IsClosed micros config ((course, request) ∷ (course, request) ∷ []) "other" closed
      refl
