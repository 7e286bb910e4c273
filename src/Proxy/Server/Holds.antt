-- ===== src/Proxy/Server/Holds.antt =====
-- What a request leaves on hold in the ledger.
use wevibe_bench.Prelude.{
  ◌≡◌, refl, Bool, true, false, none, List, String, ok, raise, Result-cases, Bool-cases,
  Option-cases, inl, inr,
}
use wevibe_bench.Prelude.Json.{Json, obj, Fields, get_or_none, truth}
use wevibe_bench.Prelude.Dict.{lookup, erase, erase-insert, string_eq}
use wevibe_bench.Cumulative.Files.{
  Disk, Stage, make_parent, create_temporary, write_text, flush, sync, replace, run_stages,
}
use wevibe_bench.Proxy.Errors.{budget_exceeded}
use wevibe_bench.Proxy.Double.{Double, at_least_nought}
use wevibe_bench.Proxy.Profile.{ProviderProfile, get_profile, runnable_reason}
use wevibe_bench.Proxy.Ledger.{Ledger, Books, Weather, persist, payload, persist_stages}
use wevibe_bench.Proxy.Ledger.Calls.{save, is_refused, with_hold, reserve}
use wevibe_bench.Proxy.Server.{Server}
use wevibe_bench.Proxy.Policy.{apply_policy}
use wevibe_bench.Proxy.Server.Handler.{
  Course, Config, HttpRequest, RequestBody, bad_length, not_json_body, decoded, admit, bound, shape,
  number, parse_body, handle_post,
}
use wevibe_bench.Proxy.Server.Settling.{holds_of, IsOpen, forward-holds}
use wevibe_bench.Proxy.Server.Entry.{handle_post_by_body}

module _ {W : Type 0} (fl : Double W) where
  module _ (id : String) (d : List (String × W)) (free : lookup id d ≡ none) where
    run_persist_stages_done :
        (fails : Stage → Bool) (v : Json) (disk : Disk)
        → ((stage : Stage) → fails stage ≡ false)
        → (run_stages fails v persist_stages disk).0 ≡ true
    unfolding run_stages
    run_persist_stages_done fails v disk calm =
        rw
          (
            calm make_parent,
            calm create_temporary,
            calm write_text,
            calm flush,
            calm sync,
            calm replace,
          )
          refl

    save_done :
        (weather : Weather) (l : Ledger W) (b : Books W)
        → ((stage : Stage) → weather.fails stage ≡ false)
        → (save fl weather l b).0 ≡ ok tt
    unfolding save persist
    save_done weather l b calm =
        rw (run_persist_stages_done weather.fails (obj (payload fl weather.now l)) b.disk calm) refl

    reserve_refused :
        (weather : Weather) (amount : W) (b : Books W)
        → is_refused fl b.ledger (at_least_nought fl amount) ≡ true
        → reserve fl weather id amount b ≡ (raise budget_exceeded, b)
    unfolding reserve
    reserve_refused weather amount b r = rw r refl

    reserve_passed :
        (weather : Weather) (amount : W) (b : Books W)
        → is_refused fl b.ledger (at_least_nought fl amount) ≡ false
        → reserve fl weather id amount b
          ≡ save fl weather (with_hold fl id (at_least_nought fl amount) b.ledger) b
    unfolding reserve
    reserve_passed weather amount b r = rw r refl

    hold-IsOpen :
        (x : W) (b : Books W)
        → b.ledger.outstanding ≡ d
        → erase id (with_hold fl id x b.ledger).outstanding ≡ d
    hold-IsOpen x b h = rw h (erase-insert id x d free)

    admit-holds :
        (config : Config W) (course : Course) (p : ProviderProfile W) (transformed : Fields)
        (s : Server W)
        → holds_of fl s ≡ d
        → ((stage : Stage) → course.reserving_at.fails stage ≡ false)
        → holds_of fl (admit fl config course id p transformed s).1 ≡ d
    unfolding admit
    admit-holds config course p transformed s h calm =
        elim (Result-cases (bound fl config p transformed s)) [
          | inr (e, raised) ↦ rw (raised, admit) h
          | inl ((n, amount), returned) ↦
              let x = at_least_nought fl amount in
              let l = s.books.ledger in
              elim (Bool-cases (is_refused fl l x)) [
                | inl r ↦
                    let refused = reserve_refused course.reserving_at amount s.books r in
                    rw (returned, admit, refused, refused) h
                | inr r ↦
                    let saved = save fl course.reserving_at (with_hold fl id x l) s.books in
                    let s' : Server W = record s { books = saved.1 } in
                    let done = save_done course.reserving_at (with_hold fl id x l) s.books calm in
                    let h' : IsOpen fl id d free s' = unfold save in hold-IsOpen x s.books h in
                    rw
                      (
                        returned,
                        admit,
                        reserve_passed course.reserving_at amount s.books r,
                        done,
                        reserve_passed course.reserving_at amount s.books r,
                      )
                      (forward-holds fl id d free course p
                        (truth (get_or_none "stream" transformed)) n s' h')
              ]
        ]

    shape-holds :
        (config : Config W) (course : Course) (client_body : Fields) (s : Server W)
        → holds_of fl s ≡ d
        → ((stage : Stage) → course.reserving_at.fails stage ≡ false)
        → holds_of fl (shape fl config course id client_body s).1 ≡ d
    unfolding shape
    shape-holds config course client_body s h calm =
        elim (Result-cases (get_profile config.registry config.profile_name)) [
          | inr (e, raised) ↦ rw (raised, shape) h
          | inl (p, found) ↦ elim (Option-cases s.identity_mismatch) [
            | inr (first, m) ↦ rw (found, m, shape) h
            | inl m ↦ elim (Option-cases (runnable_reason p)) [
              | inr (reason, r) ↦ rw (found, m, r, shape) h
              | inl r ↦ elim (Result-cases (apply_policy client_body p config.max_tokens_cap)) [
                | inr (e, raised) ↦ rw (found, m, r, raised, shape) h
                | inl (transformed, shaped) ↦
                    rw (found, m, r, shaped, shape)
                      (admit-holds config course p transformed s h calm)
              ]
            ]
          ]
        ]

    parse_body-holds :
        (config : Config W) (course : Course) (body : RequestBody) (s : Server W)
        → holds_of fl s ≡ d
        → ((stage : Stage) → course.reserving_at.fails stage ≡ false)
        → holds_of fl (parse_body fl config course id body s).1 ≡ d
    unfolding parse_body
    parse_body-holds config course bad_length s h calm = h
    parse_body-holds config course not_json_body s h calm = h
    parse_body-holds config course (decoded (obj body)) s h calm =
        shape-holds config course body (number fl s) h calm
    parse_body-holds config course (decoded _) s h calm = h

  -- A request whose trace id no request has on hold at its start, and whose reservation can be
  -- written, leaves exactly the holds of before, whatever it is answered and wherever it fails.
  pub handle_post-holds :
      (config : Config W) (course : Course) (request : HttpRequest) (s : Server W)
      → lookup request.trace_id (holds_of fl s) ≡ none
      → ((stage : Stage) → course.reserving_at.fails stage ≡ false)
      → holds_of fl (handle_post fl config course request s).1 ≡ holds_of fl s
  handle_post-holds config course request s free calm =
      handle_post_by_body fl (λ x. holds_of fl x.1 ≡ holds_of fl s) config course request s
        (λ _. refl)
        (parse_body-holds request.trace_id (holds_of fl s) free config course request.body s refl
          calm)
