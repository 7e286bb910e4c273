-- ===== src/Proxy/Server/Settling.antt =====
-- The hold of a reserved request, along each way in which it ends.
use wevibe_bench.Prelude.{
  ℕ, ◌≡◌, refl, ◌∙◌, Bool, false, Option, none, some, List, [], ◌∷◌, String, arith, Result-cases,
  Bool-cases, Option-cases, inl, inr,
}
use wevibe_bench.Prelude.Int.{ℤ}
use wevibe_bench.Prelude.Json.{Fields, get_or_none}
use wevibe_bench.Prelude.Dict.{lookup, erase, erase_absent, string_eq}
use wevibe_bench.Proxy.Double.{Double}
use wevibe_bench.Proxy.Profile.{ProviderProfile}
use wevibe_bench.Proxy.Ledger.{Weather}
use wevibe_bench.Proxy.Ledger.Calls.{save, settle_actual, settle_derived, retain_unproven}
use wevibe_bench.Proxy.Server.{
  Server, UsageEvidence, no_usage, usage_evidence, check_upstream_identity, check_answer,
  record_billed, retain, finalize_retained, finalize_derived, finalize_reservation, derived_total,
}
use wevibe_bench.Proxy.Server.Handler.{Course, fail_reserved, relay, settle, forward, merge}

module _ {W : Type 0} (fl : Double W) where
  abbrev pub holds_of : Server W → List (String × W)
  holds_of s = s.books.ledger.outstanding

  module _ (id : String) (d : List (String × W)) (free : lookup id d ≡ none) where
    -- Besides a hold of the request, if there is one, the holds are these.
    abbrev pub IsOpen : Server W → Type 0
    IsOpen s = erase id (holds_of s) ≡ d

    IsOpen-of_eq : (s : Server W) → holds_of s ≡ d → IsOpen s
    IsOpen-of_eq s h = rw h (erase_absent id d free)

    record_billed-holds : (n : ℤ) (s : Server W) → holds_of (record_billed n s) ≡ holds_of s
    unfolding record_billed
    record_billed-holds n s = ground arith

    retain-holds : (w : Weather) (s : Server W) → IsOpen s → holds_of (retain fl w id s).1 ≡ d
    unfolding retain retain_unproven save
    retain-holds w s h = h

    finalize_retained-holds :
        (w : Weather) (s : Server W) → IsOpen s → holds_of (finalize_retained fl w id s).1 ≡ d
    unfolding finalize_retained
    finalize_retained-holds w s h = retain-holds w s h

    finalize_derived-holds :
        (v w : Weather) (log_fails : Bool) (cost : W) (n : ℤ) (s : Server W)
        → IsOpen s
        → holds_of (finalize_derived fl v w log_fails id cost n s).1 ≡ d
    unfolding finalize_derived
    finalize_derived-holds v w log_fails cost n s h =
        let b = (settle_derived fl v id cost s.books).1 in
        let s' : Server W = record s { books = b } in
        let done : holds_of s' ≡ d = unfold settle_derived save in h in
        let again = finalize_retained-holds w s' (IsOpen-of_eq s' done) in
        elim (Result-cases (settle_derived fl v id cost s.books).0) [
          | inr (e, raised) ↦ rw (raised, finalize_derived) again
          | inl (u, returned) ↦ elim (Bool-cases log_fails) [
            | inl l ↦ rw (returned, l, finalize_derived) again
            | inr l ↦ rw (returned, l, finalize_derived) (record_billed-holds n s' ∙ done)
          ]
        ]

    finalize_reservation-holds :
        (v w : Weather) (log_fails : Bool) (cost : Option W) (p : ProviderProfile W)
        (usage : UsageEvidence W) (n : ℤ) (s : Server W)
        → IsOpen s
        → holds_of (finalize_reservation fl v w log_fails id cost p usage n s).1 ≡ d
    unfolding finalize_reservation
    finalize_reservation-holds v w log_fails (some cost) p usage n s h =
        let b = (settle_actual fl v id cost s.books).1 in
        let s' : Server W = record s { books = b } in
        let done : holds_of s' ≡ d = unfold settle_actual save in h in
        elim (Result-cases (settle_actual fl v id cost s.books).0) [
          | inr (e, raised) ↦ rw (raised, finalize_reservation) done
          | inl (u, returned) ↦
              rw (returned, finalize_reservation) (record_billed-holds n s' ∙ done)
        ]
    finalize_reservation-holds v w log_fails none p usage n s h =
        elim (Option-cases (derived_total fl p usage)) [
          | inl e ↦ rw (e, finalize_reservation) (finalize_retained-holds w s h)
          | inr (cost, e) ↦
              rw (e, finalize_reservation) (finalize_derived-holds v w log_fails cost n s h)
        ]

    fail_reserved-holds :
        (course : Course) (s : Server W) → IsOpen s → holds_of (fail_reserved fl course id s).1 ≡ d
    unfolding fail_reserved
    fail_reserved-holds course s h = retain-holds course.failing_at s h

    settle-holds :
        (course : Course) (p : ProviderProfile W) (usage : UsageEvidence W) (n : ℤ) (status : ℕ)
        (answer_fails : Bool) (s : Server W)
        → IsOpen s
        → holds_of (settle fl course id p usage n status answer_fails s).1 ≡ d
    unfolding settle
    settle-holds course p usage n status answer_fails s h =
        let final =
          finalize_reservation fl course.settling_at course.retaining_at course.settle_log_fails id
            usage.cost p usage n s in
        let done =
          finalize_reservation-holds course.settling_at course.retaining_at course.settle_log_fails
            usage.cost p usage n s h in
        elim (Result-cases final.0) [
          | inr (e, raised) ↦
              rw (raised, settle) (fail_reserved-holds course final.1 (IsOpen-of_eq final.1 done))
          | inl (u, returned) ↦ elim (Bool-cases answer_fails) [
            | inl a ↦ rw (returned, a, settle) done
            | inr a ↦ rw (returned, a, settle) done
          ]
        ]

    check_answer-books :
        (p : ProviderProfile W) (answer : Fields) (s : Server W)
        → (check_answer p answer s).books ≡ s.books
    unfolding check_answer check_upstream_identity
    check_answer-books p answer s = ground arith

    relay-books :
        (p : ProviderProfile W) (lines : List (Option Fields)) (seen : UsageEvidence W)
        (s : Server W)
        → (relay fl p lines seen s).1.books ≡ s.books
    unfolding relay
    relay-books p [] seen s = refl
    relay-books p (none ∷ lines) seen s = relay-books p lines seen s
    relay-books p (some answer ∷ lines) seen s =
        let s' = check_answer p answer s in
        let same = check_answer-books p answer s in
        elim (Result-cases (usage_evidence fl (get_or_none "usage" answer))) [
          | inr (e, raised) ↦ rw (raised, relay) same
          | inl (ev, returned) ↦
              rw (returned, relay) (relay-books p lines (merge fl seen ev) s' ∙ same)
        ]

    IsOpen-of_books : (s s' : Server W) → s'.books ≡ s.books → IsOpen s → IsOpen s'
    IsOpen-of_books s s' same h = rw same h

    pub forward-holds :
        (course : Course) (p : ProviderProfile W) (stream : Bool) (n : ℤ) (s : Server W)
        → IsOpen s
        → holds_of (forward fl course id p stream n s).1 ≡ d
    unfolding forward
    forward-holds course p stream n s h = elim (Option-cases course.upstream) [
      | inl e ↦ rw (e, forward) (fail_reserved-holds course s h)
      | inr (response, e) ↦ elim (Bool-cases stream) [
        | inl b ↦
            let ran = relay fl p response.lines no_usage s in
            let h' = IsOpen-of_books s ran.1 (relay-books p response.lines no_usage s) h in
            elim (Bool-cases course.relay_log_fails) [
              | inl l ↦ rw (e, b, l, forward) (fail_reserved-holds course ran.1 h')
              | inr l ↦
                  rw (e, b, l, forward)
                    (settle-holds course p ran.0 n response.status false ran.1 h')
            ]
        | inr b ↦
            let s' = check_answer p response.body s in
            let h' = IsOpen-of_books s s' (check_answer-books p response.body s) h in
            elim (Result-cases (usage_evidence fl (get_or_none "usage" response.body))) [
              | inr (x, raised) ↦ rw (e, b, raised, forward) (fail_reserved-holds course s' h')
              | inl (ev, returned) ↦
                  rw (e, b, returned, forward)
                    (settle-holds course p ev n response.status course.answer_fails s' h')
            ]
      ]
    ]
