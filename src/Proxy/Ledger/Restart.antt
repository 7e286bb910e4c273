-- ===== src/Proxy/Ledger/Restart.antt =====
-- The checkpoint that a ledger writes, and a ledger that is opened on it.
use wevibe_bench.Prelude.{
  ◌≡◌, refl, ap, ◌∙◌, Bool, true, List, [], ◌∷◌, String, arith, eq_refl, eq_iff, if◌then◌else◌,
  Bool-cases, inl, inr, Result, ok, raise, All,
}
use wevibe_bench.Prelude.Json.{Json, obj, Builtins, get, get_default, to_str, to_int}
use wevibe_bench.Cumulative.Files.{FileState, holds, Disk, Stage, run_stages, stage_effect}
use wevibe_bench.Proxy.Errors.{ProxyError, policy_mismatch}
use wevibe_bench.Proxy.Double.{Double, at_least_nought, to_float, Stores}
use wevibe_bench.Proxy.Ledger.{
  Ledger, Books, Weather, persist_stages, persist, payload, outstanding_fields, load_checkpoint,
  read_outstanding, read_kept, read_amount, schema_of, same_binding, open_ledger,
}
use wevibe_bench.Proxy.Ledger.Calls.{
  Request, reserving, actual, derived, unproven, apply, serve, save, is_refused, held, with_hold,
  with_actual, with_derived, with_unproven, reserve, settle_actual, settle_derived, retain_unproven,
}
use wevibe_bench.Proxy.Ledger.Amounts.{IsAmount, IsKept, apply-IsKept, apply_cap, serve_cap}

module _ {W : Type 0} (fl : Double W) (py : Builtins) where
  -- the configuration of a ledger, with nothing spent or held
  abbrev pub emptied : Ledger W → Ledger W
  emptied l = record l {
    accrued_actual = fl.literal 0 0;
    accrued_derived = fl.literal 0 0;
    committed_unproven = fl.literal 0 0;
    outstanding = [];
  }

  run_persist_stages :
      (fails : Stage → Bool) (v : Json) (d : Disk)
      → let (done, d') = run_stages fails v persist_stages d in
        d'.target ≡ (if done then holds v else d.target)
  unfolding run_stages stage_effect
  run_persist_stages fails v d = ground arith

  -- A call that returns has written its ledger; one that raises has left the file as it was.
  abbrev Recorded : Result ProxyError (Unit {0}) → Books W → FileState → Type 0
  Recorded result b old =
      (result ≡ ok tt → (now : String) × (b.disk.target ≡ holds (obj (payload fl now b.ledger))))
      × ((e : ProxyError) → result ≡ raise e → b.disk.target ≡ old)

  save-Recorded :
      (weather : Weather) (l : Ledger W) (b : Books W)
      → let (result, b') = save fl weather l b in Recorded result b' b.disk.target
  unfolding save persist
  save-Recorded weather l b =
      let v = obj (payload fl weather.now l) in
      let ran = run_persist_stages weather.fails v b.disk in
      elim (Bool-cases (run_stages weather.fails v persist_stages b.disk).0) [
        | inl done ↦
            let ran' = rw done at ran in rw done ((λ h. (weather.now, ran')), (λ e h. absurd (cc)))
        | inr failed ↦ let ran' = rw failed at ran in rw failed ((λ h. absurd (cc)), (λ e h. ran'))
      ]

  apply-Recorded :
      (r : Request W) (b : Books W) → Recorded (apply fl r b).0 (apply fl r b).1 b.disk.target
  unfolding apply reserve settle_actual settle_derived retain_unproven
  apply-Recorded (reserving w id x) b =
      elim (Bool-cases (is_refused fl b.ledger (at_least_nought fl x))) [
        | inl e ↦ rw e ((λ h. absurd (cc)), (λ _ h. refl))
        | inr e ↦ rw e (save-Recorded w (with_hold fl id (at_least_nought fl x) b.ledger) b)
      ]
  apply-Recorded (actual w id x) b =
      save-Recorded w (with_actual fl id (at_least_nought fl x) b.ledger) b
  apply-Recorded (derived w id x) b =
      save-Recorded w (with_derived fl id (at_least_nought fl x) b.ledger) b
  apply-Recorded (unproven w id) b =
      save-Recorded w
        (with_unproven fl id (at_least_nought fl (held fl id b.ledger.outstanding)) b.ledger) b

  open_ledger-holds :
      (weather : Weather) (l : Ledger W) (d : Disk) (v : Json)
      → d.target ≡ holds v
      → open_ledger fl py weather l d ≡ (load_checkpoint fl py (holds v) l, d)
  unfolding open_ledger
  open_ledger-holds weather l d v h = ground (arith)

  module _ (s : Stores fl) where
    to_float_written : (x : W) → to_float fl (fl.to_json x) ≡ ok x
    unfolding to_float
    to_float_written x = rw (to_float, s.of_json-to_json x) refl

    read_outstanding_written :
        (d : List (String × W))
        → All (λ p. IsAmount fl p.1) d
        → read_outstanding fl (outstanding_fields fl d) ≡ ok d
    unfolding read_outstanding
    read_outstanding_written [] h = refl
    read_outstanding_written ((id, x) ∷ d) h =
        rw (to_float_written x, read_outstanding_written d h.1, h.0) refl

    -- What a kept ledger writes, a ledger with the same binding reads back.
    load_checkpoint_written :
        (now : String) (l : Ledger W)
        → IsKept fl l
        → fl.eq l.hard_cap l.hard_cap ≡ true
        → load_checkpoint fl py (holds (obj (payload fl now l))) (emptied l) ≡ ok l
    unfolding load_checkpoint payload schema_of read_amount same_binding get_default get read_kept
        to_str to_int
    load_checkpoint_written now l k e =
        rw
          (
            to_float_written l.hard_cap,
            eq_refl l.run_id,
            eq_refl l.model_id,
            eq_refl l.profile_name,
            e,
            to_float_written l.accrued_actual,
            to_float_written l.accrued_derived,
            to_float_written l.committed_unproven,
            k.actual_kept,
            k.derived_kept,
            k.unproven_kept,
            read_outstanding_written l.outstanding k.holds_kept,
          )
          refl

    serve-IsKept :
        (rs : List (Request W)) (b : Books W)
        → IsKept fl b.ledger
        → IsKept fl (serve fl rs b).ledger
    unfolding serve
    serve-IsKept [] b k = k
    serve-IsKept (r ∷ rs) b k = serve-IsKept rs (apply fl r b).1 (apply-IsKept fl s r b k)

    -- A ledger whose amounts are not negative serves any calls, and then one more. If that call
    -- returns, a proxy that starts on the file with the same arguments has the same ledger, and leaves
    -- the file; if it raises, the file is as the calls before left it. The hard cap is no NaN.
    pub serve_restart :
        (rs : List (Request W)) (r : Request W) (b : Books W) (weather : Weather)
        → IsKept fl b.ledger
        → fl.eq b.ledger.hard_cap b.ledger.hard_cap ≡ true
        → let before = serve fl rs b in
          let (result, after) = apply fl r before in
          (result ≡ ok tt
            → open_ledger fl py weather (emptied after.ledger) after.disk
              ≡ (ok after.ledger, after.disk))
          × ((e : ProxyError) → result ≡ raise e → after.disk.target ≡ before.disk.target)
    serve_restart rs r b weather k e =
        let before = serve fl rs b in
        let after = (apply fl r before).1 in
        let (saved, left) = apply-Recorded r before in
        (
          λ h.
              let (now, written) = saved h in
              open_ledger-holds weather (emptied after.ledger) after.disk
                (obj (payload fl now after.ledger)) written
              ∙ ap (λ (x : Result ProxyError (Ledger W)). (x, after.disk))
                  (load_checkpoint_written now after.ledger
                    (apply-IsKept fl s r before (serve-IsKept rs b k))
                    (rw (apply_cap fl r before, serve_cap fl rs b) e)),
          left,
        )

    -- whether two ledgers are of the same run, model, profile and cap
    abbrev pub IsSameBinding : Ledger W → Ledger W → Type 0
    IsSameBinding l k =
        (l.run_id ≡ k.run_id)
        × (l.model_id ≡ k.model_id)
        × (l.profile_name ≡ k.profile_name)
        × (fl.eq l.hard_cap k.hard_cap ≡ true)

    same_binding_sound :
        (now : String) (l k : Ledger W)
        → same_binding fl py (payload fl now l) l.hard_cap k ≡ true
        → IsSameBinding l k
    unfolding same_binding payload get_default get to_str
    same_binding_sound now l k h = ground (
      arith,
      eq_iff l.run_id k.run_id,
      eq_iff l.model_id k.model_id,
      eq_iff l.profile_name k.profile_name,
    )

    -- A proxy refuses to start on a checkpoint that another run, model, profile or cap has written,
    -- and leaves the file as it is.
    pub open_ledger_refuses :
        (weather : Weather) (now : String) (l k : Ledger W) (d : Disk)
        → d.target ≡ holds (obj (payload fl now l))
        → ¬ IsSameBinding l k
        → open_ledger fl py weather k d ≡ (raise (policy_mismatch "policy_mismatch"), d)
    unfolding load_checkpoint payload schema_of read_amount get_default get to_int
    open_ledger_refuses weather now l k d h other =
        elim (Bool-cases (same_binding fl py (payload fl now l) l.hard_cap k)) [
          | inl e ↦ absurd (other (same_binding_sound now l k e))
          | inr e ↦
              open_ledger-holds weather k d (obj (payload fl now l)) h
              ∙ ap (λ (x : Result ProxyError (Ledger W)). (x, d))
                  (rw (to_float_written l.hard_cap, e) refl)
        ]
