-- ===== src/Proxy/Ledger/Amounts.antt =====
-- The amounts that a ledger keeps are never negative, and its cap stays.
use wevibe_bench.Prelude.{◌≡◌, refl, ◌∙◌, List, [], ◌∷◌, String, arith, All, Bool-cases, inl, inr}
use wevibe_bench.Prelude.Dict.{lookup, insert, erase, string_eq}
use wevibe_bench.Proxy.Double.{Double, nought, at_least_nought, Stores}
use wevibe_bench.Proxy.Ledger.{Ledger, Books}
use wevibe_bench.Proxy.Ledger.Calls.{
  is_refused, save, reserve, settle_actual, settle_derived, held, retain_unproven, Request,
  reserving, actual, derived, unproven, apply, serve,
}

module _ {W : Type 0} (fl : Double W) where
  -- The amounts that are kept are not negative.
  abbrev pub IsAmount : W → Type 0
  IsAmount x = at_least_nought fl x ≡ x

  pub record IsKept (l : Ledger W) : Type 0 where
    pub actual_kept : IsAmount l.accrued_actual
    pub derived_kept : IsAmount l.accrued_derived
    pub unproven_kept : IsAmount l.committed_unproven
    pub holds_kept : All (λ p. IsAmount p.1) l.outstanding

  pub at_least_nought-IsAmount : (x : W) → IsAmount (at_least_nought fl x)
  at_least_nought-IsAmount x = ground (arith)

  pub nought-IsAmount : IsAmount (nought fl)
  nought-IsAmount = ground (arith)

  -- What holds of each amount on hold.
  module _ (P : W → Type 0) where
    pub insert-All :
        (k : String) (x : W) (d : List (String × W))
        → P x
        → All (λ p. P p.1) d
        → All (λ p. P p.1) (insert k x d)
    unfolding insert
    insert-All k x [] h hs = (h, tt)
    insert-All k x ((j, y) ∷ d) h hs = elim (Bool-cases (string_eq.beq j k)) [
      | inl e ↦ rw e (h, hs.1)
      | inr e ↦ rw e (hs.0, insert-All k x d h hs.1)
    ]

    pub erase-All :
        (k : String) (d : List (String × W)) → All (λ p. P p.1) d → All (λ p. P p.1) (erase k d)
    unfolding erase
    erase-All k [] hs = tt
    erase-All k ((j, y) ∷ d) hs = elim (Bool-cases (string_eq.beq j k)) [
      | inl e ↦ rw e hs.1
      | inr e ↦ rw e (hs.0, erase-All k d hs.1)
    ]

    pub held-All :
        P (nought fl) → (k : String) (d : List (String × W)) → All (λ p. P p.1) d → P (held fl k d)
    unfolding held lookup
    held-All z k [] hs = z
    held-All z k ((j, y) ∷ d) hs = elim (Bool-cases (string_eq.beq j k)) [
      | inl e ↦ rw (e, held) hs.0
      | inr e ↦ rw (e, held) (held-All z k d hs.1)
    ]

  -- Every call leaves amounts that are not negative.
  pub apply-IsKept :
      Stores fl → (r : Request W) (b : Books W) → IsKept b.ledger → IsKept (apply fl r b).1.ledger
  unfolding apply reserve settle_actual settle_derived retain_unproven save
  apply-IsKept s (reserving w id x) b h =
      elim (Bool-cases (is_refused fl b.ledger (at_least_nought fl x))) [
        | inl e ↦ rw e h
        | inr e ↦ rw e (record {
          actual_kept = h.actual_kept;
          derived_kept = h.derived_kept;
          unproven_kept = h.unproven_kept;
          holds_kept =
              insert-All IsAmount id (at_least_nought fl x) b.ledger.outstanding
                (at_least_nought-IsAmount x) h.holds_kept;
        })
      ]
  apply-IsKept s (actual w id x) b h = record {
    actual_kept =
        s.at_least_nought-add b.ledger.accrued_actual (at_least_nought fl x) h.actual_kept
          (at_least_nought-IsAmount x);
    derived_kept = h.derived_kept;
    unproven_kept = h.unproven_kept;
    holds_kept = erase-All IsAmount id b.ledger.outstanding h.holds_kept;
  }
  apply-IsKept s (derived w id x) b h = record {
    actual_kept = h.actual_kept;
    derived_kept =
        s.at_least_nought-add b.ledger.accrued_derived (at_least_nought fl x) h.derived_kept
          (at_least_nought-IsAmount x);
    unproven_kept = h.unproven_kept;
    holds_kept = erase-All IsAmount id b.ledger.outstanding h.holds_kept;
  }
  apply-IsKept s (unproven w id) b h = record {
    actual_kept = h.actual_kept;
    derived_kept = h.derived_kept;
    unproven_kept =
        s.at_least_nought-add b.ledger.committed_unproven
          (at_least_nought fl (held fl id b.ledger.outstanding)) h.unproven_kept
          (at_least_nought-IsAmount (held fl id b.ledger.outstanding));
    holds_kept = erase-All IsAmount id b.ledger.outstanding h.holds_kept;
  }

  -- No call changes the cap, or whether it is enforced.
  pub apply_cap :
      (r : Request W) (b : Books W) → (apply fl r b).1.ledger.hard_cap ≡ b.ledger.hard_cap
  unfolding apply reserve settle_actual settle_derived retain_unproven save
  apply_cap (reserving w id x) b = ground arith
  apply_cap (actual w id x) b = refl
  apply_cap (derived w id x) b = refl
  apply_cap (unproven w id) b = refl

  pub serve_cap :
      (rs : List (Request W)) (b : Books W) → (serve fl rs b).ledger.hard_cap ≡ b.ledger.hard_cap
  unfolding serve
  serve_cap [] b = refl
  serve_cap (r ∷ rs) b = serve_cap rs (apply fl r b).1 ∙ apply_cap r b

  pub apply_watch :
      (r : Request W) (b : Books W) → (apply fl r b).1.ledger.watch_only ≡ b.ledger.watch_only
  unfolding apply reserve settle_actual settle_derived retain_unproven save
  apply_watch (reserving w id x) b = ground arith
  apply_watch (actual w id x) b = refl
  apply_watch (derived w id x) b = refl
  apply_watch (unproven w id) b = refl
