-- ===== src/Proxy/Ledger/Conservation.antt =====
-- What a call of the ledger moves between holds and what is spent or kept as unproven.
use wevibe_bench.Prelude.{◌≡◌, refl, if◌then◌else◌, Bool-cases, inl, inr}
use wevibe_bench.Prelude.Int.{◌+ℤ◌, ◌≤ℤ◌, int_laws, parts_of_eq}
use wevibe_bench.Prelude.Dict.{string_eq}
use wevibe_bench.Proxy.Double.{Double, nought, at_least_nought, CountsUnits}
use wevibe_bench.Proxy.Ledger.{Books}
use wevibe_bench.Proxy.Ledger.Calls.{
  committed, is_refused, save, reserve, settle_actual, settle_derived, held, retain_unproven,
  Request, reserving, actual, derived, unproven, apply,
}
use wevibe_bench.Proxy.Ledger.Amounts.{
  IsAmount, IsKept, nought-IsAmount, insert-All, erase-All, held-All,
}
use wevibe_bench.Proxy.Ledger.Units.{
  in_units, insert-total, erase-total, Counts, AllCount, nought-Counts, exact, total_nonneg,
  add-Counts, committed-exact,
}

module _ {W : Type 0} (fl : Double W) (c : CountsUnits fl) where
  -- what a call takes off the holds, and what it books for it
  abbrev pub released : Request W → Books W → W
  released (reserving w id x) b =
      if is_refused fl b.ledger (at_least_nought fl x)
      then nought fl
      else held fl id b.ledger.outstanding
  released (actual w id x) b = held fl id b.ledger.outstanding
  released (derived w id x) b = held fl id b.ledger.outstanding
  released (unproven w id) b = held fl id b.ledger.outstanding

  abbrev pub booked : Request W → Books W → W
  booked (reserving w id x) b =
      if is_refused fl b.ledger (at_least_nought fl x) then nought fl else at_least_nought fl x
  booked (actual w id x) b = at_least_nought fl x
  booked (derived w id x) b = at_least_nought fl x
  booked (unproven w id) b = held fl id b.ledger.outstanding

  released-Counts :
      (r : Request W) (b : Books W) → AllCount fl c b.ledger → Counts fl c (released r b)
  released-Counts (reserving w id x) b h =
      let on_hold =
        held-All fl (Counts fl c) (nought-Counts fl c) id b.ledger.outstanding h.holds_count in
      elim (Bool-cases (is_refused fl b.ledger (at_least_nought fl x))) [
        | inl e ↦ rw e (nought-Counts fl c)
        | inr e ↦ rw e on_hold
      ]
  released-Counts (actual w id x) b h =
      held-All fl (Counts fl c) (nought-Counts fl c) id b.ledger.outstanding h.holds_count
  released-Counts (derived w id x) b h =
      held-All fl (Counts fl c) (nought-Counts fl c) id b.ledger.outstanding h.holds_count
  released-Counts (unproven w id) b h =
      held-All fl (Counts fl c) (nought-Counts fl c) id b.ledger.outstanding h.holds_count

  -- What a call makes of the ledger, in units.
  pub apply-exact :
      (r : Request W) (b : Books W)
      → IsKept fl b.ledger
      → AllCount fl c b.ledger
      → Counts fl c (booked r b)
      → exact fl c b.ledger +ℤ in_units fl c (booked r b) ≤ℤ c.limit
      → AllCount fl c (apply fl r b).1.ledger
        × (exact fl c (apply fl r b).1.ledger +ℤ in_units fl c (released r b)
            ≡ exact fl c b.ledger +ℤ in_units fl c (booked r b))
  unfolding apply reserve settle_actual settle_derived retain_unproven save
  apply-exact (reserving w id x) b k h y room =
      elim (Bool-cases (is_refused fl b.ledger (at_least_nought fl x))) [
        | inl e ↦ rw e (h, refl)
        | inr e ↦
            let y' = rw e at y in
            let l = b.ledger in
            let moved =
              parts_of_eq _ _ (insert-total fl c id (at_least_nought fl x) l.outstanding) in
            rw e (
              record {
                actual_counts = h.actual_counts;
                derived_counts = h.derived_counts;
                unproven_counts = h.unproven_counts;
                holds_count =
                    insert-All fl (Counts fl c) id (at_least_nought fl x) l.outstanding y'
                      h.holds_count;
              },
              omega int_laws,
            )
      ]
  apply-exact (actual w id x) b k h y room =
      let l = b.ledger in
      let moved = parts_of_eq _ _ (erase-total fl c id l.outstanding) in
      let t = total_nonneg fl c l.outstanding h.holds_count in
      let (k1, e1) =
        add-Counts fl c l.accrued_actual (at_least_nought fl x) h.actual_counts y
          (omega (int_laws, h.derived_counts.1, h.unproven_counts.1, t)) in
      (
        record {
          actual_counts = k1;
          derived_counts = h.derived_counts;
          unproven_counts = h.unproven_counts;
          holds_count = erase-All fl (Counts fl c) id l.outstanding h.holds_count;
        },
        rw e1 (omega int_laws),
      )
  apply-exact (derived w id x) b k h y room =
      let l = b.ledger in
      let moved = parts_of_eq _ _ (erase-total fl c id l.outstanding) in
      let t = total_nonneg fl c l.outstanding h.holds_count in
      let (k1, e1) =
        add-Counts fl c l.accrued_derived (at_least_nought fl x) h.derived_counts y
          (omega (int_laws, h.actual_counts.1, h.unproven_counts.1, t)) in
      (
        record {
          actual_counts = h.actual_counts;
          derived_counts = k1;
          unproven_counts = h.unproven_counts;
          holds_count = erase-All fl (Counts fl c) id l.outstanding h.holds_count;
        },
        rw e1 (omega int_laws),
      )
  apply-exact (unproven w id) b k h y room =
      let l = b.ledger in
      let moved = parts_of_eq _ _ (erase-total fl c id l.outstanding) in
      let t = total_nonneg fl c l.outstanding h.holds_count in
      let same = held-All fl (IsAmount fl) (nought-IsAmount fl) id l.outstanding k.holds_kept in
      let (k1, e1) =
        add-Counts fl c l.committed_unproven (held fl id l.outstanding) h.unproven_counts y
          (omega (int_laws, h.actual_counts.1, h.derived_counts.1, t)) in
      (
        record {
          actual_counts = h.actual_counts;
          derived_counts = h.derived_counts;
          unproven_counts = rw same k1;
          holds_count = erase-All fl (Counts fl c) id l.outstanding h.holds_count;
        },
        rw (same, e1) (omega int_laws),
      )

  -- On a ledger whose amounts are whole units and not negative, if what the call books is so, too,
  -- and fits within the limit up to which such sums are exact: the call replaces the hold of its
  -- request by what it books, in the sum that `reserve` compares with the cap. That is the amount
  -- that it reserves or settles, or the hold itself if it is unproven. A refused reservation
  -- leaves the sum as it is.
  pub apply_balance :
      (r : Request W) (b : Books W)
      → IsKept fl b.ledger
      → AllCount fl c b.ledger
      → Counts fl c (booked r b)
      → exact fl c b.ledger +ℤ in_units fl c (booked r b) ≤ℤ c.limit
      → in_units fl c (committed fl (apply fl r b).1.ledger) +ℤ in_units fl c (released r b)
        ≡ in_units fl c (committed fl b.ledger) +ℤ in_units fl c (booked r b)
  apply_balance r b k h y room =
      let (h', moved) = apply-exact r b k h y room in
      let moved' = parts_of_eq _ _ moved in
      let freed = released-Counts r b h in
      let before = committed-exact fl c b.ledger h (omega (int_laws, y.1)) in
      let after = committed-exact fl c (apply fl r b).1.ledger h' (omega (int_laws, freed.1)) in
      rw (before.1, after.1) moved
