-- ===== src/Proxy/Ledger/Cap.antt =====
-- The hard cap, and what is spent, may have been spent, or is on hold.
use wevibe_bench.Prelude.{
  ◌≡◌, refl, ◌∙◌, Bool, true, false, Option, List, [], ◌∷◌, String, arith, Bool-cases, inl, inr,
}
use wevibe_bench.Prelude.Int.{◌+ℤ◌, ◌≤ℤ◌, int_laws, parts_of_eq}
use wevibe_bench.Proxy.Double.{Double, at_least_nought, min_of, Stores, CountsUnits}
use wevibe_bench.Cumulative.Files.{Disk}
use wevibe_bench.Proxy.Ledger.{Ledger, Books, fresh_ledger, absolute_max_usd}
use wevibe_bench.Proxy.Ledger.Calls.{
  committed, is_over, is_refused, held, Request, reserving, actual, derived, unproven, apply, serve,
}
use wevibe_bench.Proxy.Ledger.Amounts.{
  IsKept, nought-IsAmount, held-All, apply-IsKept, apply_cap, apply_watch,
}
use wevibe_bench.Proxy.Ledger.Units.{
  Counts, AllCount, nought-Counts, exact, held_within, add-Counts, committed-exact, le_of_units,
  units_of_le, units_of_not_lt, units_of_not_le,
}
use wevibe_bench.Proxy.Ledger.Conservation.{released, booked, apply-exact}

module _ {W : Type 0} (fl : Double W) (s : Stores fl) (c : CountsUnits fl) where
  -- What a call adds is in whole units: a reservation is small enough that its sum with the cap is
  -- exact, and a settlement is at most the hold of its request.
  abbrev pub IsCovered : Request W → Books W → Type 0
  IsCovered (reserving w id x) b =
      Counts fl c (at_least_nought fl x)
      × (c.units b.ledger.hard_cap +ℤ c.units (at_least_nought fl x) ≤ℤ c.limit)
  IsCovered (actual w id x) b =
      Counts fl c (at_least_nought fl x)
      × (fl.le (at_least_nought fl x) (held fl id b.ledger.outstanding) ≡ true)
  IsCovered (derived w id x) b =
      Counts fl c (at_least_nought fl x)
      × (fl.le (at_least_nought fl x) (held fl id b.ledger.outstanding) ≡ true)
  IsCovered (unproven w id) b = Unit

  abbrev pub AllCovered : List (Request W) → Books W → Type 0
  AllCovered [] b = Unit
  AllCovered (r ∷ rs) b = IsCovered r b × AllCovered rs (apply fl r b).1

  -- An amount twice which is a sum that is exact.
  abbrev pub IsExactTwice : W → Type 0
  IsExactTwice x = Counts fl c x × (c.units x +ℤ c.units x ≤ℤ c.limit)

  -- A ledger that keeps within a hard cap, and enforces it.
  pub record IsSolvent (cap : W) (l : Ledger W) : Type 0 where
    pub kept : IsKept fl l
    pub counted : AllCount fl c l
    pub capped : l.hard_cap ≡ cap
    pub enforced : l.watch_only ≡ false
    pub room : exact fl c l ≤ℤ c.units cap

  -- what `is_over` lets pass is within the cap
  not_over :
      (l : Ledger W) (x : W)
      → Counts fl c l.hard_cap
      → Counts fl c x
      → is_over fl l x ≡ false
      → c.units x ≤ℤ c.units l.hard_cap
  not_over l x i j h = elim (Bool-cases l.reject_on_equality) [
    | inl e ↦
        let h' : fl.le l.hard_cap x ≡ false = rw e at h in units_of_not_le fl c l.hard_cap x i j h'
    | inr e ↦
        let h' : fl.lt l.hard_cap x ≡ false = rw e at h in units_of_not_lt fl c l.hard_cap x i j h'
  ]

  not_over_of_not_refused :
      (l : Ledger W) (x : W)
      → l.watch_only ≡ false
      → is_refused fl l x ≡ false
      → is_over fl l (fl.add (committed fl l) x) ≡ false
  not_over_of_not_refused l x e h = elim (Bool-cases (is_over fl l (fl.add (committed fl l) x))) [
    | inl o ↦ let h' : true ≡ false = rw (o, e) at h in cc
    | inr o ↦ o
  ]

  -- a reservation that is let through is within the cap
  admitted :
      (l : Ledger W) (y : W)
      → IsSolvent l.hard_cap l
      → IsExactTwice l.hard_cap
      → Counts fl c y
      → c.units l.hard_cap +ℤ c.units y ≤ℤ c.limit
      → is_refused fl l y ≡ false
      → exact fl c l +ℤ c.units y ≤ℤ c.units l.hard_cap
  admitted l y h twice i small e =
      let (k, eq) =
        committed-exact fl c l h.counted (omega (int_laws, h.room, twice.0.1, twice.1)) in
      let p = parts_of_eq _ _ eq in
      let (k', eq') = add-Counts fl c (committed fl l) y k i (omega (int_laws, h.room, small)) in
      let p' = parts_of_eq _ _ eq' in
      let passed =
        not_over l (fl.add (committed fl l) y) twice.0 k'
          (not_over_of_not_refused l y h.enforced e) in
      omega int_laws

  -- what a call books is in whole units that fit, behind what it releases
  record Fits (r : Request W) (b : Books W) : Type 0 where
    counts : Counts fl c (booked fl c r b)
    small : exact fl c b.ledger +ℤ c.units (booked fl c r b) ≤ℤ c.limit
    room :
        exact fl c b.ledger +ℤ c.units (booked fl c r b)
        ≤ℤ c.units b.ledger.hard_cap +ℤ c.units (released fl c r b)

  -- a settlement
  settled :
      (l : Ledger W) (id : String) (y : W)
      → IsSolvent l.hard_cap l
      → IsExactTwice l.hard_cap
      → Counts fl c y
      → c.units y ≤ℤ c.units (held fl id l.outstanding)
      → (exact fl c l +ℤ c.units y ≤ℤ c.limit)
        × (exact fl c l +ℤ c.units y ≤ℤ c.units l.hard_cap +ℤ c.units (held fl id l.outstanding))
  settled l id y h twice i v =
      let part = held_within fl c id l h.counted in
      (omega (int_laws, h.room, twice.1), omega (int_laws, h.room))

  fits :
      (r : Request W) (b : Books W)
      → IsSolvent b.ledger.hard_cap b.ledger
      → IsExactTwice b.ledger.hard_cap
      → IsCovered r b
      → Fits r b
  fits (reserving w id x) b h twice v =
      let y = at_least_nought fl x in
      let on_hold =
        held-All fl (Counts fl c) (nought-Counts fl c) id b.ledger.outstanding
          h.counted.holds_count in
      let none = parts_of_eq _ _ c.units-nought in
      elim (Bool-cases (is_refused fl b.ledger y)) [
        | inl e ↦ record {
          counts = rw e (nought-Counts fl c);
          small = rw e (omega (int_laws, h.room, twice.0.1, twice.1));
          room = rw e (omega (int_laws, h.room));
        }
        | inr e ↦
            let within = admitted b.ledger y h twice v.0 v.1 e in
            record {
              counts = rw e v.0;
              small = rw e (omega (int_laws, within, twice.0.1, twice.1));
              room = rw e (omega (int_laws, within, on_hold.1));
            }
      ]
  fits (actual w id x) b h twice v =
      let on_hold =
        held-All fl (Counts fl c) (nought-Counts fl c) id b.ledger.outstanding
          h.counted.holds_count in
      let (small, room) = settled b.ledger id (at_least_nought fl x) h twice v.0 (
        units_of_le fl c (at_least_nought fl x) (held fl id b.ledger.outstanding) v.0 on_hold
          v.1) in
      record { counts = v.0; small = small; room = room }
  fits (derived w id x) b h twice v =
      let on_hold =
        held-All fl (Counts fl c) (nought-Counts fl c) id b.ledger.outstanding
          h.counted.holds_count in
      let (small, room) = settled b.ledger id (at_least_nought fl x) h twice v.0 (
        units_of_le fl c (at_least_nought fl x) (held fl id b.ledger.outstanding) v.0 on_hold
          v.1) in
      record { counts = v.0; small = small; room = room }
  fits (unproven w id) b h twice v =
      let on_hold =
        held-All fl (Counts fl c) (nought-Counts fl c) id b.ledger.outstanding
          h.counted.holds_count in
      let (small, room) =
        settled b.ledger id (held fl id b.ledger.outstanding) h twice on_hold (omega arith) in
      record { counts = on_hold; small = small; room = room }

  apply-IsSolvent :
      (r : Request W) (b : Books W) (cap : W)
      → IsExactTwice cap
      → IsSolvent cap b.ledger
      → IsCovered r b
      → IsSolvent cap (apply fl r b).1.ledger
  apply-IsSolvent r b cap twice h v =
      let own : IsSolvent b.ledger.hard_cap b.ledger = record {
        kept = h.kept;
        counted = h.counted;
        capped = refl;
        enforced = h.enforced;
        room = rw h.capped h.room;
      } in
      let fit = fits r b own (rw h.capped twice) v in
      let (counted, eq) = apply-exact fl c r b h.kept h.counted fit.counts fit.small in
      let moved = parts_of_eq _ _ eq in
      record {
        kept = apply-IsKept fl s r b h.kept;
        counted = counted;
        capped = apply_cap fl r b ∙ h.capped;
        enforced = apply_watch fl r b ∙ h.enforced;
        room = rw (← h.capped) (omega (int_laws, fit.room, moved));
      }

  serve-IsSolvent :
      (rs : List (Request W)) (b : Books W) (cap : W)
      → IsExactTwice cap
      → IsSolvent cap b.ledger
      → AllCovered rs b
      → IsSolvent cap (serve fl rs b).ledger
  unfolding serve
  serve-IsSolvent [] b cap twice h v = h
  serve-IsSolvent (r ∷ rs) b cap twice h v =
      serve-IsSolvent rs (apply fl r b).1 cap twice (apply-IsSolvent r b cap twice h v.0) v.1

  -- a cap that is cut to an amount that is exact twice is so, too
  min_of-IsExactTwice :
      (x y : W)
      → Counts fl c x
      → IsExactTwice y
      → IsExactTwice (min_of fl x y) × (fl.le (min_of fl x y) y ≡ true)
  min_of-IsExactTwice x y i twice = elim (Bool-cases (fl.lt y x)) [
    | inl e ↦ rw e (twice, le_of_units fl c y y twice.0 twice.0 (omega arith))
    | inr e ↦
        let h = units_of_not_lt fl c y x twice.0 i e in
        rw e ((i, omega (int_laws, h, twice.1)), le_of_units fl c x y i twice.0 h)
  ]

  fresh_ledger-IsSolvent :
      (run_id model_id profile_name : String) (hard_cap_usd : W) (target : Option W) (reject : Bool)
      → IsExactTwice (min_of fl hard_cap_usd (absolute_max_usd fl))
      → IsSolvent
          (min_of fl hard_cap_usd (absolute_max_usd fl))
          (fresh_ledger fl run_id model_id profile_name hard_cap_usd target reject false)
  unfolding fresh_ledger
  fresh_ledger-IsSolvent run_id model_id profile_name hard_cap_usd target reject twice =
      let zero = parts_of_eq _ _ c.units-nought in
      record {
        kept = record {
          actual_kept = nought-IsAmount fl;
          derived_kept = nought-IsAmount fl;
          unproven_kept = nought-IsAmount fl;
          holds_kept = tt;
        };
        counted = record {
          actual_counts = nought-Counts fl c;
          derived_counts = nought-Counts fl c;
          unproven_counts = nought-Counts fl c;
          holds_count = tt;
        };
        capped = refl;
        enforced = refl;
        room = omega (int_laws, twice.0.1);
      }

  module _ (run_id model_id profile_name : String) (hard_cap_usd : W) (target : Option W)
      (reject : Bool) (d : Disk) where
    -- a new ledger that enforces its cap
    abbrev pub new_books : Books W
    unfolding fresh_ledger
    new_books = record {
      ledger = fresh_ledger fl run_id model_id profile_name hard_cap_usd target reject false;
      disk = d;
    }

    -- Where the hard cap, `ABSOLUTE_MAX_USD` and what the calls reserve and settle are whole units and
    -- not negative, and twice `ABSOLUTE_MAX_USD` and the cap with each reservation are within the
    -- limit up to which sums are exact: if a new ledger that enforces its cap serves any calls in any
    -- order, with whatever failing writes, and each settlement is at most the hold of its request,
    -- then what is spent, may have been spent, or is on hold is within the hard cap in the end, and
    -- the hard cap within `ABSOLUTE_MAX_USD`.
    pub serve_within_cap :
        (rs : List (Request W))
        → Counts fl c hard_cap_usd
        → IsExactTwice (absolute_max_usd fl)
        → AllCovered rs new_books
        → (fl.le (committed fl (serve fl rs new_books).ledger) new_books.ledger.hard_cap ≡ true)
          × ((serve fl rs new_books).ledger.hard_cap ≡ new_books.ledger.hard_cap)
          × (fl.le new_books.ledger.hard_cap (absolute_max_usd fl) ≡ true)
    unfolding fresh_ledger
    serve_within_cap rs i max v =
        let cap = new_books.ledger.hard_cap in
        let (twice, below) = min_of-IsExactTwice hard_cap_usd (absolute_max_usd fl) i max in
        let kept_up =
          serve-IsSolvent rs new_books cap twice
            (fresh_ledger-IsSolvent run_id model_id profile_name hard_cap_usd target reject twice)
            v in
        let after = (serve fl rs new_books).ledger in
        let (k, e) =
          committed-exact fl c after kept_up.counted
            (omega (int_laws, kept_up.room, twice.0.1, twice.1)) in
        let e' = parts_of_eq _ _ e in
        (
          le_of_units fl c (committed fl after) cap k twice.0 (omega (int_laws, kept_up.room)),
          kept_up.capped,
          below,
        )
