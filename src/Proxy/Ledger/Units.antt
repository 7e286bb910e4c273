-- ===== src/Proxy/Ledger/Units.antt =====
-- What a ledger has committed, in whole units.
use wevibe_bench.Prelude.{
  ◌≡◌, refl, sym, ◌∙◌, true, false, List, [], ◌∷◌, String, arith, All, Bool-cases, inl, inr,
}
use wevibe_bench.Prelude.Int.{ℤ, pos, ◌+ℤ◌, ◌≤ℤ◌, leb_ℤ, ltb_ℤ, int_laws, parts_of_eq}
use wevibe_bench.Prelude.Dict.{lookup, insert, erase, string_eq}
use wevibe_bench.Proxy.Double.{Double, nought, sum_ℤ, CountsUnits}
use wevibe_bench.Proxy.Ledger.{Ledger}
use wevibe_bench.Proxy.Ledger.Calls.{values, committed, held}
use wevibe_bench.Proxy.Ledger.Amounts.{erase-All}

module _ {W : Type 0} (fl : Double W) (c : CountsUnits fl) where
  abbrev pub in_units : W → ℤ
  in_units = c.units

  abbrev pub total : List (String × W) → ℤ
  total d = sum_ℤ fl in_units (values fl d)

  pub insert-total :
      (k : String) (x : W) (d : List (String × W))
      → total (insert k x d) +ℤ in_units (held fl k d) ≡ total d +ℤ in_units x
  unfolding insert held lookup
  insert-total k x [] = rw c.units-nought (omega int_laws)
  insert-total k x ((j, y) ∷ d) = elim (Bool-cases (string_eq.beq j k)) [
    | inl e ↦ rw (e, held) (omega int_laws)
    | inr e ↦ rw (e, held) (omega (int_laws, parts_of_eq _ _ (insert-total k x d)))
  ]

  pub erase-total :
      (k : String) (d : List (String × W)) → total (erase k d) +ℤ in_units (held fl k d) ≡ total d
  unfolding erase held lookup
  erase-total k [] = rw c.units-nought (omega int_laws)
  erase-total k ((j, y) ∷ d) = elim (Bool-cases (string_eq.beq j k)) [
    | inl e ↦ rw (e, held) (omega int_laws)
    | inr e ↦ rw (e, held) (omega (int_laws, parts_of_eq _ _ (erase-total k d)))
  ]

  -- a number of whole units that is not negative
  abbrev pub Counts : W → Type 0
  Counts x = (c.is_whole x ≡ true) × (pos 0 ≤ℤ c.units x)

  pub record AllCount (l : Ledger W) : Type 0 where
    pub actual_counts : Counts l.accrued_actual
    pub derived_counts : Counts l.accrued_derived
    pub unproven_counts : Counts l.committed_unproven
    pub holds_count : All (λ p. Counts p.1) l.outstanding

  pub nought-Counts : Counts (nought fl)
  nought-Counts = (c.nought-whole, rw c.units-nought (omega arith))

  -- what is committed, in units
  abbrev pub exact : Ledger W → ℤ
  exact l =
      ((in_units l.accrued_actual +ℤ in_units l.accrued_derived) +ℤ in_units l.committed_unproven)
      +ℤ total l.outstanding

  pub total_nonneg : (d : List (String × W)) → All (λ p. Counts p.1) d → pos 0 ≤ℤ total d
  total_nonneg [] h = omega arith
  total_nonneg ((k, x) ∷ d) h = omega (int_laws, h.0.1, total_nonneg d h.1)

  -- a hold is a part of what is committed
  pub held_within :
      (id : String) (l : Ledger W) → AllCount l → in_units (held fl id l.outstanding) ≤ℤ exact l
  held_within id l h =
      let rest =
        total_nonneg (erase id l.outstanding)
          (erase-All fl Counts id l.outstanding h.holds_count) in
      let parts = parts_of_eq _ _ (erase-total id l.outstanding) in
      omega (int_laws, h.actual_counts.1, h.derived_counts.1, h.unproven_counts.1, rest)

  values-All : (d : List (String × W)) → All (λ p. Counts p.1) d → All Counts (values fl d)
  values-All [] h = tt
  values-All ((k, x) ∷ d) h = (h.0, values-All d h.1)

  pub add-Counts :
      (x y : W)
      → Counts x
      → Counts y
      → in_units x +ℤ in_units y ≤ℤ c.limit
      → Counts (fl.add x y) × (in_units (fl.add x y) ≡ in_units x +ℤ in_units y)
  add-Counts x y h k room =
      let (whole, e) = c.add-exact x y h k room in
      let e' = parts_of_eq _ _ e in ((whole, omega (int_laws, h.1, k.1)), e)

  -- Within the limit the sum that `reserve` adds is exact.
  pub committed-exact :
      (l : Ledger W)
      → AllCount l
      → exact l ≤ℤ c.limit
      → Counts (committed fl l) × (in_units (committed fl l) ≡ exact l)
  committed-exact l h room =
      let a = h.actual_counts in
      let d = h.derived_counts in
      let u = h.unproven_counts in
      let t = total_nonneg l.outstanding h.holds_count in
      let (k1, e1) =
        add-Counts l.accrued_actual l.accrued_derived a d (omega (int_laws, a.1, d.1, u.1, t)) in
      let p1 = parts_of_eq _ _ e1 in
      let (k2, e2) =
        add-Counts (fl.add l.accrued_actual l.accrued_derived) l.committed_unproven k1 u
          (omega (int_laws, a.1, d.1, u.1, t)) in
      let p2 = parts_of_eq _ _ e2 in
      let (whole, e3) =
        c.sum-exact (values fl l.outstanding) (values-All l.outstanding h.holds_count)
          (omega (int_laws, a.1, d.1, u.1, t)) in
      let p3 = parts_of_eq _ _ e3 in
      let (k4, e4) =
        add-Counts (fl.add (fl.add l.accrued_actual l.accrued_derived) l.committed_unproven)
          (fl.sum (values fl l.outstanding)) k2 (whole, omega (int_laws, t))
          (omega (int_laws, a.1, d.1, u.1, t)) in
      (k4, rw (e4, e2, e1, e3) refl)

  pub le_of_units : (x y : W) → Counts x → Counts y → c.units x ≤ℤ c.units y → fl.le x y ≡ true
  le_of_units x y i j h = rw (c.units-le x y i.0 j.0) (ground arith)

  pub units_of_le : (x y : W) → Counts x → Counts y → fl.le x y ≡ true → c.units x ≤ℤ c.units y
  units_of_le x y i j h =
      let h' : leb_ℤ (c.units x) (c.units y) ≡ true = sym (c.units-le x y i.0 j.0) ∙ h in
      ground arith

  pub units_of_not_lt : (x y : W) → Counts x → Counts y → fl.lt x y ≡ false → c.units y ≤ℤ c.units x
  units_of_not_lt x y i j h =
      let h' : ltb_ℤ (c.units x) (c.units y) ≡ false = sym (c.units-lt x y i.0 j.0) ∙ h in
      ground arith

  pub units_of_not_le : (x y : W) → Counts x → Counts y → fl.le x y ≡ false → c.units y ≤ℤ c.units x
  units_of_not_le x y i j h =
      let h' : leb_ℤ (c.units x) (c.units y) ≡ false = sym (c.units-le x y i.0 j.0) ∙ h in
      ground arith
