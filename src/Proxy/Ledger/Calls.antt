-- ===== src/Proxy/Ledger/Calls.antt =====
-- The methods of `BudgetLedger`. `watch_only` lets every reservation pass; the accounting is the same.
use wevibe_bench.Prelude.{
  Bool, not, ◌&&◌, none, some, List, [], ◌∷◌, String, map, if◌then◌else◌, Result, raise,
}
use wevibe_bench.Prelude.Dict.{lookup, insert, erase, string_eq}
use wevibe_bench.Proxy.Errors.{ProxyError, budget_exceeded}
use wevibe_bench.Proxy.Double.{Double, nought, at_least_nought}
use wevibe_bench.Proxy.Ledger.{Ledger, Books, Weather, persist}

module _ {W : Type 0} (fl : Double W) where
  abbrev pub values : List (String × W) → List W
  values = map (λ p. p.1)

  -- what is spent, may have been spent, or is on hold, in the order in which `reserve` adds it
  abbrev pub committed : Ledger W → W
  committed l =
      fl.add (fl.add (fl.add l.accrued_actual l.accrued_derived) l.committed_unproven)
        (fl.sum (values l.outstanding))

  abbrev pub is_over : Ledger W → W → Bool
  is_over l projected =
      if l.reject_on_equality then fl.le l.hard_cap projected else fl.lt l.hard_cap projected

  -- a change of the ledger that is persisted
  unfoldable pub save : Weather → Ledger W → Books W → Result ProxyError (Unit {0}) × Books W
  unfolding persist
  save weather l b =
      let (done, d) = persist fl weather l b.disk in (done, record { ledger = l; disk = d })

  -- what each call makes of the ledger
  abbrev pub with_hold : String → W → Ledger W → Ledger W
  with_hold id x l = record l { outstanding = insert id x l.outstanding }

  abbrev pub with_actual : String → W → Ledger W → Ledger W
  with_actual id x l = record l {
    outstanding = erase id l.outstanding;
    accrued_actual = fl.add l.accrued_actual x;
  }

  abbrev pub with_derived : String → W → Ledger W → Ledger W
  with_derived id x l = record l {
    outstanding = erase id l.outstanding;
    accrued_derived = fl.add l.accrued_derived x;
  }

  abbrev pub with_unproven : String → W → Ledger W → Ledger W
  with_unproven id x l = record l {
    outstanding = erase id l.outstanding;
    committed_unproven = fl.add l.committed_unproven x;
  }

  -- the test of `reserve`
  abbrev pub is_refused : Ledger W → W → Bool
  is_refused l reservation = is_over l (fl.add (committed l) reservation) && not l.watch_only

  unfoldable pub reserve : Weather → String → W → Books W → Result ProxyError (Unit {0}) × Books W
  unfolding insert save
  reserve weather id amount b =
      let l = b.ledger in
      let reservation = at_least_nought fl amount in
      if is_refused l reservation
      then (raise budget_exceeded, b)
      else save weather (with_hold id reservation l) b

  unfoldable pub settle_actual :
      Weather → String → W → Books W → Result ProxyError (Unit {0}) × Books W
  unfolding erase save
  settle_actual weather id actual_usd b =
      let l = b.ledger in save weather (with_actual id (at_least_nought fl actual_usd) l) b

  unfoldable pub settle_derived :
      Weather → String → W → Books W → Result ProxyError (Unit {0}) × Books W
  unfolding erase save
  settle_derived weather id derived_usd b =
      let l = b.ledger in save weather (with_derived id (at_least_nought fl derived_usd) l) b

  -- `outstanding.get(id, 0.0)`
  unfoldable pub held : String → List (String × W) → W
  unfolding lookup
  held id d = elim (lookup id d) [ none ↦ nought fl | some x ↦ x ]

  unfoldable pub retain_unproven :
      Weather → String → Books W → Result ProxyError (Unit {0}) × Books W
  unfolding erase held save
  retain_unproven weather id b =
      let l = b.ledger in
      save weather (with_unproven id (at_least_nought fl (held id l.outstanding)) l) b

  unfoldable pub remaining : Ledger W → W
  remaining l =
      fl.sub
        (fl.sub (fl.sub (fl.sub l.hard_cap l.accrued_actual) l.accrued_derived)
          l.committed_unproven)
        (fl.sum (values l.outstanding))

  pub record BudgetSnapshot : Type 0 where
    pub accrued : W
    pub accrued_derived : W
    pub committed_unproven : W
    pub outstanding_total : W
    pub remaining_usd : W
    pub hard_cap : W

  unfoldable pub snapshot : Ledger W → BudgetSnapshot
  unfolding remaining
  snapshot l = record {
    accrued = l.accrued_actual;
    accrued_derived = l.accrued_derived;
    committed_unproven = l.committed_unproven;
    outstanding_total = fl.sum (values l.outstanding);
    remaining_usd = remaining l;
    hard_cap = l.hard_cap;
  }

-- a call of a client, and what it meets
pub data Request (W : Type 0) : Type 0 where
  reserving actual derived : Weather → String → W → Request W
  unproven : Weather → String → Request W

module _ {W : Type 0} (fl : Double W) where
  unfoldable pub apply : Request W → Books W → Result ProxyError (Unit {0}) × Books W
  unfolding reserve settle_actual settle_derived retain_unproven
  apply (reserving weather id x) = reserve fl weather id x
  apply (actual weather id x) = settle_actual fl weather id x
  apply (derived weather id x) = settle_derived fl weather id x
  apply (unproven weather id) = retain_unproven fl weather id

  -- Calls one after another, whatever they return.
  unfoldable pub serve : List (Request W) → Books W → Books W
  unfolding apply
  serve [] b = b
  serve (r ∷ rs) b = serve rs (apply r b).1
