-- ===== src/Proxy/Tests/Ledgers.antt =====
-- A ledger of twelve dollars that serves four calls.
use wevibe_bench.Prelude.{◌≡◌, refl, true, false, none, List, [], ◌∷◌, ok, raise, eq_iff, arith}
use wevibe_bench.Prelude.Int.{ℤ, pos, ◌+ℤ◌, ◌-ℤ◌}
use wevibe_bench.Prelude.Json.{obj}
use wevibe_bench.Cumulative.Files.{holds}
use wevibe_bench.Proxy.Errors.{ProxyError, policy_mismatch}
use wevibe_bench.Proxy.Ledger.{Ledger, Books, fresh_ledger, absolute_max_usd, payload, open_ledger}
use wevibe_bench.Proxy.Ledger.Calls.{
  committed, Request, reserving, actual, unproven, apply, serve, remaining,
}
use wevibe_bench.Proxy.Ledger.Amounts.{IsKept}
use wevibe_bench.Proxy.Ledger.Units.{AllCount}
use wevibe_bench.Proxy.Ledger.Conservation.{released, booked, apply_balance}
use wevibe_bench.Proxy.Ledger.Cap.{AllCovered, IsExactTwice, serve_within_cap}
use wevibe_bench.Proxy.Ledger.Restart.{emptied, serve_restart, IsSameBinding, open_ledger_refuses}
use wevibe_bench.Proxy.Tests.Data.{
  micros, micros-Stores, micros-CountsUnits, calm, stormy, no_file, toy_py,
}

abbrev calls : List (Request ℤ)
calls =
    reserving calm "a" (pos 5_000_000)
    ∷ actual calm "a" (pos 3_000_000)
    ∷ reserving stormy "b" (pos 4_000_000)
    ∷ unproven calm "b"
    ∷ []

abbrev books : Books ℤ
unfolding fresh_ledger
books = record {
  ledger = fresh_ledger micros "r" "m" "p" (pos 20_000_000) none false false;
  disk = no_file;
}

books-IsKept : IsKept micros books.ledger
unfolding fresh_ledger
books-IsKept = record {
  actual_kept = refl;
  derived_kept = refl;
  unproven_kept = refl;
  holds_kept = tt;
}

books-AllCount : AllCount micros micros-CountsUnits books.ledger
unfolding fresh_ledger
books-AllCount = record {
  actual_counts = (refl, omega arith);
  derived_counts = (refl, omega arith);
  unproven_counts = (refl, omega arith);
  holds_count = tt;
}

-- The cap is cut to twelve dollars, of which three are spent and four unproven.
five_left : remaining micros (serve micros calls books).ledger ≡ pos 5_000_000
unfolding remaining serve books ◌-ℤ◌ ◌+ℤ◌
five_left = refl

calls-AllCovered : AllCovered micros micros-Stores micros-CountsUnits calls books
unfolding apply books ◌+ℤ◌
calls-AllCovered = (
  ((refl, omega arith), omega arith),
  (((refl, omega arith), refl), (((refl, omega arith), omega arith), (tt, tt))),
)

twelve-IsExactTwice : IsExactTwice micros micros-Stores micros-CountsUnits (absolute_max_usd micros)
unfolding ◌+ℤ◌
twelve-IsExactTwice = ((refl, omega arith), omega arith)

serve_within_cap_example :
    (micros.le (committed micros (serve micros calls books).ledger) books.ledger.hard_cap ≡ true)
    × ((serve micros calls books).ledger.hard_cap ≡ books.ledger.hard_cap)
    × (micros.le books.ledger.hard_cap (absolute_max_usd micros) ≡ true)
unfolding fresh_ledger
serve_within_cap_example =
    serve_within_cap micros micros-Stores micros-CountsUnits "r" "m" "p" (pos 20_000_000) none false
      no_file calls (refl, omega arith) twelve-IsExactTwice calls-AllCovered

apply_balance_example :
    committed micros (apply micros (reserving calm "a" (pos 5_000_000)) books).1.ledger
      +ℤ released micros micros-CountsUnits (reserving calm "a" (pos 5_000_000)) books
    ≡ committed micros books.ledger
      +ℤ booked micros micros-CountsUnits (reserving calm "a" (pos 5_000_000)) books
unfolding books ◌+ℤ◌
apply_balance_example =
    apply_balance micros micros-CountsUnits (reserving calm "a" (pos 5_000_000)) books books-IsKept
      books-AllCount (refl, omega arith) (omega arith)

serve_restart_example :
    let before = serve micros calls books in
    let (result, after) = apply micros (reserving calm "c" (pos 1_000_000)) before in
    (result ≡ ok tt
      → open_ledger micros toy_py calm (emptied micros toy_py after.ledger) after.disk
        ≡ (ok after.ledger, after.disk))
    × ((e : ProxyError) → result ≡ raise e → after.disk.target ≡ before.disk.target)
unfolding fresh_ledger
serve_restart_example =
    serve_restart micros toy_py micros-Stores calls (reserving calm "c" (pos 1_000_000)) books calm
      books-IsKept refl

abbrev other : Ledger ℤ
other = record books.ledger { run_id = "other" }

other-IsOther : ¬ IsSameBinding micros toy_py micros-Stores other books.ledger
unfolding fresh_ledger
other-IsOther h = absurd (cc ((eq_iff "other" "r").1 h.0))

open_ledger_refuses_example :
    open_ledger micros toy_py calm books.ledger
      (record { target = holds (obj (payload micros "t" other)); temporary = none })
    ≡ (
      raise (policy_mismatch "policy_mismatch"),
      record { target = holds (obj (payload micros "t" other)); temporary = none },
    )
open_ledger_refuses_example =
    open_ledger_refuses micros toy_py micros-Stores calm "t" other books.ledger
      (record { target = holds (obj (payload micros "t" other)); temporary = none }) refl
      other-IsOther
