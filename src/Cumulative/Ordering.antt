-- ===== src/Cumulative/Ordering.antt =====
-- The schedule of a run: wevibe_bench/cumulative/ordering.py.
pub mod Slots
pub mod Laws
pub mod Explicit
use Prim.Native.String.{◌++◌ as str_append}
use wevibe_bench.Prelude.{
  ℕ, zero, suc, ◌+◌, ◌<◌, ◌≡◌, Bool, true, false, Option, none, some, List, [], ◌∷◌, ◌++◌, String,
  str_eq, get_elem?, length, Result, ok, raise, ◌>>=◌, ◌>>◌, raise_if, if◌then◌else◌,
}
use wevibe_bench.Prelude.Int.{ℤ, pos, negsuc, ltb_ℤ, ◌+ℤ◌}
use wevibe_bench.Prelude.Json.{int, Builtins}
use wevibe_bench.Cumulative.Errors.{
  Error, index_error, empty_roster, negative_budget, unknown_model,
}
use wevibe_bench.Cumulative.Phase.{PhaseGroup, group_value}
use wevibe_bench.Cumulative.Records.{RosterEntry, ScheduledSession}

-- `random.Random`, seeded by the digest of a text: `randrange text size k` is what the call
-- number `k` of `randrange(size)` returns.
pub record Random : Type 0 where
  pub randrange : String → ℕ → ℕ → ℕ
  pub randrange_lt : (text : String) (size k : ℕ) → 0 < size → randrange text size k < size

-- `_require_non_empty_roster`
unfoldable pub require_non_empty_roster : List RosterEntry → Result Error (Unit {0})
require_non_empty_roster [] = raise empty_roster
require_non_empty_roster (e ∷ es) = ok tt

-- `_require_non_negative_budget`
unfoldable pub require_non_negative_budget : ℤ → Result Error (Unit {0})
require_non_negative_budget budget = raise_if (ltb_ℤ budget (pos 0)) negative_budget

-- The constructor call of the three loops: a slot for a roster entry.
abbrev pub session : ℤ → RosterEntry → String → PhaseGroup → ℕ → ScheduledSession
session index e mode group k = record {
  sequence_index = index;
  model = e.model;
  provider_pin = e.provider_pin;
  memory_mode = mode;
  phase_group = group_value group;
  roster_index = pos k;
}

-- The comprehension over `enumerate(roster)`, from an index on.
unfoldable pub off_from : ℕ → List RosterEntry → List ScheduledSession
off_from i [] = []
off_from i (e ∷ es) = session (pos i) e "off" PhaseGroup.off_baseline i ∷ off_from (suc i) es

unfoldable pub build_off_order : List RosterEntry → Result Error (List ScheduledSession)
unfolding require_non_empty_roster off_from
build_off_order roster = do require_non_empty_roster roster; ok (off_from 0 roster)

-- `{entry.model: index for index, entry in enumerate(roster)}[model]`: of two entries with one
-- model the later one is found.
unfoldable pub index_by_model : String → ℕ → List RosterEntry → Option ℕ
index_by_model name i [] = none
index_by_model name i (e ∷ es) = elim (index_by_model name (suc i) es) [
  | some k ↦ some k
  | none ↦ if str_eq e.model name then some i else none
]

-- The loop over `explicit_order`.
unfoldable pub explicit_from :
    List RosterEntry → ℤ → ℕ → List String → Result Error (List ScheduledSession)
unfolding index_by_model
explicit_from roster start slot [] = ok []
explicit_from roster start slot (name ∷ names) =
    let rest = explicit_from roster start (suc slot) names in
    elim (index_by_model name 0 roster) [
      | none ↦ raise (unknown_model name)
      | some k ↦ elim (get_elem? roster k) [
        | none ↦ raise index_error
        | some e ↦ do ss ← rest; ok (session (start +ℤ pos slot) e "on" PhaseGroup.on k ∷ ss)
      ]
    ]

-- the text that seeds the generator
abbrev pub seed_text : Builtins → ℤ → String → String
seed_text py seed hash = str_append (py.str_of (int seed)) (str_append ":" hash)

abbrev pub natural : ℤ → ℕ
natural (pos n) = n
natural (negsuc n) = 0

module _ (py : Builtins) (rng : Random) where
  -- The loop over `range(budget)`: the rounds left, and the slot.
  unfoldable pub draw_from :
      List RosterEntry → String → ℤ → ℕ → ℕ → Result Error (List ScheduledSession)
  draw_from roster text start zero slot = ok []
  draw_from roster text start (suc left) slot =
      let k = rng.randrange text (length roster) slot in
      let rest = draw_from roster text start left (suc slot) in
      elim (get_elem? roster k) [
        | none ↦ raise index_error
        | some e ↦ do ss ← rest; ok (session (start +ℤ pos slot) e "on" PhaseGroup.on k ∷ ss)
      ]

  unfoldable pub build_on_order :
      List RosterEntry
      → (seed : ℤ) (hash : String) (budget start : ℤ) → Option (List String)
      → Result Error (List ScheduledSession)
  unfolding require_non_empty_roster require_non_negative_budget explicit_from draw_from
  build_on_order roster seed hash budget start explicit = do
    require_non_empty_roster roster
    require_non_negative_budget budget
    elim explicit [
      | some names ↦ explicit_from roster start 0 names
      | none ↦ draw_from roster (seed_text py seed hash) start (natural budget) 0
    ]

  unfoldable pub build_schedule :
      List RosterEntry
      → (seed : ℤ) (hash : String) (on_budget : ℤ) → Result Error (List ScheduledSession)
  unfolding build_off_order build_on_order
  build_schedule roster seed hash on_budget = do
    require_non_empty_roster roster
    require_non_negative_budget on_budget
    off_order ← build_off_order roster
    on_order ← build_on_order roster seed hash on_budget (pos (length off_order)) none
    ok (off_order ++ on_order)
