-- ===== src/Cumulative/Ordering/Explicit.antt =====
-- The schedule for an explicit order of models.
use wevibe_bench.Prelude.{
  ℕ, zero, suc, ◌+◌, ◌≡◌, ◌≢◌, refl, ap, inl, inr, false, none, some, List, [], ◌∷◌, ◌++◌, map,
  String, eq_iff, get_elem?, Result, ok, raise, ◌>>=◌, Option-cases, arith, All,
}
use wevibe_bench.Prelude.Int.{ℤ, pos, ltb_ℤ, ◌+ℤ◌, int_laws}
use wevibe_bench.Prelude.Json.{Builtins}
use wevibe_bench.Cumulative.Errors.{Error, unknown_model}
use wevibe_bench.Cumulative.Phase.{PhaseGroup}
use wevibe_bench.Cumulative.Records.{RosterEntry, ScheduledSession}
use wevibe_bench.Cumulative.Ordering.{
  Random, session, index_by_model, explicit_from, build_on_order,
}
use wevibe_bench.Cumulative.Ordering.Slots.{NumberedFrom, IsSlotFor}

-- What the dictionary finds is a place of the roster with that model.
record IsFound (name : String) (i : ℕ) (es : List RosterEntry) (k : ℕ) : Type 0 where
  offset : ℕ
  entry : RosterEntry
  place : k ≡ i + offset
  in_roster : get_elem? es offset ≡ some entry
  has_model : entry.model ≡ name

index_by_model-IsFound :
    (name : String) (i : ℕ) (es : List RosterEntry) {k : ℕ}
    → index_by_model name i es ≡ some k
    → IsFound name i es k
unfolding index_by_model
index_by_model-IsFound name i [] h = absurd (cc)
index_by_model-IsFound name i (e ∷ es) {k} h =
    elim (Option-cases (index_by_model name (suc i) es)) [
      | inr (j, found) ↦
          let f = index_by_model-IsFound name (suc i) es found in
          record {
            offset = suc f.offset;
            entry = f.entry;
            place = ground (arith, f.place);
            in_roster = f.in_roster;
            has_model = f.has_model;
          }
      | inl missing ↦ record {
        offset = 0;
        entry = e;
        place = ground arith;
        in_roster = refl;
        has_model = ground (arith, eq_iff e.model name);
      }
    ]

-- No entry of the roster has the model.
abbrev pub IsUnknown : List RosterEntry → String → Type 0
IsUnknown roster name = All (λ e. e.model ≢ name) roster

index_by_model-none :
    (name : String) (i : ℕ) (es : List RosterEntry)
    → index_by_model name i es ≡ none
    → IsUnknown es name
unfolding index_by_model
index_by_model-none name i [] h = tt
index_by_model-none name i (e ∷ es) h = elim (Option-cases (index_by_model name (suc i) es)) [
  | inr (j, found) ↦ absurd (ground arith)
  | inl missing ↦ (ground (arith, eq_iff e.model name), index_by_model-none name (suc i) es missing)
]

-- A place of the roster with that model.
known_at :
    (name : String) (es : List RosterEntry) (k : ℕ) {e : RosterEntry}
    → get_elem? es k ≡ some e
    → e.model ≡ name
    → ¬ IsUnknown es name
known_at name [] k h m u = absurd (cc)
known_at name (x ∷ es) zero h m u = u.0 (cc (h, m))
known_at name (x ∷ es) (suc k) h m u = known_at name es k h m u.1

module _ (roster : List RosterEntry) (start : ℕ) where
  -- The loop returns one session for each model, in the order that was asked for, or it raises
  -- for a model that is not in the roster, where those before it are.
  pub data Explicit (slot : ℕ) (names : List String)
      : Result Error (List ScheduledSession) → Type 0 where
    planned :
        (ss : List ScheduledSession)
        → map (λ s. s.model) ss ≡ names
        → NumberedFrom (start + slot) ss
        → All (IsSlotFor roster "on" PhaseGroup.on) ss
        → Explicit slot names (ok ss)
    refused :
        (before : List String) (name : String) (behind : List String)
        → names ≡ before ++ name ∷ behind
        → All (λ n. ¬ IsUnknown roster n) before
        → IsUnknown roster name
        → Explicit slot names (raise (unknown_model name))

  Explicit-cons :
      (name : String) (names : List String) (slot k : ℕ) (e : RosterEntry)
      → get_elem? roster k ≡ some e
      → e.model ≡ name
      → (r : Result Error (List ScheduledSession)) → Explicit (suc slot) names r
      → Explicit slot
          (name ∷ names)
          (r >>= λ ss. ok (session (pos start +ℤ pos slot) e "on" PhaseGroup.on k ∷ ss))
  Explicit-cons name names slot k e found model _ (planned ss same numbered slots) =
      let i : pos start +ℤ pos slot ≡ pos (start + slot) = omega int_laws in
      let j : start + suc slot ≡ suc (start + slot) = omega arith in
      planned (session (pos start +ℤ pos slot) e "on" PhaseGroup.on k ∷ ss) (cc (model, same))
        (i, rw j at numbered)
        (
          record {
            place = k;
            entry = e;
            at_place = refl;
            in_roster = found;
            same_model = refl;
            same_pin = refl;
            has_mode = refl;
            has_group = refl;
          },
          slots,
        )
  Explicit-cons name names slot k e found model _
        (refused before missing behind split known unknown) =
      refused (name ∷ before) missing behind (ap (◌∷◌ name) split)
        (known_at name roster k found model, known) unknown

  explicit_from-Explicit :
      (names : List String) (slot : ℕ)
      → Explicit slot names (explicit_from roster (pos start) slot names)
  unfolding explicit_from
  explicit_from-Explicit [] slot = planned [] refl tt tt
  explicit_from-Explicit (name ∷ names) slot = elim (Option-cases (index_by_model name 0 roster)) [
    | inl missing ↦
        rw (missing, explicit_from)
          (refused [] name names refl tt (index_by_model-none name 0 roster missing))
    | inr (k, found) ↦
        let f = index_by_model-IsFound name 0 roster found in
        let there : get_elem? roster k ≡ some f.entry =
          let p : k ≡ f.offset = omega (arith, f.place) in rw p f.in_roster in
        rw (found, there, explicit_from)
          (Explicit-cons name names slot k f.entry there f.has_model
            (explicit_from roster (pos start) (suc slot) names)
            (explicit_from-Explicit names (suc slot)))
  ]

-- With an explicit order the sessions with memory on follow it model by model, each for an entry
-- of the roster and numbered from `start`, or the call raises for the first model that no entry
-- has, all before it being in the roster; the budget is only checked, and nothing is drawn.
pub build_on_order-Explicit :
    (py : Builtins) (rng : Random) (e : RosterEntry) (es : List RosterEntry) (seed : ℤ)
    (hash : String) (budget start : ℕ) (names : List String)
    → Explicit
        (e ∷ es)
        start
        0
        names
        (build_on_order py rng (e ∷ es) seed hash (pos budget) (pos start) (some names))
unfolding build_on_order
build_on_order-Explicit py rng e es seed hash budget start names =
    let b : ltb_ℤ (pos budget) (pos 0) ≡ false = ground arith in
    rw b (explicit_from-Explicit (e ∷ es) start names 0)
