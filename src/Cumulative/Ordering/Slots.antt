-- ===== src/Cumulative/Ordering/Slots.antt =====
-- The numbering of a schedule, and sessions as slots for roster entries.
use wevibe_bench.Prelude.{
  ℕ, suc, ◌+◌, ◌≡◌, some, List, [], ◌∷◌, ◌++◌, String, get_elem?, length, arith,
}
use wevibe_bench.Prelude.Int.{pos}
use wevibe_bench.Cumulative.Phase.{PhaseGroup, group_value}
use wevibe_bench.Cumulative.Records.{RosterEntry, ScheduledSession}

-- The sessions are numbered from a number on.
abbrev pub NumberedFrom : ℕ → List ScheduledSession → Type 0
NumberedFrom n [] = Unit
NumberedFrom n (s ∷ ss) = (s.sequence_index ≡ pos n) × NumberedFrom (suc n) ss

-- A session is a slot for the roster entry that its `roster_index` names.
pub record IsSlotFor (roster : List RosterEntry) (mode : String) (group : PhaseGroup)
    (s : ScheduledSession) : Type 0 where
  pub place : ℕ
  pub entry : RosterEntry
  pub at_place : s.roster_index ≡ pos place
  pub in_roster : get_elem? roster place ≡ some entry
  pub same_model : s.model ≡ entry.model
  pub same_pin : s.provider_pin ≡ entry.provider_pin
  pub has_mode : s.memory_mode ≡ mode
  pub has_group : s.phase_group ≡ group_value group

pub NumberedFrom-append :
    (n : ℕ) (xs ys : List ScheduledSession)
    → NumberedFrom n xs
    → NumberedFrom (n + length xs) ys
    → NumberedFrom n (xs ++ ys)
NumberedFrom-append n [] ys h k = let e : n + 0 ≡ n = omega arith in rw e at k
NumberedFrom-append n (x ∷ xs) ys h k =
    let e : n + suc (length xs) ≡ suc n + length xs = omega arith in
    (h.0, NumberedFrom-append (suc n) xs ys h.1 (rw e at k))
