-- ===== src/Cumulative/Ordering/Laws.antt =====
-- What the schedule of a run looks like.
use wevibe_bench.Prelude.{
  ℕ, zero, suc, ◌+◌, ◌<◌, ◌≡◌, refl, ◌⊎◌, inl, inr, List, [], ◌∷◌, ◌++◌, String,
  get_elem?-some_of_lt, length, length-append, ok, raise, arith, All,
}
use wevibe_bench.Prelude.Int.{ℤ, pos, ◌+ℤ◌, ◌<ℤ◌, int_laws}
use wevibe_bench.Prelude.Json.{Builtins}
use wevibe_bench.Cumulative.Errors.{Error, empty_roster, negative_budget}
use wevibe_bench.Cumulative.Phase.{PhaseGroup}
use wevibe_bench.Cumulative.Records.{RosterEntry, ScheduledSession}
use wevibe_bench.Cumulative.Ordering.Slots.{NumberedFrom, NumberedFrom-append, IsSlotFor}
use wevibe_bench.Cumulative.Ordering.{
  Random, session, off_from, draw_from, build_schedule, seed_text,
}

-- Session number `i` of the list is for roster entry number `i`.
abbrev pub InRosterOrder : ℕ → List RosterEntry → List ScheduledSession → Type 0
InRosterOrder i [] [] = Unit
InRosterOrder i [] (s ∷ ss) = ⊥
InRosterOrder i (e ∷ es) [] = ⊥
InRosterOrder i (e ∷ es) (s ∷ ss) =
    (s ≡ session (pos i) e "off" PhaseGroup.off_baseline i) × InRosterOrder (suc i) es ss

off_from-InRosterOrder : (i : ℕ) (es : List RosterEntry) → InRosterOrder i es (off_from i es)
unfolding off_from
off_from-InRosterOrder i [] = tt
off_from-InRosterOrder i (e ∷ es) = (refl, off_from-InRosterOrder (suc i) es)

length-off_from : (i : ℕ) (es : List RosterEntry) → length (off_from i es) ≡ length es
unfolding off_from
length-off_from i [] = refl
length-off_from i (e ∷ es) = omega (arith, length-off_from (suc i) es)

off_from-NumberedFrom : (i : ℕ) (es : List RosterEntry) → NumberedFrom i (off_from i es)
unfolding off_from
off_from-NumberedFrom i [] = tt
off_from-NumberedFrom i (e ∷ es) = (refl, off_from-NumberedFrom (suc i) es)

module _ (py : Builtins) (rng : Random) (roster : List RosterEntry) (text : String) where
  -- The drawn part is never cut short: a draw is a place of the roster.
  record Drawn (start slot left : ℕ) : Type 0 where
    drawn : List ScheduledSession
    returns : draw_from py rng roster text (pos start) left slot ≡ ok drawn
    numbered : NumberedFrom (start + slot) drawn
    counted : length drawn ≡ left
    slots : All (IsSlotFor roster "on" PhaseGroup.on) drawn

  draw_from-Drawn : (start left slot : ℕ) → 0 < length roster → Drawn start slot left
  unfolding draw_from
  draw_from-Drawn start zero slot h = record {
    drawn = [];
    returns = refl;
    numbered = tt;
    counted = refl;
    slots = tt;
  }
  draw_from-Drawn start (suc left) slot h =
      let k = rng.randrange text (length roster) slot in
      let (e, found) =
        get_elem?-some_of_lt roster k (rng.randrange_lt text (length roster) slot h) in
      let rest = draw_from-Drawn start left (suc slot) h in
      let i : pos start +ℤ pos slot ≡ pos (start + slot) = omega int_laws in
      let j : start + suc slot ≡ suc (start + slot) = omega arith in
      record {
        drawn = session (pos start +ℤ pos slot) e "on" PhaseGroup.on k ∷ rest.drawn;
        returns = ground (arith, found, rest.returns);
        numbered = (i, rw j at rest.numbered);
        counted = omega (arith, rest.counted);
        slots = (
          record {
            place = k;
            entry = e;
            at_place = refl;
            in_roster = found;
            same_model = refl;
            same_pin = refl;
            has_mode = refl;
            has_group = refl;
          },
          rest.slots,
        );
      }

-- A schedule as it was asked for: the whole roster in order with memory off, then `budget`
-- sessions with memory on, each for an entry of the roster; all numbered from 0.
pub record IsSchedule (roster : List RosterEntry) (budget : ℕ) (schedule : List ScheduledSession)
    : Type 0 where
  pub off_part : List ScheduledSession
  pub on_part : List ScheduledSession
  pub split : schedule ≡ off_part ++ on_part
  pub off_in_order : InRosterOrder 0 roster off_part
  pub on_slots : All (IsSlotFor roster "on" PhaseGroup.on) on_part
  pub on_count : length on_part ≡ budget
  pub numbered : NumberedFrom 0 schedule
  pub counted : length schedule ≡ length roster + budget

module _ (py : Builtins) (rng : Random) (seed : ℤ) (hash : String) where
  -- With a roster and a budget of 0 or more, a schedule is built and is as it was asked for,
  -- whatever the generator draws.
  pub build_schedule-IsSchedule :
      (e : RosterEntry) (es : List RosterEntry) (budget : ℕ)
      → (schedule : List ScheduledSession) × (build_schedule py rng (e ∷ es) seed hash (pos budget)
          ≡ ok schedule)
        × IsSchedule (e ∷ es) budget schedule
  unfolding build_schedule
  build_schedule-IsSchedule e es budget =
      let roster = e ∷ es in
      let off = off_from 0 roster in
      let d =
        draw_from-Drawn py rng roster (seed_text py seed hash) (length off) budget 0
          (omega arith) in
      let n : length off + 0 ≡ 0 + length off = omega arith in
      (
        off ++ d.drawn,
        ground (arith, d.returns),
        record {
          off_part = off;
          on_part = d.drawn;
          split = refl;
          off_in_order = off_from-InRosterOrder 0 roster;
          on_slots = d.slots;
          on_count = d.counted;
          numbered =
              NumberedFrom-append 0 off d.drawn (off_from-NumberedFrom 0 roster)
                (rw n at d.numbered);
          counted = omega (arith, length-append off d.drawn, d.counted, length-off_from 0 roster);
        },
      )

  -- Without a roster, or with a negative budget, no schedule is built.
  pub build_schedule_refuses :
      (roster : List RosterEntry) (budget : ℤ)
      → (roster ≡ []) ⊎ (budget <ℤ pos 0)
      → (err : Error) × (build_schedule py rng roster seed hash budget ≡ raise err)
        × ((err ≡ empty_roster) ⊎ (err ≡ negative_budget))
  unfolding build_schedule
  build_schedule_refuses [] budget h = (empty_roster, refl, inl refl)
  build_schedule_refuses (e ∷ es) budget h = (negative_budget, ground arith, inr refl)
