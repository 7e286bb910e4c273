-- ===== src/Cumulative/Records/Codec/RoundTrip.antt =====
-- A checkpoint that is written and read back is the manifest that was written.
use Prim.Native.String.{String}
use wevibe_bench.Prelude.{◌≡◌, refl, ap, Option, none, some, List, [], ◌∷◌, map, Result, ok, All}
use wevibe_bench.Prelude.Int.{ℤ}
use wevibe_bench.Prelude.Json.{
  str, obj, arr, Fields, Builtins, to_str, truth, of_list, to_list, to_list-of_list, as_mapping,
}
use wevibe_bench.Cumulative.Errors.{Error}
use wevibe_bench.Cumulative.Gates.{WalkGateVerdictRecord}
use wevibe_bench.Cumulative.Gates.Laws.{IsNormal, AllNormal, post_init_of_IsNormal}
use wevibe_bench.Cumulative.Records.{
  RosterEntry, ScheduledSession, SessionRecord, CumulativeManifest,
}
use wevibe_bench.Cumulative.Records.Codec.Parts.{mappings, optional, optional_int, optional_mapping}
use wevibe_bench.Cumulative.Records.Codec.{
  each, mapping_list, or_empty, roster_entry_to_dict, roster_entry_from_dict, scheduled_to_dict,
  scheduled_from_dict, gate_to_dict, gate_from_dict, session_to_dict, session_from_dict,
  manifest_to_dict, manifest_from_dict,
}

-- Reading each of the written items back gives the list, if it does so for each item.
each-map :
    {A : Type 0} (P : A → Type 0) (f : Fields → Result Error A) (g : A → Fields)
    → ((x : A) → P x → f (g x) ≡ ok x)
    → (xs : List A) → All P xs
    → each f (map g xs) ≡ ok xs
unfolding each
each-map P f g h [] p = refl
each-map P f g h (x ∷ xs) p = rw (h x p.0, each-map P f g h xs p.1)

mappings-map :
    {A : Type 0} (g : A → Fields) (xs : List A) → mappings (map (λ x. obj (g x)) xs) ≡ map g xs
mappings-map g [] = refl
mappings-map g (x ∷ xs) = ap (◌∷◌ (g x)) (mappings-map g xs)

mappings_obj : (xs : List Fields) → mappings (map obj xs) ≡ xs
mappings_obj [] = refl
mappings_obj (x ∷ xs) = ap (◌∷◌ x) (mappings_obj xs)

mapping_list-map :
    {A : Type 0} (py : Builtins) (g : A → Fields) (xs : List A)
    → mapping_list py (arr (of_list (map (λ x. obj (g x)) xs))) ≡ ok (map g xs)
unfolding mapping_list
mapping_list-map py g [] = refl
mapping_list-map py g (x ∷ xs) = rw (mapping_list-map py g xs)

AllUnit : {A : Type 0} (xs : List A) → All (λ x. Unit {0}) xs
AllUnit [] = tt
AllUnit (x ∷ xs) = (tt, AllUnit xs)

pub to_str-map :
    (py : Builtins) (xs : List String) → map (to_str py) (to_list (of_list (map str xs))) ≡ xs
unfolding to_str
to_str-map py [] = refl
to_str-map py (x ∷ xs) = ap (◌∷◌ x) (to_str-map py xs)

as_mapping-optional : (o : Option Fields) → as_mapping (optional_mapping o) ≡ o
as_mapping-optional none = refl
as_mapping-optional (some fs) = refl

module _ (py : Builtins) where
  or_empty_str : (s : String) → or_empty py (str s) ≡ s
  unfolding truth to_str
  or_empty_str String.[] = refl
  or_empty_str (String.◌∷◌ c s) = refl

  roster_entry_round_trip :
      (e : RosterEntry) → roster_entry_from_dict py (roster_entry_to_dict e) ≡ ok e
  unfolding roster_entry_from_dict roster_entry_to_dict to_str
  roster_entry_round_trip e = refl

  scheduled_round_trip :
      (s : ScheduledSession) → scheduled_from_dict py (scheduled_to_dict s) ≡ ok s
  unfolding scheduled_from_dict scheduled_to_dict to_str
  scheduled_round_trip s = refl

  gate_round_trip :
      (g : WalkGateVerdictRecord) → IsNormal g → gate_from_dict py (gate_to_dict g) ≡ ok g
  unfolding gate_from_dict gate_to_dict to_str
  gate_round_trip g n =
      rw (to_str-map py g.expected_producer_model_ids, to_str-map py g.observed_producer_model_ids)
        (ap ok (post_init_of_IsNormal g n))

  pub optional_round_trip : (o : Option ℤ) → optional_int py (optional o) ≡ ok o
  unfolding optional_int
  optional_round_trip none = refl
  optional_round_trip (some n) = refl

  gates_round_trip :
      (gs : List WalkGateVerdictRecord)
      → AllNormal gs
      → each
          (gate_from_dict py)
          (mappings (to_list (of_list (to_list (of_list (map (λ g. obj (gate_to_dict g)) gs))))))
        ≡ ok gs
  gates_round_trip gs n =
      rw
        (
          to_list-of_list (to_list (of_list (map (λ g. obj (gate_to_dict g)) gs))),
          to_list-of_list (map (λ g. obj (gate_to_dict g)) gs),
          mappings-map gate_to_dict gs,
        )
        (each-map IsNormal (gate_from_dict py) gate_to_dict gate_round_trip gs n)

  refs_round_trip : (xs : List Fields) → mappings (to_list (of_list (map obj xs))) ≡ xs
  refs_round_trip xs = rw to_list-of_list (mappings_obj xs)

  session_round_trip :
      (r : SessionRecord) → AllNormal r.walk_gates → session_from_dict py (session_to_dict r) ≡ ok r
  unfolding session_from_dict session_to_dict to_str
  session_round_trip r n =
      rw
        (
          gates_round_trip r.walk_gates n,
          optional_round_trip r.extraction_candidate_count,
          optional_round_trip r.corpus_delta,
        )
        (rw (refs_round_trip r.candidate_refs, as_mapping-optional r.progress))

  -- Reading a written manifest back gives that manifest, if its walk gates are as their
  -- constructor leaves them.
  pub manifest_round_trip :
      (m : CumulativeManifest)
      → All (λ r. AllNormal r.walk_gates) m.session_records
      → manifest_from_dict py (manifest_to_dict m) ≡ ok m
  unfolding manifest_from_dict manifest_to_dict to_str
  manifest_round_trip m n = rw (
    mapping_list-map py roster_entry_to_dict m.roster,
    mapping_list-map py scheduled_to_dict m.schedule,
    mapping_list-map py session_to_dict m.session_records,
    each-map (λ e. Unit {0}) (roster_entry_from_dict py) roster_entry_to_dict
        (λ e _. roster_entry_round_trip e) m.roster (AllUnit m.roster),
    each-map (λ e. Unit {0}) (scheduled_from_dict py) scheduled_to_dict
        (λ e _. scheduled_round_trip e) m.schedule (AllUnit m.schedule),
    each-map (λ r. AllNormal r.walk_gates) (session_from_dict py) session_to_dict session_round_trip
        m.session_records n,
    as_mapping-optional m.run_context,
    or_empty_str m.chunk_plan_hash,
  )
