-- ===== src/Proxy/Ledger.antt =====
-- `BudgetLedger` of wevibe_bench/adapters/openrouter_proxy.py: what a run may spend, what it has
-- spent, and the checkpoint file that a restarted proxy takes up. One call runs at a time, since
-- each holds the lock from its first to its last access.
pub mod Calls
pub mod Amounts
pub mod Units
pub mod Conservation
pub mod Cap
pub mod Restart
use wevibe_bench.Prelude.{
  Bool, true, false, not, ◌&&◌, ◌||◌, Option, none, some, List, [], ◌∷◌, String, map, str_eq,
  if◌then◌else◌, Result, ok, raise, raise_if, ◌>>=◌, ◌>>◌,
}
use wevibe_bench.Prelude.Int.{ℤ, pos, eqb_ℤ}
use wevibe_bench.Prelude.Json.{
  Json, int, str, obj, Fields, end, field, Builtins, get_default, to_str, to_int,
}
use wevibe_bench.Prelude.Dict.{lookup, insert, erase, string_eq}
use wevibe_bench.Cumulative.Files.{
  FileState, missing, unreadable, not_json, holds, Disk, Stage, make_parent, create_temporary,
  write_text, flush, sync, replace, run_stages,
}
use wevibe_bench.Proxy.Errors.{ProxyError, policy_mismatch, budget_exceeded, bad_value, os_error}
use wevibe_bench.Proxy.Double.{Double, nought, at_least_nought, min_of, to_float}

abbrev pub checkpoint_schema_version : ℤ
checkpoint_schema_version = pos 2

-- the file operations of `_persist`; no `try` stands around them
abbrev pub persist_stages : List Stage
persist_stages = make_parent ∷ create_temporary ∷ write_text ∷ flush ∷ sync ∷ replace ∷ []

pub record Ledger (W : Type 0) : Type 0 where
  pub run_id : String
  pub model_id : String
  pub profile_name : String
  pub hard_cap : W
  pub operational_target_usd : Option W
  pub reject_on_equality : Bool
  pub watch_only : Bool
  pub accrued_actual : W
  pub accrued_derived : W
  pub committed_unproven : W
  pub outstanding : List (String × W)

-- the ledger and its checkpoint file
pub record Books (W : Type 0) : Type 0 where
  pub ledger : Ledger W
  pub disk : Disk

-- The file system during a call: the text of the time, and the operations that fail.
pub record Weather : Type 0 where
  pub now : String
  pub fails : Stage → Bool

module _ {W : Type 0} (fl : Double W) where
  abbrev pub absolute_max_usd : W
  absolute_max_usd = fl.literal 12 0

  abbrev pub outstanding_fields : List (String × W) → Fields
  outstanding_fields [] = end
  outstanding_fields ((id, x) ∷ rest) = field id (fl.to_json x) (outstanding_fields rest)

  -- the payload of `_persist`
  unfoldable pub payload : String → Ledger W → Fields
  payload now l = field "schema_version" (int checkpoint_schema_version) (
      field "run_id" (str l.run_id) (
        field "model_id" (str l.model_id) (
          field "profile_name" (str l.profile_name) (
            field "hard_cap_usd" (fl.to_json l.hard_cap) (
              field "accrued_actual_usd" (fl.to_json l.accrued_actual) (
                field "accrued_derived_usd" (fl.to_json l.accrued_derived) (
                  field "committed_unproven_usd" (fl.to_json l.committed_unproven) (
                    field "outstanding" (obj (outstanding_fields l.outstanding))
                      (field "updated_at" (str now) end)))))))))

  -- `_persist`
  unfoldable pub persist : Weather → Ledger W → Disk → Result ProxyError (Unit {0}) × Disk
  unfolding payload run_stages
  persist weather l d =
      let (done, d') = run_stages weather.fails (obj (payload weather.now l)) persist_stages d in
      (if done then ok tt else raise os_error, d')

  -- `str(data.get(key, ""))` and `float(data.get(key, 0.0))`
  abbrev read_text : Builtins → String → Fields → String
  unfolding get_default to_str
  read_text py key data' = to_str py (get_default key (str "") data')

  unfoldable pub read_amount : String → Fields → Result ProxyError W
  unfolding get_default to_float
  read_amount key data' = to_float fl (get_default key (fl.to_json (nought fl)) data')

  -- an amount that is kept: `max(0.0, float(...))`
  unfoldable pub read_kept : String → Fields → Result ProxyError W
  unfolding read_amount
  read_kept key data' = do x ← read_amount key data'; ok (at_least_nought fl x)

  unfoldable pub read_outstanding : Fields → Result ProxyError (List (String × W))
  unfolding to_float
  read_outstanding end = ok []
  read_outstanding (field id v rest) = do
    x ← to_float fl v
    others ← read_outstanding rest
    ok ((id, at_least_nought fl x) ∷ others)

  abbrev pub as_object : Json → Result ProxyError Fields
  as_object (obj data') = ok data'
  as_object _ = raise (policy_mismatch "checkpoint_invalid")

  abbrev pub opened_file : FileState → Result ProxyError Json
  opened_file (holds v) = ok v
  opened_file _ = raise (policy_mismatch "checkpoint_invalid")

  -- `int(data.get("schema_version", 0))`
  unfoldable pub schema_of : Builtins → Fields → Result ProxyError ℤ
  unfolding get_default to_int
  schema_of py data' = elim (to_int py (get_default "schema_version" (int (pos 0)) data')) [
    | none ↦ raise bad_value
    | some n ↦ ok n
  ]

  -- `checkpoint_binding != self._binding()`
  unfoldable pub same_binding : Builtins → Fields → W → Ledger W → Bool
  unfolding read_text
  same_binding py data' cap_read l =
      str_eq (read_text py "run_id" data') l.run_id
      && str_eq (read_text py "model_id" data') l.model_id
      && str_eq (read_text py "profile_name" data') l.profile_name
      && fl.eq cap_read l.hard_cap

  -- `_load_checkpoint`
  unfoldable pub load_checkpoint : Builtins → FileState → Ledger W → Result ProxyError (Ledger W)
  unfolding schema_of read_amount same_binding get_default read_kept read_outstanding
  load_checkpoint py file l = do
    v ← opened_file file
    data' ← as_object v
    schema_version ← schema_of py data'
    raise_if (not (eqb_ℤ schema_version (pos 1) || eqb_ℤ schema_version checkpoint_schema_version))
        (policy_mismatch "checkpoint_schema_mismatch")
    cap_read ← read_amount "hard_cap_usd" data'
    raise_if (not (same_binding py data' cap_read l)) (policy_mismatch "policy_mismatch")
    outstanding' ← as_object (get_default "outstanding" (obj end) data')
    actual ← read_kept "accrued_actual_usd" data'
    derived ←
        (if eqb_ℤ schema_version (pos 1)
          then ok (nought fl)
          else read_kept "accrued_derived_usd" data')
    unproven ← read_kept "committed_unproven_usd" data'
    holds' ← read_outstanding outstanding'
    ok (record l {
      accrued_actual = actual;
      accrued_derived = derived;
      committed_unproven = unproven;
      outstanding = holds';
    })

  -- the arguments of the constructor, before its checkpoint is read or written
  unfoldable pub fresh_ledger :
      (run_id model_id profile_name : String)
      → (hard_cap_usd : W) → Option W
      → (reject_on_equality watch_only : Bool) → Ledger W
  fresh_ledger run_id model_id profile_name hard_cap_usd target reject watch = record {
    run_id = run_id;
    model_id = model_id;
    profile_name = profile_name;
    hard_cap = min_of fl hard_cap_usd absolute_max_usd;
    operational_target_usd = target;
    reject_on_equality = reject;
    watch_only = watch;
    accrued_actual = nought fl;
    accrued_derived = nought fl;
    committed_unproven = nought fl;
    outstanding = [];
  }

  -- `__init__`, of the ledger that its arguments give
  unfoldable pub open_ledger :
      Builtins → Weather → Ledger W → Disk → Result ProxyError (Ledger W) × Disk
  unfolding persist load_checkpoint
  open_ledger py weather l d = elim d.target [
    | missing ↦
        let (done, d') = persist weather l d in (elim done [ ok _ ↦ ok l | raise e ↦ raise e ], d')
    | file ↦ (load_checkpoint py file l, d)
  ]
