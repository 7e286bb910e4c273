-- ===== src/Proxy/Logger.antt =====
-- `ProxyLogger.event` of wevibe_bench/adapters/openrouter_proxy.py, which lets no secret and no
-- content of a request into the log.
use Prim.Native.String.{◌++◌ as append}
use wevibe_bench.Prelude.{
  Bool, false, ◌||◌, Option, none, some, List, [], ◌∷◌, ◌++◌, String, str_eq, if◌then◌else◌, Result,
  ok, raise,
}
use wevibe_bench.Prelude.Text.{str_ltb}
use wevibe_bench.Prelude.Json.{Json, Fields, end, field}
use wevibe_bench.Proxy.Errors.{ProxyError, forbidden_log_field}

abbrev pub forbidden_fields : List String
forbidden_fields =
    "messages" ∷ "body" ∷ "prompt" ∷ "response" ∷ "authorization" ∷ "api_key" ∷ "key" ∷ []

abbrev pub contains : List String → String → Bool
contains [] s = false
contains (x ∷ xs) s = str_eq x s || contains xs s

-- `lower` is `str.lower`; the first field that is forbidden, if there is one.
unfoldable pub first_forbidden : (lower : String → String) → Fields → Option String
first_forbidden lower end = none
first_forbidden lower (field k v fs) =
    if contains forbidden_fields (lower k) then some k else first_forbidden lower fs

-- `sorted(fields)`, which are keyword arguments and so have distinct names
unfoldable pub insert_field : String → Json → Fields → Fields
unfolding str_ltb
insert_field k v end = field k v end
insert_field k v (field j w fs) =
    if str_ltb k j then field k v (field j w fs) else field j w (insert_field k v fs)

unfoldable pub sort_fields : Fields → Fields
unfolding insert_field
sort_fields end = end
sort_fields (field k v fs) = insert_field k v (sort_fields fs)

-- The chunks of a line; `compact` is `json.dumps` with compact separators and without escapes.
abbrev pub chunks : (compact : Json → String) → Fields → String
chunks compact end = ""
chunks compact (field k v fs) =
    append " " (append k (append "=" (append (compact v) (chunks compact fs))))

-- the lines of the log, with the new one at the end
unfoldable pub event :
    (lower : String → String) (compact : Json → String) (timestamp : String)
    → Fields
    → List String
    → Result ProxyError (List String)
unfolding first_forbidden sort_fields
event lower compact timestamp fields lines = elim (first_forbidden lower fields) [
  | some k ↦ raise (forbidden_log_field k)
  | none ↦ ok (
      lines
      ++ (append timestamp (append " |" (append (chunks compact (sort_fields fields)) "\n")) ∷ []))
]
