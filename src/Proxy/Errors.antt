-- ===== src/Proxy/Errors.antt =====
-- The exceptions of the proxy: the classes of wevibe_bench/adapters/openrouter_proxy.py with their
-- reason or message, and Python's own.
use wevibe_bench.Prelude.{String}

pub data ProxyError : Type 0 where
  credential_error : (message : String) → ProxyError
  unknown_model model_mismatch budget_exceeded : ProxyError
  profile_blocked protected_field policy_mismatch : (reason : String) → ProxyError
  pricing_gate : (message : String) → ProxyError
  -- `raise ValueError("missing pricing row")`
  missing_pricing : ProxyError
  -- a log line that would bear a field that is not to be logged
  forbidden_log_field : String → ProxyError
  -- `d[key]` without the key, a value that a builtin refuses, and a file operation that fails
  missing_key : String → ProxyError
  bad_value os_error : ProxyError
