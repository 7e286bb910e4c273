-- ===== src/Proxy/Cost/Laws.antt =====
-- The tokens that an estimate charges.
use wevibe_bench.Prelude.{◌≡◌, arith}
use wevibe_bench.Prelude.Int.{ℤ, pos, negsuc, ◌+ℤ◌, ◌-ℤ◌, ◌≤ℤ◌}
use wevibe_bench.Proxy.Cost.{split_prompt}

-- For counts that are not negative, the cached, the written and the other prompt tokens make up the
-- prompt: each token is charged once, none of the three is negative, and no more are charged as
-- cached or as written than were reported so.
pub split_prompt_lem :
    (prompt cached cache_write : ℤ)
    → pos 0 ≤ℤ prompt
    → pos 0 ≤ℤ cached
    → pos 0 ≤ℤ cache_write
    → let t = split_prompt prompt cached cache_write in
      ((t.cached +ℤ t.cache_write) +ℤ t.uncached_input ≡ prompt)
      × (pos 0 ≤ℤ t.cached)
      × (pos 0 ≤ℤ t.cache_write)
      × (pos 0 ≤ℤ t.uncached_input)
      × (t.cached ≤ℤ cached)
      × (t.cache_write ≤ℤ cache_write)
unfolding split_prompt ◌-ℤ◌ ◌+ℤ◌
split_prompt_lem (pos a) (pos b) (pos c) h1 h2 h3 = ground arith
split_prompt_lem (negsuc a) (pos b) (pos c) h1 h2 h3 = absurd (omega arith)
split_prompt_lem a (negsuc b) c h1 h2 h3 = absurd (omega arith)
split_prompt_lem (pos a) (pos b) (negsuc c) h1 h2 h3 = absurd (omega arith)
split_prompt_lem (negsuc a) (pos b) (negsuc c) h1 h2 h3 = absurd (omega arith)
