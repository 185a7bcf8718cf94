-- ===== src/Tests/Buckets.antt =====
-- The token bucket, over fixed-point numbers.
use adaptive_api_routing_gat.Base.{◌≡◌, refl, arith}
use adaptive_api_routing_gat.Base.Int.{pos}
use adaptive_api_routing_gat.Base.Float.{Nanos, nanos_float, Nanos-IsFloat}
use adaptive_api_routing_gat.RateLimit.{TokenBucket, new_token_bucket}
use adaptive_api_routing_gat.RateLimit.Bounds.{granted, granted-count}

abbrev bucket : TokenBucket Nanos
bucket = record { rate = 500_000_000; burst = 2_000_000_000; tokens = 2_000_000_000; last = 7 }

bucket_is_new : new_token_bucket 500_000_000 (pos 2) 7 ≡ bucket
unfolding new_token_bucket
bucket_is_new = refl

granted-count_example : granted 3 7 bucket ≡ 2
granted-count_example = granted-count Nanos-IsFloat 3 7 2 bucket (omega arith) refl refl
