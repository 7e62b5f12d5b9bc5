-- ===== src/Usage/Tests.antt =====
-- Two callers' records, and the theorem on them.
use openspace_os_core.Base.{ℕ, ◌≡◌, refl, arith, String, none, List, [], ◌∷◌}
use openspace_os_core.Usage.{
  UsageRecord, BucketKey, aggregate, aggregate_from, add_count, same_key, key_of,
}
use openspace_os_core.Usage.Tally.{AreDistinct, find_count, sum_in, aggregate_lem}

abbrev call : String → ℕ → ℕ → UsageRecord
call client count at = record {
  tenant_id = "t";
  client_id = client;
  endpoint = "/nodes";
  operation = "GET";
  unit = "call";
  count = count;
  at = at;
}

abbrev calls : List UsageRecord
calls = call "a" 1 61 ∷ call "b" 2 70 ∷ call "a" 4 119 ∷ call "a" 8 120 ∷ []

aggregate_test :
    aggregate 60 calls
    ≡ (key_of 60 (call "a" 0 60), 5)
      ∷ (key_of 60 (call "b" 0 60), 2)
      ∷ (key_of 60 (call "a" 0 120), 8)
      ∷ []
unfolding aggregate aggregate_from add_count same_key
aggregate_test = refl

aggregate_lem_example :
    AreDistinct (aggregate 60 calls)
    × ((k : BucketKey) → find_count k (aggregate 60 calls) ≡ sum_in 60 k none calls)
aggregate_lem_example = aggregate_lem 60 calls (omega arith)
