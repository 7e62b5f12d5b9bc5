-- ===== src/Usage.antt =====
-- The metering of use: internal/usage/usage.go and collector.go. An int64 stands for its residue
-- modulo 2 ^ 64; an instant is the number of nanoseconds since Go's zero time, from which
-- `Time.Truncate` counts; the callers' times are of one Location, which a key of Go's map has too. The store behind the collector is an argument.
pub mod Tally
pub mod Tests
use openspace_os_core.Base.{
  inr, inl, ◌⊎◌, ℕ, suc, ◌+◌, ◌-◌, ◌%◌, ◌^◌, ltb, leb_ℤ, ℤ, pos, pos_part, ◌==◌, String, Bool, true,
  false, not, ◌&&◌, ◌||◌, Option, none, some, List, [], ◌∷◌, ◌++◌, length, map, if◌then◌else◌,
  str_eq,
}

unfoldable pub valid_unit : String → Bool
valid_unit u =
    str_eq u "call"
    || (str_eq u "event"
        || (str_eq u "byte" || (str_eq u "frame" || (str_eq u "node" || str_eq u "subscribe_sec"))))

pub record UsageRecord : Type 0 where
  pub tenant_id : String
  pub client_id : String
  pub endpoint : String
  pub operation : String
  pub unit : String
  pub count : ℕ
  pub at : ℕ

-- The key of `aggregate`, which is a bucket but for its count.
pub record BucketKey : Type 0 where
  pub tenant : String
  pub client : String
  pub endpoint : String
  pub operation : String
  pub unit : String
  pub bucket_start : ℕ
  pub bucket_end : ℕ

abbrev pub Bucket : Type 0
Bucket = BucketKey × ℕ

unfoldable pub same_key : BucketKey → BucketKey → Bool
same_key a b =
    str_eq a.tenant b.tenant
    && (str_eq a.client b.client
        && (str_eq a.endpoint b.endpoint
            && (str_eq a.operation b.operation
                && (str_eq a.unit b.unit
                    && (a.bucket_start == b.bucket_start && a.bucket_end == b.bucket_end)))))

abbrev pub add64 : ℕ → ℕ → ℕ
add64 a b = (a + b) % 2 ^ 64

abbrev pub key_of : ℕ → UsageRecord → BucketKey
key_of interval r =
    let start = r.at - r.at % interval in
    record {
      tenant = r.tenant_id;
      client = r.client_id;
      endpoint = r.endpoint;
      operation = r.operation;
      unit = r.unit;
      bucket_start = start;
      bucket_end = start + interval;
    }

-- `agg[k] += r.Count`
unfoldable pub add_count : BucketKey → ℕ → List Bucket → List Bucket
add_count k n [] = (k, add64 0 n) ∷ []
add_count k n ((j, m) ∷ agg) =
    if same_key j k then (j, add64 m n) ∷ agg else (j, m) ∷ add_count k n agg

unfoldable pub aggregate_from : ℕ → List Bucket → List UsageRecord → List Bucket
aggregate_from interval agg [] = agg
aggregate_from interval agg (r ∷ rs) =
    aggregate_from interval (add_count (key_of interval r) r.count agg) rs

unfoldable pub aggregate : ℕ → List UsageRecord → List Bucket
unfolding aggregate_from
aggregate interval rs = aggregate_from interval [] rs

pub record CollectorConfig : Type 0 where
  pub bucket_interval : ℤ
  pub flush_interval : ℤ
  pub queue_capacity : ℤ

abbrev or_default : ℤ → ℕ → ℕ
or_default n d = if leb_ℤ n (pos 0) then d else pos_part n

pub record Collector (S : Type 0) : Type 0 where
  pub store : S
  pub queue : List UsageRecord
  pub capacity : ℕ
  pub dropped : ℕ
  pub flushed : ℕ
  pub bucket_interval : ℕ

-- `InsertBatch` of the store: the number of rows, or an error's text.
abbrev pub InsertBatch : Type 0 → Type 0
InsertBatch S = List Bucket → S → (String ⊎ ℕ) × S

module _ {S : Type 0} where
  -- `NewCollector`, with the defaults of `applyDefaults`; the interval of flushes is the ticker's.
  unfoldable pub new_collector : S → CollectorConfig → Collector S
  new_collector store cfg = record {
    store = store;
    queue = [];
    capacity = or_default cfg.queue_capacity 10000;
    dropped = 0;
    flushed = 0;
    bucket_interval = or_default cfg.bucket_interval 60000000000;
  }

  -- `Record`; the first argument is `ctx.Err()`.
  unfoldable pub record_usage :
      Option String → UsageRecord → Collector S → Option String × Collector S
  record_usage (some e) r c = (some e, c)
  record_usage none r c = (
    none,
    if ltb (length c.queue) c.capacity
        then record c { queue = c.queue ++ (r ∷ []) }
        else record c { dropped = suc c.dropped },
  )

  abbrev pub inserted : Collector S → (String ⊎ ℕ) × S → Collector S
  inserted c (inl e, store) = record c { store = store; queue = [] }
  inserted c (inr n, store) = record c { store = store; queue = []; flushed = c.flushed + n }

  -- `flushAll`, with a store.
  unfoldable pub flush_all : InsertBatch S → Collector S → Collector S
  flush_all insert_batch c = elim c.queue [
    | [] ↦ c
    | r ∷ rs ↦ inserted c (insert_batch (aggregate c.bucket_interval (r ∷ rs)) c.store)
  ]
