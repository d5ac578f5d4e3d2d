-- ===== src/BloomFilter/Join.antt =====
-- The join's own decision for a pair of rows (`unitseam_hj_join_pair`) and its key of one row
-- (`unitseam_hj_second_key`) of unit/query/query_hash_join.bloom_filter/hooks.cpp. The engine's
-- functions are a parameter; a HASH_SCAN_KEY that one of them writes is returned as a new value.
use dev4_review_workspace.Prelude.{
  ℕ, Bool, false, not, ◌||◌, Option, none, some, if◌then◌else◌, ℤ, pos, negsuc, eqb_ℤ,
}

-- HASHJOIN_FETCH_INFO as the hooks fill it
pub record FetchInfo (Input Domains : Type 0) : Type 0 where
  pub input : Input
  pub coerce_domains : Domains
  pub need_coerce_domains : Bool

-- What hjoin_fetch_key leaves: its error code, 0 for NO_ERROR, `*skip` and the key
pub record Fetched (Key : Type 0) : Type 0 where
  pub error : ℤ
  pub skip : Bool
  pub key : Option Key

pub record JoinEngine : Type 1 where
  pub World : Type 0
  pub Record : Type 0
  pub Input : Type 0
  pub Domains : Type 0
  pub Key : Type 0
  -- qdata_alloc_hscan_key, none for NULL
  pub alloc_hscan_key : ℕ → World → Option Key × World
  -- qdata_free_hscan_key
  pub free_hscan_key : Option Key → ℕ → World → World
  -- hjoin_fetch_key: the key to write and the one to compare with
  pub fetch_key :
      FetchInfo Input Domains → Record → Option Key → Option Key → World → Fetched Key × World
  -- qdata_hash_scan_key and qdata_hscan_key_eq
  pub hash_key : Option Key → ℕ
  pub key_eq : Option Key → Option Key → ℤ

-- HASHJOIN_DOMAIN_INFO and the number of key columns of the hash join
pub record Proc (e : JoinEngine) : Type 0 where
  pub outer : e.Input
  pub inner : e.Input
  pub coerce_domains : e.Domains
  pub need_coerce_domains : Bool
  pub ls_column_cnt : ℕ

pub record Pair : Type 0 where
  pub error : ℤ
  pub first_null : Bool
  pub second_null : Bool
  pub first_hash : ℕ
  pub second_hash : ℕ
  pub key_eq : Bool
  pub compare_eq : Bool

-- `*first_null = *second_null = *key_eq = *compare_eq = false; *first_hash = *second_hash = 0`
abbrev pub no_pair : Pair
no_pair = record {
  error = pos 0;
  first_null = false;
  second_null = false;
  first_hash = 0;
  second_hash = 0;
  key_eq = false;
  compare_eq = false;
}

module _ (e : JoinEngine) where
  unfoldable pub first_info : Proc e → Bool → FetchInfo e.Input e.Domains
  first_info proc first_is_outer = record {
    input = if first_is_outer then proc.outer else proc.inner;
    coerce_domains = proc.coerce_domains;
    need_coerce_domains = proc.need_coerce_domains;
  }

  unfoldable pub second_info : Proc e → Bool → FetchInfo e.Input e.Domains
  second_info proc first_is_outer = record {
    input = if first_is_outer then proc.inner else proc.outer;
    coerce_domains = proc.coerce_domains;
    need_coerce_domains = proc.need_coerce_domains;
  }

  -- The comparison of two keys that are not NULL, with k3 as the second fetch of the second row; k3
  -- as it is freed
  unfoldable pub compare_pair :
      Proc e
      → Bool
      → e.Record
      → Option e.Key
      → Option e.Key
      → Option e.Key
      → Pair
      → e.World
      → Pair × (Option e.Key × e.World)
  unfolding second_info
  compare_pair proc first_is_outer second_rec k1 k2 k3 p w =
      let (f, after) = e.fetch_key (second_info proc first_is_outer) second_rec k3 k1 w in
      let equal = not (eqb_ℤ (e.key_eq k1 k2) (pos 0)) in
      if eqb_ℤ f.error (pos 0)
      then (record p { key_eq = equal; compare_eq = not f.skip }, (f.key, after))
      else (record p { error = f.error; key_eq = equal }, (f.key, after))

  -- The NULL keys and the hashes, after both fetches
  unfoldable pub hash_pair : Option e.Key → Option e.Key → Bool → Bool → Pair
  hash_pair k1 k2 first_null second_null = record no_pair {
    first_null = first_null;
    second_null = second_null;
    first_hash = if first_null then 0 else e.hash_key k1;
    second_hash = if second_null then 0 else e.hash_key k2;
  }

  -- Those and the comparison
  unfoldable pub judge_pair :
      Proc e
      → Bool
      → e.Record
      → Option e.Key
      → Option e.Key
      → Option e.Key
      → Bool
      → Bool
      → e.World
      → Pair × (Option e.Key × e.World)
  unfolding compare_pair hash_pair
  judge_pair proc first_is_outer second_rec k1 k2 k3 first_null second_null w =
      let p = hash_pair k1 k2 first_null second_null in
      if first_null || second_null
      then (p, (k3, w))
      else compare_pair proc first_is_outer second_rec k1 k2 k3 p w

  -- The three keys as they are freed, and the world
  unfoldable pub fetch_second :
      Proc e
      → Bool
      → e.Record
      → Option e.Key
      → Option e.Key
      → Option e.Key
      → Bool
      → e.World
      → Pair × (Option e.Key × (Option e.Key × e.World))
  unfolding second_info judge_pair
  fetch_second proc first_is_outer second_rec k1 k2 k3 first_null w =
      let (f, after) = e.fetch_key (second_info proc first_is_outer) second_rec k2 none w in
      if eqb_ℤ f.error (pos 0)
      then (let (p, (k3', w')) =
            judge_pair proc first_is_outer second_rec k1 f.key k3 first_null f.skip after in
          (p, (f.key, (k3', w'))))
      else (record no_pair { error = f.error; first_null = first_null }, (f.key, (k3, after)))

  unfoldable pub fetch_first :
      Proc e
      → Bool
      → e.Record
      → e.Record
      → Option e.Key
      → Option e.Key
      → Option e.Key
      → e.World
      → Pair × (Option e.Key × (Option e.Key × (Option e.Key × e.World)))
  unfolding first_info fetch_second
  fetch_first proc first_is_outer first_rec second_rec k1 k2 k3 w =
      let (f, after) = e.fetch_key (first_info proc first_is_outer) first_rec k1 none w in
      if eqb_ℤ f.error (pos 0)
      then (let (p, rest) = fetch_second proc first_is_outer second_rec f.key k2 k3 f.skip after in
          (p, (f.key, rest)))
      else (record no_pair { error = f.error }, (f.key, (k2, (k3, after))))

  -- The label `end`
  unfoldable pub free_keys : ℕ → Option e.Key → Option e.Key → Option e.Key → e.World → e.World
  free_keys key_cnt k1 k2 k3 w =
      e.free_hscan_key k3 key_cnt (e.free_hscan_key k2 key_cnt (e.free_hscan_key k1 key_cnt w))

  unfoldable pub unitseam_hj_join_pair :
      Proc e → Bool → e.Record → e.Record → e.World → Pair × e.World
  unfolding fetch_first free_keys
  unitseam_hj_join_pair proc first_is_outer first_rec second_rec w =
      let (k1, w1) = e.alloc_hscan_key proc.ls_column_cnt w in
      let (k2, w2) = e.alloc_hscan_key proc.ls_column_cnt w1 in
      let (k3, w3) = e.alloc_hscan_key proc.ls_column_cnt w2 in
      let (p, (k1', (k2', (k3', w4)))) =
        fetch_first proc first_is_outer first_rec second_rec k1 k2 k3 w3 in
      (p, free_keys proc.ls_column_cnt k1' k2' k3' w4)

  -- The result, `*hash` and the world
  unfoldable pub unitseam_hj_second_key : Proc e → Bool → e.Record → e.World → ℤ × (ℕ × e.World)
  unfolding second_info
  unitseam_hj_second_key proc first_is_outer r w =
      let (key, w1) = e.alloc_hscan_key proc.ls_column_cnt w in
      elim key [
        | none ↦ (negsuc 0, (0, w1))
        | some k ↦
            let (f, w2) = e.fetch_key (second_info proc first_is_outer) r (some k) none w1 in
            let rc =
              if not (eqb_ℤ f.error (pos 0)) then negsuc 0 else if f.skip then pos 1 else pos 0 in
            (
              rc,
              (
                if eqb_ℤ rc (pos 0) then e.hash_key f.key else 0,
                e.free_hscan_key f.key proc.ls_column_cnt w2,
              ),
            )
      ]
