-- ===== src/Tests/Hashes.antt =====
-- Hashes, by SQLite's functions and by the fallback.
use lytecache.Common.{
  ℕ, String, Bool, true, false, Option, none, some, List, [], ◌∷◌, ◌++◌, ◌≡◌, refl, map, ℤ, pos,
  if◌then◌else◌, str_eq, ◌^◌, ◌-◌, ◌≢◌,
}
use lytecache.Errors.{ok, err, overflow}
use lytecache.Strconv.{Bytes, format_int, parse_int}
use lytecache.Value.{Value}
use lytecache.Table.{Row, Table, HasPrimaryKey, select_key, at_key}
use lytecache.World.{World, M}
use lytecache.World.Ends.{Ends}
use lytecache.Json.{Fields, has, get_field, set_field, del_field}
use lytecache.Json.Laws.{Edits, edit-Edits}
use lytecache.Hash.{rmw_hash}
use lytecache.Hash.Writes.{hset, hsetnx, hset_many, hdel, set_mutation}
use lytecache.Hash.Counts.{hincr_by, int_mutation}
use lytecache.Hash.Reads.{hmget, hlen, hget_all, hkeys}
use lytecache.Hash.Overflow.{Counts}
use lytecache.Hash.Fallback.{Rewrites, rmw_hash-Rewrites}
use lytecache.Tests.{config, row_of, world_of, returned, failed}

-- {"a":7}
abbrev doc : Bytes
doc = b'{' ∷ b'"' ∷ b'a' ∷ b'"' ∷ b':' ∷ b'7' ∷ b'}' ∷ []

abbrev hashes : Bool → World
hashes sql = world_of (record config { json1 = sql }) (row_of "app" "h" doc 4 none ∷ [])

hashes-HasPrimaryKey : HasPrimaryKey (hashes false).db.rows
unfolding select_key
hashes-HasPrimaryKey = (refl, tt)

abbrev twelve : Value
twelve = Value.int (pos 12)

-- {"a":7,"b":12}
abbrev both : Fields
both = ("a", b'7' ∷ []) ∷ ("b", b'1' ∷ b'2' ∷ []) ∷ []

hset_sql : (hset "h" "b" twelve none (hashes true)).0 ≡ ok true
unfolding hset lytecache.World.◌>>=◌ lytecache.Json.encode_hash_value
    lytecache.Tests.Documents.text_of lytecache.Kv.capacity_check lytecache.Sweep.is_no_eviction
    lytecache.World.now_millis lytecache.World.in_tx lytecache.World.exec
    lytecache.Hash.Writes.upsert_hash lytecache.Table.upsert at_key lytecache.Kv.fresh_row
    lytecache.Table.is_expired lytecache.Hash.is_object lytecache.Tests.Documents.is_document
    lytecache.Tests.Documents.type_of get_field lytecache.Json.index
    lytecache.Tests.Documents.members_of lytecache.Changes.changed lytecache.World.when
    lytecache.Changes.listener_wants lytecache.Sweep.maybe_evict lytecache.Sweep.is_unlimited
    lytecache.Sweep.maybe_opportunistic_sweep lytecache.Common.ltb_ℤ
hset_sql = refl

hset_fallback : (hset "h" "b" twelve none (hashes false)).0 ≡ ok true
unfolding hset lytecache.World.◌>>=◌ lytecache.Json.encode_hash_value
    lytecache.Tests.Documents.text_of rmw_hash lytecache.World.now_millis
    lytecache.Hash.in_immediate lytecache.World.call lytecache.World.in_tx lytecache.Hash.load_hash
    lytecache.World.query lytecache.Hash.loaded_row lytecache.Hash.live_row
    lytecache.Table.select_where lytecache.Kv.live_at at_key lytecache.Table.is_live
    lytecache.Json.parse_json_object lytecache.Tests.Documents.is_document set_mutation
    lytecache.World.exec lytecache.World.when lytecache.Changes.changed
    lytecache.Changes.listener_wants lytecache.Sweep.maybe_evict lytecache.Sweep.is_no_eviction
    lytecache.Sweep.is_unlimited has lytecache.Json.index lytecache.Json.collect
    lytecache.Tests.Documents.members_of set_field
hset_fallback = refl

hget_sql : (hget_all "h" (hset "h" "b" twelve none (hashes true)).1).0 ≡ ok both
unfolding hget_all lytecache.World.◌>>=◌ lytecache.World.now_millis lytecache.Hash.load_hash
    lytecache.World.query hset lytecache.Json.encode_hash_value lytecache.Tests.Documents.text_of
    lytecache.Kv.capacity_check lytecache.Sweep.is_no_eviction lytecache.World.in_tx
    lytecache.World.exec lytecache.Hash.Writes.upsert_hash lytecache.Table.upsert at_key
    lytecache.Kv.fresh_row lytecache.Table.is_expired lytecache.Hash.is_object
    lytecache.Tests.Documents.is_document lytecache.Tests.Documents.type_of get_field
    lytecache.Json.index lytecache.Tests.Documents.members_of lytecache.Changes.changed
    lytecache.World.when lytecache.Changes.listener_wants lytecache.Sweep.maybe_evict
    lytecache.Sweep.is_unlimited lytecache.Sweep.maybe_opportunistic_sweep lytecache.Common.ltb_ℤ
    lytecache.Hash.loaded_row lytecache.Hash.live_row lytecache.Table.select_where
    lytecache.Kv.live_at lytecache.Table.is_live lytecache.Json.parse_json_object
    lytecache.Tests.Documents.document_of set_field format_int lytecache.Hash.record_hash_read
    lytecache.Kv.hit lytecache.Sweep.buffer_lru lytecache.Sweep.buffer_access lytecache.Json.collect
hget_sql = refl

hget_fallback : (hget_all "h" (hset "h" "b" twelve none (hashes false)).1).0 ≡ ok both
unfolding hget_all lytecache.World.◌>>=◌ lytecache.World.now_millis lytecache.Hash.load_hash
    lytecache.World.query hset lytecache.Json.encode_hash_value lytecache.Tests.Documents.text_of
    rmw_hash lytecache.Hash.in_immediate lytecache.World.in_tx lytecache.Hash.loaded_row
    lytecache.Hash.live_row lytecache.Table.select_where lytecache.Kv.live_at at_key
    lytecache.Table.is_live lytecache.Json.parse_json_object lytecache.Tests.Documents.is_document
    set_mutation lytecache.World.exec lytecache.World.when lytecache.Changes.changed
    lytecache.Changes.listener_wants lytecache.Sweep.maybe_evict lytecache.Sweep.is_no_eviction
    lytecache.Sweep.is_unlimited lytecache.Hash.write_table lytecache.Table.update_where
    lytecache.Json.marshal lytecache.Json.marshal_fields set_field lytecache.Json.index
    lytecache.Json.collect lytecache.Tests.Documents.members_of format_int
    lytecache.Hash.record_hash_read lytecache.Kv.hit lytecache.Sweep.buffer_lru
    lytecache.Sweep.buffer_access lytecache.Sweep.maybe_opportunistic_sweep lytecache.Common.ltb_ℤ
hget_fallback = refl

hincr_sql : (hincr_by "h" "a" (pos 5) none (hashes true)).0 ≡ ok (pos 12)
unfolding hincr_by lytecache.World.◌>>=◌ lytecache.Hash.Counts.count_by_sql
    lytecache.Kv.capacity_check lytecache.Sweep.is_no_eviction lytecache.World.now_millis
    lytecache.World.in_tx lytecache.World.exec lytecache.Hash.Writes.upsert_hash
    lytecache.Table.upsert at_key lytecache.Kv.fresh_row lytecache.Table.is_expired
    lytecache.Hash.is_object lytecache.Tests.Documents.is_document
    lytecache.Hash.Counts.int_increment lytecache.Tests.Documents.type_of get_field
    lytecache.Json.index lytecache.Tests.Documents.members_of lytecache.Tests.Documents.sum_of
    lytecache.Tests.Documents.integer_at parse_int select_key lytecache.Tests.Documents.text_at
    lytecache.Tests.Documents.document_of set_field format_int lytecache.Common.◌+ℤ◌
    lytecache.Changes.changed lytecache.World.when lytecache.Changes.listener_wants
    lytecache.Sweep.maybe_evict lytecache.Sweep.is_unlimited
hincr_sql = refl

hincr_fallback : (hincr_by "h" "a" (pos 5) none (hashes false)).0 ≡ ok (pos 12)
unfolding hincr_by lytecache.World.◌>>=◌ rmw_hash lytecache.World.now_millis
    lytecache.Hash.in_immediate lytecache.World.call lytecache.World.in_tx lytecache.Hash.load_hash
    lytecache.World.query lytecache.Hash.loaded_row lytecache.Hash.live_row
    lytecache.Table.select_where lytecache.Kv.live_at at_key lytecache.Table.is_live
    lytecache.Json.parse_json_object lytecache.Tests.Documents.is_document int_mutation
    lytecache.Json.parse_json_int get_field lytecache.Json.index lytecache.Json.collect
    lytecache.Tests.Documents.members_of set_field parse_int lytecache.Hash.Counts.overflows
    lytecache.Common.ltb_ℤ lytecache.Common.◌-ℤ◌ lytecache.World.exec lytecache.World.when
    lytecache.Changes.changed lytecache.Changes.listener_wants lytecache.Sweep.maybe_evict
    lytecache.Sweep.is_no_eviction lytecache.Sweep.is_unlimited lytecache.Common.◌+ℤ◌
hincr_fallback = refl

hsetnx_sql : (hsetnx "h" "a" twelve none (hashes true)).0 ≡ ok false
unfolding hsetnx lytecache.World.◌>>=◌ lytecache.Json.encode_hash_value
    lytecache.Tests.Documents.text_of lytecache.Kv.capacity_check lytecache.Sweep.is_no_eviction
    lytecache.World.now_millis lytecache.World.in_tx lytecache.World.exec
    lytecache.Hash.Writes.upsert_hash lytecache.Table.upsert at_key lytecache.Kv.fresh_row
    lytecache.Table.is_expired lytecache.Hash.is_object lytecache.Tests.Documents.is_document
    lytecache.Tests.Documents.type_of get_field lytecache.Json.index
    lytecache.Tests.Documents.members_of lytecache.Hash.check_hash_type lytecache.World.query
    lytecache.Hash.live_row lytecache.Table.select_where lytecache.Kv.live_at
    lytecache.Table.is_live lytecache.World.when
hsetnx_sql = refl

hdel_sql : (hdel "h" ("b" ∷ "a" ∷ "a" ∷ []) (hashes true)).0 ≡ ok 1
unfolding hdel lytecache.Kv.dedupe lytecache.Kv.mentions lytecache.World.◌>>=◌
    lytecache.World.now_millis lytecache.World.in_tx lytecache.Hash.Writes.remove_each
    lytecache.World.exec lytecache.Table.update_where lytecache.Kv.live_at at_key
    lytecache.Table.is_live lytecache.Hash.is_object lytecache.Tests.Documents.is_document
    lytecache.Tests.Documents.type_of get_field lytecache.Json.index
    lytecache.Tests.Documents.members_of lytecache.World.when lytecache.Changes.changed
    lytecache.Changes.listener_wants
hdel_sql = refl

hdel_fallback : (hdel "h" ("b" ∷ "a" ∷ "a" ∷ []) (hashes false)).0 ≡ ok 1
unfolding hdel lytecache.Kv.dedupe lytecache.Kv.mentions lytecache.World.◌>>=◌ rmw_hash
    lytecache.World.now_millis lytecache.Hash.in_immediate lytecache.World.call
    lytecache.World.in_tx lytecache.Hash.load_hash lytecache.World.query lytecache.Hash.loaded_row
    lytecache.Hash.live_row lytecache.Table.select_where lytecache.Kv.live_at at_key
    lytecache.Table.is_live lytecache.Json.parse_json_object lytecache.Tests.Documents.is_document
    lytecache.Hash.Writes.del_mutation lytecache.Hash.Writes.del_all del_field lytecache.Json.index
    lytecache.Json.collect lytecache.Tests.Documents.members_of set_field lytecache.World.exec
    lytecache.World.when lytecache.Changes.changed lytecache.Changes.listener_wants
    lytecache.Sweep.maybe_evict lytecache.Sweep.is_no_eviction lytecache.Sweep.is_unlimited
hdel_fallback = refl

hset_many_sql :
    (hlen "k" (hset_many "k" (("b", twelve) ∷ ("a", twelve) ∷ []) none (hashes true)).1).0 ≡ ok 2
unfolding hlen lytecache.World.◌>>=◌ lytecache.Hash.Reads.hash_entries lytecache.World.now_millis
    hset_many lytecache.Hash.Writes.encode_entries lytecache.Hash.Writes.sort_entries
    lytecache.Bulk.text_le lytecache.Json.encode_hash_value lytecache.Tests.Documents.text_of
    lytecache.Kv.capacity_check lytecache.Sweep.is_no_eviction lytecache.World.in_tx
    lytecache.Hash.Writes.set_groups lytecache.World.exec lytecache.Hash.Writes.upsert_hash
    lytecache.Table.upsert at_key lytecache.Kv.fresh_row lytecache.Changes.changed
    lytecache.World.when lytecache.Changes.listener_wants lytecache.Sweep.maybe_evict
    lytecache.Sweep.is_unlimited lytecache.World.query lytecache.Hash.live_row
    lytecache.Table.select_where lytecache.Kv.live_at lytecache.Table.is_live
    lytecache.Kv.expires_at_arg lytecache.Hash.is_object lytecache.Tests.Documents.is_document
    lytecache.Hash.Writes.set_pairs lytecache.Tests.Documents.document_of lytecache.Sweep.buffer_lru
    lytecache.Sweep.buffer_access lytecache.Tests.Documents.members_of set_field
    lytecache.Json.index format_int
hset_many_sql = refl

edit-Edits_example : Edits "b" (b'0' ∷ []) both
unfolding get_field lytecache.Json.index
edit-Edits_example = edit-Edits "b" (b'0' ∷ []) both (refl, (refl, tt))

rmw_run : (rmw_hash "h" none true (set_mutation "b" (b'1' ∷ [])) (hashes false)).0 ≡ ok true
unfolding rmw_hash lytecache.World.◌>>=◌ lytecache.World.now_millis lytecache.Hash.in_immediate
    lytecache.World.call lytecache.World.in_tx lytecache.Hash.load_hash lytecache.World.query
    lytecache.Hash.loaded_row lytecache.Hash.live_row lytecache.Table.select_where set_mutation
    lytecache.Kv.live_at at_key lytecache.Table.is_live lytecache.Json.parse_json_object
    lytecache.Tests.Documents.is_document lytecache.World.exec lytecache.World.when
    lytecache.Changes.changed lytecache.Changes.listener_wants lytecache.Sweep.maybe_evict
    lytecache.Sweep.is_no_eviction lytecache.Sweep.is_unlimited has lytecache.Json.index
    lytecache.Json.collect lytecache.Tests.Documents.members_of set_field
rmw_run = refl

rmw_hash-Rewrites_example :
    Ends
      (hashes false)
      (rmw_hash "h" none true (set_mutation "b" (b'1' ∷ [])))
      (λ r u. Rewrites (hashes false) "h" none true (set_mutation "b" (b'1' ∷ [])) r u.db.rows)
      (λ _ u. u.db.rows ≡ (hashes false).db.rows)
rmw_hash-Rewrites_example =
    rmw_hash-Rewrites (hashes false) "h" none true (set_mutation "b" (b'1' ∷ []))
      hashes-HasPrimaryKey

abbrev big : ℤ
big = pos (2 ^ 63 - 1)

overflow_run : (rmw_hash "h" none true (int_mutation "a" big) (hashes false)).0 ≡ err overflow
unfolding rmw_hash lytecache.World.◌>>=◌ lytecache.World.now_millis lytecache.Hash.in_immediate
    lytecache.World.call lytecache.World.in_tx lytecache.Hash.load_hash lytecache.World.query
    lytecache.Hash.loaded_row lytecache.Hash.live_row lytecache.Table.select_where int_mutation
    lytecache.Kv.live_at at_key lytecache.Table.is_live lytecache.Json.parse_json_object
    lytecache.Tests.Documents.is_document lytecache.Json.parse_json_int get_field
    lytecache.Json.index lytecache.Json.collect lytecache.Tests.Documents.members_of set_field
    parse_int lytecache.Hash.Counts.overflows lytecache.Common.ltb_ℤ lytecache.Common.◌-ℤ◌
overflow_run = refl
