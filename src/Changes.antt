-- ===== src/Changes.antt =====
-- lytecache-go/changes.go: change records, the listeners' dispatcher and published changes.
pub mod Rows
pub mod Dispatch
pub mod Listeners
pub mod Safe
use lytecache.Common.{
  ℕ, zero, suc, ◌+◌, String, Bool, true, false, not, ◌&&◌, ◌||◌, Option, none, some, List, [], ◌∷◌,
  ◌++◌, map, ltb, leb, ◌==◌, if◌then◌else◌, pos, ltb_ℤ, length, str_eq,
}
use lytecache.Errors.{Result, ok, err, invalid_argument}
use lytecache.Value.{Value}
use lytecache.World.{
  World, M, Cache, Config, Op, op_set, op_delete, op_flush, ChangeRecord, Dispatcher, ◌>>=◌, ◌>>◌,
  pure, attempt, get_cache, get_env, set_cache, when,
}
use lytecache.Events.{insert_events}

abbrev pub cache_channel : String
cache_channel = "__cache__"

abbrev pub max_dispatch_depth : ℕ
max_dispatch_depth = 8

same_op : Op → Op → Bool
same_op op_set op_set = true
same_op op_delete op_delete = true
same_op op_flush op_flush = true
same_op _ _ = false

-- The operation that a name stands for.
op_named : String → Option Op
op_named name =
    if str_eq name "set"
    then some op_set
    else if str_eq name "delete"
    then some op_delete
    else if str_eq name "flush"
    then some op_flush
    else none

-- validOps: a set as its membership test
unfoldable pub valid_ops : List String → Result (Op → Bool)
unfolding op_named same_op
valid_ops [] = ok (λ _. false)
valid_ops (name ∷ rest) = elim (op_named name) [
  | none ↦ err invalid_argument
  | some op ↦ elim (valid_ops rest) [ err e ↦ err e | ok set ↦ ok (λ o. same_op o op || set o) ]
]

-- keys == nil || len(keys) > c.changeKeyCap
too_many : Config → Option (List String) → Bool
too_many c none = true
too_many c (some keys) = ltb_ℤ c.change_key_cap (pos (length keys))

unfoldable pub new_record : Config → Op → Option (List String) → ℕ → ChangeRecord
unfolding too_many
new_record c op keys count = record {
  op = op;
  namespace = c.namespace;
  keys = if too_many c keys then none else keys;
  count = count;
  truncated = too_many c keys;
}

any_listens : List (ℕ × (Op → Bool)) → Op → Bool
any_listens [] op = false
any_listens ((id, ops) ∷ ls) op = ops op || any_listens ls op

wants : Dispatcher → Op → Bool
unfolding any_listens
wants d op = any_listens d.listeners op

-- A record of the dispatch goroutine itself is one level deeper than the one being dispatched.
pub submit : Bool → ChangeRecord → Dispatcher → Dispatcher
submit on_dispatcher rec d =
    let depth = if on_dispatcher then d.depth + 1 else 1 in
    if ltb max_dispatch_depth depth
    then d
    else if d.closed
    then d
    else record d { queue = d.queue ++ (rec, depth) ∷ [] }

unfoldable pub listener_wants : Option Dispatcher → Op → Bool
unfolding wants
listener_wants none op = false
listener_wants (some d) op = wants d op

unfoldable pub submit_to : Bool → ChangeRecord → Option Dispatcher → Option Dispatcher
unfolding submit
submit_to on_dispatcher rec none = none
submit_to on_dispatcher rec (some d) = some (submit on_dispatcher rec d)

publish : ChangeRecord → M (Unit {0})
publish rec = do
  env ← get_env
  attempt (
      insert_events (
        (record { channel = cache_channel; payload = Value.other (some (env.change_json rec)) })
        ∷ []))
  pure tt

-- Called after a mutation commits. A publication that fails is only logged.
unfoldable pub changed : Op → Option (List String) → ℕ → M (Unit {0})
unfolding publish
changed op keys count = do
  c ← get_cache
  env ← get_env
  let rec = new_record c.config op keys count
  when (listener_wants c.dispatcher op)
      (set_cache (λ c. record c { dispatcher = submit_to env.on_dispatcher rec c.dispatcher }))
  when (c.publish_ops op) (publish rec)

abbrev pub new_dispatcher : Dispatcher
new_dispatcher = record { listeners = []; next_id = 0; queue = []; closed = false; depth = 0 }

-- dispatcher.add, with the id that unsubscribing takes
unfoldable pub add_listener : (Op → Bool) → Dispatcher → Dispatcher × ℕ
add_listener ops d = (
  record d { listeners = d.listeners ++ (d.next_id, ops) ∷ []; next_id = d.next_id + 1 },
  d.next_id,
)

pub without : ℕ → List (ℕ × (Op → Bool)) → List (ℕ × (Op → Bool))
without id [] = []
without id ((j, ops) ∷ ls) = let rest = without id ls in if j == id then rest else (j, ops) ∷ rest

-- the function that add returns
unfoldable pub unsubscribe : ℕ → Dispatcher → Dispatcher
unfolding without
unsubscribe id d = record d { listeners = without id d.listeners }

all_ops : Op → Bool
all_ops op = true

installed : Option Dispatcher → Dispatcher
installed none = new_dispatcher
installed (some d) = d

start_listening : (Op → Bool) → M ℕ
unfolding installed
start_listening ops = do
  c ← get_cache
  let added = add_listener ops (installed c.dispatcher)
  set_cache (λ c. record c { dispatcher = some added.0 })
  pure added.1

-- OnChange; without names it listens to all three operations
unfoldable on_change : List String → M ℕ
unfolding all_ops start_listening
on_change [] w = start_listening all_ops w
on_change (name ∷ names) w = elim (valid_ops (name ∷ names)) [
  | err e ↦ (err e, w)
  | ok ops ↦ start_listening ops w
]

-- the listeners of an operation, in the order of their registration
pub targets : Op → List (ℕ × (Op → Bool)) → List ℕ
targets op [] = []
targets op ((id, ops) ∷ ls) = if ops op then id ∷ targets op ls else targets op ls

-- One round of dispatcher.run up to the calls: the record, its targets, and the state in which
-- the listeners are called. `none`: it waits, or it has ended.
pub next_dispatch : Dispatcher → Option (ChangeRecord × List ℕ × Dispatcher)
next_dispatch d = if d.closed then none else elim d.queue [
  | [] ↦ none
  | (rec, depth) ∷ rest ↦
      some (rec, targets rec.op d.listeners, record d { queue = rest; depth = depth })
]

-- dispatcher.call checks again that the listener is still there.
pub still_listens : ℕ → List (ℕ × (Op → Bool)) → Bool
still_listens id [] = false
still_listens id ((j, ops) ∷ ls) = j == id || still_listens id ls

-- dispatcher.close
pub close_dispatcher : Dispatcher → Dispatcher
close_dispatcher d = record d { closed = true; listeners = [] }
