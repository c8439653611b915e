-- ===== src/Xmlrpc/SystemState.antt =====
-- What the master tells of the whole system: SystemState and the calls for topics of
-- rosrust-async/src/xmlrpc/master.rs. The conversion of the three lists is dxr's.
use rosrust_async.Base.{
  ◌≡◌, refl, ◌++◌, str_eq_refl, Bool, false, Option, none, some, List, [], ◌∷◌, Str, codes, Result,
  ok, err, arith,
}
use rosrust_async.Base.Action.{Action}
use rosrust_async.Base.Dict.{lookup, insert, contains, add, lookup-insert, contains-add}
use rosrust_async.Xmlrpc.Dxr.{Dxr}
use rosrust_async.Xmlrpc.Master.{World, MasterClientError, RosMasterClient, call}

abbrev pub StateEntry : Type 0
StateEntry = List (Str × List Str)

abbrev pub RawSystemState : Type 0
RawSystemState = StateEntry × StateEntry × StateEntry

pub record SystemState : Type 0 where
  pub publishers : StateEntry
  pub subscribers : StateEntry
  pub service_providers : StateEntry

unfoldable pub collect_set : List Str → List Str
collect_set [] = []
collect_set (value ∷ rest) = add value (collect_set rest)

-- A map is filled in order, so that the last value of a key stays.
unfoldable pub collect_into : {V : Type 0} → List (Str × V) → List (Str × V) → List (Str × V)
collect_into m [] = m
collect_into m ((key, value) ∷ rest) = collect_into (insert key value m) rest

to_sets : StateEntry → StateEntry
to_sets [] = []
to_sets ((key, values) ∷ rest) = (key, collect_set values) ∷ to_sets rest

unfoldable pub system_state : RawSystemState → SystemState
unfolding to_sets
system_state (publishers, subscribers, service_providers) = record {
  publishers = collect_into [] (to_sets publishers);
  subscribers = collect_into [] (to_sets subscribers);
  service_providers = collect_into [] (to_sets service_providers);
}

contains_in : Option (List Str) → Str → Bool
contains_in none node_name = false
contains_in (some entry) node_name = contains node_name entry

unfoldable pub node_provides_resource : StateEntry → Str → Str → Bool
unfolding contains_in
node_provides_resource state node_name resource = contains_in (lookup resource state) node_name

pub is_publishing : SystemState → Str → Str → Bool
is_publishing s = node_provides_resource s.publishers

pub is_subscribed : SystemState → Str → Str → Bool
is_subscribed s = node_provides_resource s.subscribers

pub is_providing_service : SystemState → Str → Str → Bool
is_providing_service s = node_provides_resource s.service_providers

module _ {dxr : Dxr} (world : World dxr) (c : RosMasterClient) where
  open dxr use {Value, DxrError, from_text, to_pairs}
  open world use {W}

  on_ok :
      {A B : Type 0}
      → (A → B)
      → Result (MasterClientError dxr) A × W
      → Result (MasterClientError dxr) B × W
  on_ok f (ok a, w) = (ok (f a), w)
  on_ok f (err e, w) = (err e, w)

  or_default : Option Str → Str
  or_default none = []
  or_default (some subgraph) = subgraph

  pub get_published_topics : Option Str → Action W (MasterClientError dxr) (List (Str × Str))
  unfolding on_ok or_default
  get_published_topics subgraph w = on_ok (collect_into []) (
      call world c to_pairs (codes "getPublishedTopics")
        (from_text c.caller_id ∷ from_text (or_default subgraph) ∷ []) w)

  pub get_topic_types : Action W (MasterClientError dxr) (List (Str × Str))
  unfolding on_ok
  get_topic_types w =
      on_ok (collect_into [])
        (call world c to_pairs (codes "getTopicTypes") (from_text c.caller_id ∷ []) w)

  pub get_system_state :
      (Value → Result DxrError RawSystemState) → Action W (MasterClientError dxr) SystemState
  unfolding on_ok
  get_system_state to_raw w =
      on_ok system_state
        (call world c to_raw (codes "getSystemState") (from_text c.caller_id ∷ []) w)

contains-collect_set :
    (value : Str) (values : List Str) → contains value (collect_set values) ≡ contains value values
unfolding collect_set contains
contains-collect_set value [] = refl
contains-collect_set value (v ∷ rest) =
    ground (arith, contains-add v value (collect_set rest), contains-collect_set value rest)

lookup-collect_into :
    {V : Type 0} (key : Str) (m entries : List (Str × V))
    → lookup key entries ≡ none
    → lookup key (collect_into m entries) ≡ lookup key m
unfolding collect_into lookup
lookup-collect_into key m [] absent = refl
lookup-collect_into key m ((k, v) ∷ rest) absent =
    ground (arith, lookup-collect_into key (insert k v m) rest, lookup-insert k key v m)

lookup-to_sets :
    (key : Str) (entries : StateEntry)
    → lookup key entries ≡ none
    → lookup key (to_sets entries) ≡ none
unfolding to_sets lookup
lookup-to_sets key [] absent = refl
lookup-to_sets key ((k, vs) ∷ rest) absent = ground (arith, lookup-to_sets key rest)

-- The entry of a topic that no later entry of the master's list repeats decides who publishes it.
pub is_publishing-system_state :
    (before after subscribers service_providers : StateEntry) (topic : Str) (nodes : List Str)
    (node : Str)
    → lookup topic after ≡ none
    → is_publishing
        (system_state (before ++ ((topic, nodes) ∷ after), subscribers, service_providers))
        node
        topic
      ≡ contains node nodes
unfolding is_publishing system_state node_provides_resource to_sets collect_into contains_in
is_publishing-system_state before after subscribers service_providers topic nodes node absent =
    decided before []
  where
    decided :
        (before m : StateEntry)
        → node_provides_resource
            (collect_into m (to_sets (before ++ ((topic, nodes) ∷ after))))
            node
            topic
          ≡ contains node nodes
    decided [] m =
        rw
          (
            lookup-collect_into topic (insert topic (collect_set nodes) m) (to_sets after)
                (lookup-to_sets topic after absent),
            lookup-insert topic topic (collect_set nodes) m,
            str_eq_refl topic,
            contains-collect_set node nodes,
          )
          refl
    decided ((k, vs) ∷ rest) m = decided rest (insert k (collect_set vs) m)
