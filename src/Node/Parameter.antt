-- ===== src/Node/Parameter.antt =====
-- The parameter actor: rosrust-async/src/node/actors/parameter.rs. It handles one message at a time,
-- so a handler is a function of the actor's state and the world.
pub mod Cache
pub mod Reads
mod Tests
use rosrust_async.Base.{
  Bool, true, false, not, ◌||◌, Option, none, some, List, [], ◌∷◌, Str, if◌then◌else◌, Result, ok,
  err,
}
use rosrust_async.Base.Action.{
  Action, ◌>>=◌, ◌>>◌, done, attempt, map_error, on_world, get_state, modify,
}
use rosrust_async.Node.Port.{MessagingErr, send_reply}
use rosrust_async.Base.Dict.{lookup, insert, remove, contains, add, discard}
use rosrust_async.Xmlrpc.Dxr.{Dxr}
use rosrust_async.Xmlrpc.Master.{World, MasterClientError, RosMasterClient}
use rosrust_async.Xmlrpc.Master

pub data ParameterActorError (dxr : Dxr) : Type 0 where
  master_client : MasterClientError dxr → ParameterActorError dxr
  dxr_failure : dxr.DxrError → ParameterActorError dxr

pub record ParameterActorState (dxr : Dxr) : Type 0 where
  pub param_cache : List (Str × dxr.Value)
  pub subscribed_params : List Str

pub data ParameterActorMsg (dxr : Dxr) : Type 0 where
  get_param get_cached_param delete_param search_param param_exists : Str → ParameterActorMsg dxr
  set_param update_cached_param : Str → dxr.Value → ParameterActorMsg dxr
  get_param_names : ParameterActorMsg dxr

-- What the reply port of a message takes. A message without one has no reply.
pub data Reply (dxr : Dxr) : Type 0 where
  value : Result (ParameterActorError dxr) (Option dxr.Value) → Reply dxr
  text : Result (ParameterActorError dxr) (Option Str) → Reply dxr
  truth : Result (ParameterActorError dxr) Bool → Reply dxr
  texts : Result (ParameterActorError dxr) (List Str) → Reply dxr
  unit : Result (ParameterActorError dxr) (Unit {0}) → Reply dxr
  no_reply : Reply dxr

module _ {dxr : Dxr} (world : World dxr) (master : RosMasterClient) where
  open dxr use {Value, same, empty_struct}
  open world use {W}

  abbrev pub Handler : Type 0 → Type 0
  Handler A = Action (ParameterActorState dxr × W) (ParameterActorError dxr) A

  -- `state.master_client.….await?`
  abbrev ask : {A : Type 0} → Action W (MasterClientError dxr) A → Handler A
  ask m = on_world (map_error master_client m)

  unfoldable pub new_state : ParameterActorState dxr
  new_state = record { param_cache = []; subscribed_params = [] }

  abbrev subscribed : Str → ParameterActorState dxr → ParameterActorState dxr
  subscribed name s = record s { subscribed_params = add name s.subscribed_params }

  abbrev unsubscribed : Str → ParameterActorState dxr → ParameterActorState dxr
  unsubscribed name s = record s { subscribed_params = discard name s.subscribed_params }

  abbrev cached : Str → Value → ParameterActorState dxr → ParameterActorState dxr
  cached name v s = record s { param_cache = insert name v s.param_cache }

  abbrev uncached : Str → ParameterActorState dxr → ParameterActorState dxr
  uncached name s = record s { param_cache = remove name s.param_cache }

  -- `get_param` at the type `Value`, whose conversion from a value is the identity.
  unfoldable pub get_param_value : Str → Handler (Option Value)
  get_param_value name = ask (Master.get_param_any world master name)

  ensure_subscribed : Str → Handler (Unit {0})
  ensure_subscribed name = do
    s ← get_state
    if contains name s.subscribed_params
        then done tt
        else do _ ← ask (Master.subscribe_param_any world master name); modify (subscribed name)

  fetch : Str → Handler (Option Value)
  fetch name = do
    param ← ask (Master.get_param_any world master name)
    elim param [ none ↦ done none | some v ↦ do modify (cached name v); done (some v) ]

  cached_or_fetch : Str → Handler (Option Value)
  cached_or_fetch name = do
    s ← get_state
    elim (lookup name s.param_cache) [ some v ↦ done (some v) | none ↦ fetch name ]

  pub get_cached : Str → Handler (Option Value)
  get_cached name = do ensure_subscribed name; cached_or_fetch name

  unfoldable pub set_param_value : Str → Value → Handler (Unit {0})
  set_param_value name v = do
    _ ← ask (Master.set_param_any world master name v)
    s ← get_state
    if contains name s.subscribed_params then modify (cached name v) else done tt

  -- `HashSet::remove` takes the name out before the master is asked.
  unfoldable pub delete : Str → Handler (Unit {0})
  delete name = do
    s ← get_state
    if contains name s.subscribed_params
        then (do
          modify (unsubscribed name)
          _ ← ask (Master.unsubscribe_param world master name)
          done tt)
        else done tt
    _ ← ask (Master.delete_param world master name)
    modify (uncached name)

  unfoldable pub exists_param : Str → Handler Bool
  exists_param name = ask (Master.has_param world master name)

  unfoldable pub search : Str → Handler (Option Str)
  search name = ask (Master.search_param world master name)

  unfoldable pub param_names : Handler (List Str)
  param_names = ask (Master.get_param_names world master)

  -- `value != *EMPTY_STRUCT || has_param(…).await?`: the master is asked only about an empty struct.
  still_set : Str → Value → Handler Bool
  still_set name v =
      if not (same v empty_struct) then done true else ask (Master.has_param world master name)

  unfoldable pub update_cached : Str → Value → Handler (Unit {0})
  unfolding still_set
  update_cached name v = do
    s ← get_state
    if contains name s.subscribed_params
        then (do
          set ← still_set name v
          if set then modify (cached name v) else modify (uncached name))
        else done tt

  answer :
      {A : Type 0}
      → Bool
      → (Result (ParameterActorError dxr) A → Reply dxr)
      → Handler A
      → Action (ParameterActorState dxr × W) MessagingErr (Reply dxr)
  answer heard reply m = do r ← attempt m; send_reply heard (reply r)

  -- `handle`: the reply goes to the caller if there is still one, else the handler fails. An error of an
  -- update is only logged.
  pub handle :
      Bool → ParameterActorMsg dxr → Action (ParameterActorState dxr × W) MessagingErr (Reply dxr)
  unfolding answer
  handle heard (get_param name) = answer heard value (get_param_value name)
  handle heard (get_cached_param name) = answer heard value (get_cached name)
  handle heard (set_param name v) = answer heard unit (set_param_value name v)
  handle heard (delete_param name) = answer heard unit (delete name)
  handle heard (search_param name) = answer heard text (search name)
  handle heard (param_exists name) = answer heard truth (exists_param name)
  handle heard get_param_names = answer heard texts param_names
  handle heard (update_cached_param name v) = do _ ← attempt (update_cached name v); done no_reply

  unfoldable pub unsubscribe_all : List Str → Handler (Unit {0})
  unsubscribe_all [] = done tt
  unsubscribe_all (name ∷ rest) = do
    _ ← attempt (ask (Master.unsubscribe_param world master name))
    unsubscribe_all rest

  -- The subscriptions are taken out of the state first; an error does not end the loop.
  unfoldable pub post_stop : Handler (Unit {0})
  unfolding unsubscribe_all
  post_stop = do
    s ← get_state
    modify (λ s'. record s' { subscribed_params = [] })
    unsubscribe_all s.subscribed_params
