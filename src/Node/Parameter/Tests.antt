-- ===== src/Node/Parameter/Tests.antt =====
-- The parameter actor with the sample master.
use rosrust_async.Base.{true, ◌≡◌, refl, some, [], ◌∷◌, Str, codes, str_eq, ok, arith}
use rosrust_async.Base.Dict.{lookup, insert, contains, add, discard}
use rosrust_async.Xmlrpc.Protocol.{server_error, api}
use rosrust_async.Xmlrpc.Master.{client, has_param, subscribe_param_any}
use rosrust_async.Xmlrpc.Master
use rosrust_async.Xmlrpc.Samples.{Server, sample_dxr, sample_world, server}
use rosrust_async.Xmlrpc.Samples
use rosrust_async.Node.Parameter.{
  ParameterActorState, delete_param, get_cached, delete, update_cached, handle, cached_or_fetch,
  fetch, ensure_subscribed, master_client,
}
use rosrust_async.Node.Parameter.Cache.{Covered, handle-Covered}
use rosrust_async.Node.Parameter.Reads.{get_cached-delete_failed}

abbrev rate : Str
rate = codes "/rate"

abbrev State : Type 0
State = ParameterActorState sample_dxr

abbrev cached_state : State
cached_state = record { param_cache = (rate, 50 ∷ []) ∷ []; subscribed_params = rate ∷ [] }

abbrev bare_server : Server
bare_server = record { params = []; calls = 0 }

cached_state-Covered : Covered cached_state
unfolding contains lookup
cached_state-Covered name v e = ground arith

abbrev update_of : (State × Server) → State × Server
update_of x = (update_cached sample_world Samples.client rate [] x).1

-- The first read asks the server twice, to subscribe and to fetch; the second asks nothing.
first_read :
    get_cached sample_world Samples.client rate
      (record { param_cache = []; subscribed_params = [] }, server)
    ≡ (ok (some (50 ∷ [])), (cached_state, record server { calls = 2 }))
unfolding get_cached ensure_subscribed cached_or_fetch fetch contains subscribe_param_any str_eq
    lookup Master.get_param_any insert add
first_read = refl

handle-Covered_example :
    Covered (handle sample_world Samples.client true (delete_param rate) (cached_state, server)).1.0
unfolding handle delete str_eq contains discard Master.unsubscribe_param Master.delete_param lookup
handle-Covered_example =
    handle-Covered sample_world Samples.client true (delete_param rate) cached_state server
      cached_state-Covered refl

-- The server has lost the parameter, so that deleting it fails.
get_cached-delete_failed_example :
    (get_cached sample_world Samples.client rate
      (delete sample_world Samples.client rate (cached_state, bare_server)).1).0
    ≡ ok (some (50 ∷ []))
unfolding contains str_eq lookup delete Master.unsubscribe_param Master.delete_param
    subscribe_param_any
get_cached-delete_failed_example =
    get_cached-delete_failed sample_world Samples.client rate (50 ∷ []) [] cached_state bare_server
      {e = master_client (Master.client (api (server_error (codes "not set"))))} refl refl refl refl
