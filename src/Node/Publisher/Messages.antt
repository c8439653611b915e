-- ===== src/Node/Publisher/Messages.antt =====
-- The messages of the publisher actor and its end: `handle` and `post_stop` of
-- rosrust-async/src/node/actors/publisher.rs.
use rosrust_async.Base.{Bool, ℕ, Option, none, some, List, [], ◌∷◌, Str, Result}
use rosrust_async.Base.Action.{Action, ◌>>=◌, ◌>>◌, done, attempt, get_state, modify}
use rosrust_async.Base.Dict.{lookup}
use rosrust_async.Tcpros.Net.{SocketAddr}
use rosrust_async.Xmlrpc.Dxr.{Dxr}
use rosrust_async.Xmlrpc.Master.{World, RosMasterClient}
use rosrust_async.Node.Port.{MessagingErr, send_reply}
use rosrust_async.Node.Publisher.{
  Host, Publication, PublisherActorError, PublisherActorState, Publisher, Registration, Handler,
  cleanup_publication, register_publisher, unregister_publisher,
}
use rosrust_async.Node.Publisher

pub data PublisherActorMsg : Type 0 where
  get_publications : PublisherActorMsg
  get_publisher_address get_connected_subscriber_ids : Str → PublisherActorMsg
  register : Registration → PublisherActorMsg
  unregister drop_publisher : Str → PublisherActorMsg

pub data Reply (dxr : Dxr) : Type 0 where
  publications : List (Str × Str) → Reply dxr
  address : Option SocketAddr → Reply dxr
  subscribers : Option (List Str) → Reply dxr
  publisher : Result (PublisherActorError dxr) Publisher → Reply dxr
  unit : Result (PublisherActorError dxr) (Unit {0}) → Reply dxr
  no_reply : Reply dxr

module _ {dxr : Dxr} (world : World dxr) (master : RosMasterClient) (host : Host world.W) where
  open world use {W}

  unfoldable pub connected_subscriber_ids : Str → PublisherActorState × W → Option (List Str)
  connected_subscriber_ids topic_name (s, w) = elim (lookup topic_name s.publications) [
    | none ↦ none
    | some (guard, p) ↦ some (host.subscriber_ids p.data_tx w)
  ]

  -- The reply goes to the caller if there is still one; else the handler fails. An error after a drop message
  -- is only logged.
  unfoldable pub handle :
      Bool → PublisherActorMsg → Action (PublisherActorState × world.W) MessagingErr (Reply dxr)
  unfolding connected_subscriber_ids
  handle heard get_publications = do
    s ← get_state
    send_reply heard (publications (Publisher.get_publications s))
  handle heard (get_publisher_address topic_name) = do
    s ← get_state
    send_reply heard (address (Publisher.get_publisher_address s topic_name))
  handle heard (get_connected_subscriber_ids topic_name) =
      λ x. send_reply heard (subscribers (connected_subscriber_ids topic_name x)) x
  handle heard (register r) = do
    result ← attempt (register_publisher world master host r)
    send_reply heard (publisher result)
  handle heard (unregister topic_name) = do
    result ← attempt (unregister_publisher world master host topic_name)
    send_reply heard (unit result)
  handle heard (drop_publisher topic_name) = do
    _ ← attempt (unregister_publisher world master host topic_name)
    done no_reply

  unfoldable pub cleanup_all : List (Str × (ℕ × Publication)) → Handler world master host (Unit {0})
  cleanup_all [] = done tt
  cleanup_all ((topic_name, (guard, p)) ∷ rest) = do
    _ ← attempt (cleanup_publication world master host guard p)
    cleanup_all rest

  -- The map is taken out of the state first; an error does not end the loop.
  unfoldable pub post_stop : Handler world master host (Unit {0})
  unfolding cleanup_all
  post_stop = do
    s ← get_state
    modify (λ s'. record s' { publications = [] })
    cleanup_all s.publications
