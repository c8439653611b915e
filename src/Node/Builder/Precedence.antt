-- ===== src/Node/Builder/Precedence.antt =====
-- Where a node's configuration comes from: rosrust-async/src/node/builder.rs.
use mathlib.Core.Option.{get_or, bind}
use rosrust_async.Base.{
  ◌≡◌, refl, Option, none, some, List, [], ◌∷◌, Str, codes, Result, ok, map_err, Result-cases, inl,
  inr, arith,
}
use rosrust_async.Base.Action.{convert_inv}
use rosrust_async.Tcpros.Bytes.{IoError}
use rosrust_async.Tcpros.Net.{SocketAddr, Net}
use rosrust_async.Xmlrpc.Dxr.{Dxr}
use rosrust_async.Xmlrpc.Master.{World}
use rosrust_async.Node.Builder.{
  Environment, NodeBuilder, Spawned, Started, BuilderError, or_else, configured_ip,
  configured_hostname, resolve_name, resolve_bind_address, resolve_hostname, host_or,
  resolve_master_url, api_url_text, unwrap, spawn_actor, started, new_node, from_node, build,
}

-- The first of some texts that is there, or else the last one.
abbrev pub first_of : List (Option Str) → Result Str Str → Result Str Str
first_of [] last = last
first_of (none ∷ rest) last = first_of rest last
first_of (some text ∷ rest) last = ok text

module _ (env : Environment) where
  open env use {IpAddr, parse_ip, ip_text, var, gethostname}

  abbrev text_of : Option IpAddr → Option Str
  text_of none = none
  text_of (some ip) = some (ip_text ip)

  abbrev parsed : Option Str → Option IpAddr
  parsed none = none
  parsed (some text) = parse_ip text

  -- In the order of their precedence.
  abbrev pub hosts : NodeBuilder IpAddr → List (Option Str)
  hosts b =
      b.advertise_hostname
      ∷ var (codes "ROS_HOSTNAME")
      ∷ text_of b.advertise_ip
      ∷ text_of (parsed (var (codes "ROS_IP")))
      ∷ []

  resolve_hostname-hosts :
      {dxr : Dxr} {ParseError : Type 0} (b : NodeBuilder IpAddr)
      → resolve_hostname env {dxr = dxr} {ParseError = ParseError} b
        ≡ map_err BuilderError.invalid_hostname (first_of (hosts b) gethostname)
  unfolding resolve_hostname configured_hostname configured_ip or_else host_or bind
  resolve_hostname-hosts b = ground arith

module _ {dxr : Dxr} (world : World dxr) (net : Net world.W) (spawned : Spawned)
    (env : Environment) where
  open world use {W}

  new_node-started :
      (name hostname : Str) (addr : SocketAddr) (m : net.Url) (x : Started world net spawned)
      (w w' : W)
      → new_node world net spawned name hostname (ok addr) m w ≡ (ok x, w')
      → (u : net.Url) × (net.parse_url (api_url_text hostname addr.1) ≡ ok u)
        × (x
            ≡ started world net spawned (record {
              name = name;
              hostname = hostname;
              address = addr;
              api_url = net.url_text u;
              master_url = net.url_text m;
            }))
        × (w ≡ w')
  unfolding new_node unwrap spawn_actor
  new_node-started name hostname addr m x w w' e =
      elim (Result-cases (net.parse_url (api_url_text hostname addr.1))) [
        | inl (u, p) ↦ (u, p, ground (arith, p, e), ground (arith, p, e))
        | inr (x', p) ↦ absurd (ground (arith, p, e))
      ]

  abbrev pub bound : NodeBuilder env.IpAddr → W → Result IoError SocketAddr × W
  bound b w = net.bind (get_or b.bind_address (codes "0.0.0.0", 0)) w

  abbrev pub master_text : NodeBuilder env.IpAddr → Option Str → Str
  master_text b (some text) = get_or b.master_url text
  master_text b none = get_or b.master_url (codes "http://127.0.0.1:11311")

  resolve_master_url-master_text :
      (b : NodeBuilder env.IpAddr)
      → resolve_master_url env {dxr = dxr} net b
        ≡ map_err BuilderError.bad_master_url
            (net.parse_url (master_text b (env.var (codes "ROS_MASTER_URI"))))
  unfolding resolve_master_url or_else
  resolve_master_url-master_text b = ground arith

  build-new_node :
      (b : NodeBuilder env.IpAddr) (w w' : W) (x : Started world net spawned)
      → build world net spawned env b w ≡ (ok x, w')
      → (addr : SocketAddr) × (hostname : Str) × (m : net.Url) × ((bound b w).0 ≡ ok addr)
        × (first_of (hosts env b) env.gethostname ≡ ok hostname)
        × (net.parse_url (master_text b (env.var (codes "ROS_MASTER_URI"))) ≡ ok m)
        × (new_node world net spawned (resolve_name env b) hostname (ok addr) m (bound b w).1
            ≡ (ok x, w'))
  unfolding build resolve_bind_address
  build-new_node b w w' x e =
      let hs = resolve_hostname-hosts env {dxr = dxr} {ParseError = net.ParseError} b in
      let ms = resolve_master_url-master_text b in
      elim (Result-cases (bound b w).0) [
        | inr (x', p) ↦ absurd (ground (arith, p, e))
        | inl (addr, p) ↦ elim (Result-cases (first_of (hosts env b) env.gethostname)) [
          | inr (x', q) ↦ absurd (ground (arith, p, q, hs, e))
          | inl (hostname, q) ↦
              elim (Result-cases
                (net.parse_url (master_text b (env.var (codes "ROS_MASTER_URI"))))) [
                  | inr (x', r) ↦ absurd (ground (arith, p, q, r, hs, ms, e))
                  | inl (m, r) ↦ (
                    addr,
                    hostname,
                    m,
                    p,
                    q,
                    r,
                    convert_inv (from_node world net spawned)
                        (new_node world net spawned (resolve_name env b) hostname (ok addr) m
                          (bound b w).1)
                        x w' (ground (arith, p, q, r, hs, ms, e)),
                  )
                ]
        ]
      ]

  -- A node that `build` returns has the name of the builder or `/rosrust_async`; the hostname that is first
  -- among the builder's hostname, `ROS_HOSTNAME`, the builder's IP address and a readable `ROS_IP`, or else the
  -- machine's; the address that the builder's address, or any free port of all addresses, was bound to; the
  -- API's URL of that hostname and port; and the master's URL of the builder, of `ROS_MASTER_URI` or of this
  -- machine. Nothing but the binding touches the world.
  pub build-hosts :
      (b : NodeBuilder env.IpAddr) (w w' : W) (x : Started world net spawned)
      → build world net spawned env b w ≡ (ok x, w')
      → (hostname : Str) × (addr : SocketAddr) × (u : net.Url) × (m : net.Url) × (bound b w
          ≡ (ok addr, w'))
        × (first_of (hosts env b) env.gethostname ≡ ok hostname)
        × (net.parse_url (api_url_text hostname addr.1) ≡ ok u)
        × (net.parse_url (master_text b (env.var (codes "ROS_MASTER_URI"))) ≡ ok m)
        × (x
            ≡ started world net spawned (record {
              name = get_or b.node_name (codes "/rosrust_async");
              hostname = hostname;
              address = addr;
              api_url = net.url_text u;
              master_url = net.url_text m;
            }))
  unfolding resolve_name
  build-hosts b w w' x e =
      let (addr, hostname, m, p, q, r, n) = build-new_node b w w' x e in
      let (u, parsed, made, same) =
        new_node-started (get_or b.node_name (codes "/rosrust_async")) hostname addr m x
          (bound b w).1 w' n in
      (hostname, addr, u, m, λ i. (p i, same i), q, parsed, r, made)

  -- An IP address that the builder is given has no part in what `build` does or returns where it is given no
  -- hostname and `ROS_HOSTNAME` is set.
  pub build-advertise_ip :
      (b : NodeBuilder env.IpAddr) (ip : Option env.IpAddr) (host : Str) (w : W)
      → b.advertise_hostname ≡ none
      → env.var (codes "ROS_HOSTNAME") ≡ some host
      → build world net spawned env b w
        ≡ build world net spawned env (record b { advertise_ip = ip }) w
  unfolding build resolve_bind_address resolve_name resolve_master_url
  build-advertise_ip b ip host w unset set =
      rw
        (
          resolve_hostname-hosts env {dxr = dxr} {ParseError = net.ParseError} b,
          resolve_hostname-hosts env {dxr = dxr} {ParseError = net.ParseError}
              (record b { advertise_ip = ip }),
          unset,
          set,
        )
        refl
