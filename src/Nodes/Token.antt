-- ===== src/Nodes/Token.antt =====
-- The token of a node that was registered is the one DaemonNodeAuth takes for that node.
use Prim.Native.String.{String}
use talepanel.Base.{
  Bool, true, false, ◌||◌, ◌==◌, Option, some, none, List, [], ◌∷◌, ◌++◌, find, any, str_eq,
  eq_refl, ◌≡◌, sym, ap, ◌∙◌, arith, Text,
}
use talepanel.Store.Tables.{Uuid, Node, Tables}
use talepanel.Store.Laws.{bind-inv}
use talepanel.Address.Validate.{validate_node_address}
use talepanel.Store.Exec.{lift, World, IsSteady, ok, query, statement}
use talepanel.Enrollment.Service.{accepts_node, add_node, insert_node}
use talepanel.Nodes.Service.{RegisterNodeRequest, registered_node, register_node}
use talepanel.Requests.Auth.{granted}
use talepanel.Requests.Daemon.{cut_prefix, node_by_hash, daemon_node_auth}

find-last :
    (hash : String) (id : Uuid) (ns : List Node) (node : Node)
    → any (λ (n : Node). n.id == id || str_eq n.token_hash hash) ns ≡ false
    → str_eq node.token_hash hash ≡ true
    → find (λ (n : Node). str_eq n.token_hash hash) (ns ++ node ∷ []) ≡ some node
find-last hash id [] node absent own = ground (arith, own)
find-last hash id (n ∷ ns) node absent own = ground (arith, find-last hash id ns node)

insert_node-inv :
    (node : Node) (w : World)
    → (insert_node node w).0 ≡ ok tt
    → (accepts_node node w.db ≡ true) × ((insert_node node w).1.db ≡ add_node node w.db)
unfolding insert_node statement
insert_node-inv node w h = (ground arith, ground arith)

fresh :
    (hash : String) (node : Node) (db : Tables)
    → node.token_hash ≡ hash
    → accepts_node node db ≡ true
    → any (λ (n : Node). n.id == node.id || str_eq n.token_hash hash) db.nodes ≡ false
unfolding accepts_node
fresh hash node db same accepted =
    ap (λ h. any (λ (n : Node). n.id == node.id || str_eq n.token_hash h) db.nodes) (sym same)
    ∙ ground (arith, accepted)

module _ (digest : String → String) (parse_addr : Text → Option Bool) where
  register_node-inv :
      (req : RegisterNodeRequest) (random : Option String) (id : Uuid) (w : World) (node : Node)
      (token : String)
      → (register_node digest parse_addr req random id w).0 ≡ ok (node, token)
      → (node ≡ registered_node digest parse_addr req id token)
        × (accepts_node node w.db ≡ true)
        × ((register_node digest parse_addr req random id w).1.db ≡ add_node node w.db)
  unfolding register_node
  register_node-inv req none id w node token h = absurd (ground arith)
  register_node-inv req (some drawn_token) id w node token h =
      let made = registered_node digest parse_addr req id drawn_token in
      let (_, valid, h1, s1) =
        bind-inv (lift (validate_node_address parse_addr req.fqdn req.port "")) _ w h in
      let (_, stored, h2, s2) = bind-inv (insert_node made) _ w h1 in
      let (accepted, effect) = insert_node-inv made w stored in
      let same_node : made ≡ node = cc h2 in
      let same_token : drawn_token ≡ token = cc h2 in
      (
        sym same_node ∙ ap (registered_node digest parse_addr req id) same_token,
        ap (λ n. accepts_node n w.db) (sym same_node) ∙ accepted,
        ap (λ (v : World). v.db) (s1 ∙ s2) ∙ effect ∙ ap (λ n. add_node n w.db) same_node,
      )

  -- A node that registers is let through with its token, and as itself, while the tables are as the
  -- registration left them and no statement fails.
  pub register_node-daemon_node_auth :
      (req : RegisterNodeRequest) (random : Option String) (id : Uuid) (w v : World) (node : Node)
      (token header : String)
      → cut_prefix header "Bearer " ≡ some token
      → str_eq token "" ≡ false
      → (register_node digest parse_addr req random id w).0 ≡ ok (node, token)
      → v.db ≡ (register_node digest parse_addr req random id w).1.db
      → IsSteady v
      → (daemon_node_auth digest header v).0 ≡ granted node.id
  unfolding daemon_node_auth query statement
  register_node-daemon_node_auth req random id w v node token header cut given registered same
        steady =
      let (made, accepted, effect) = register_node-inv req random id w node token registered in
      let found : node_by_hash (digest token) v.db ≡ some node =
        ap (node_by_hash (digest token)) (same ∙ effect)
        ∙ find-last (digest token) node.id w.db.nodes node
            (fresh (digest token) node w.db (ap (λ (n : Node). n.token_hash) made) accepted)
            (ap (λ (n : Node). str_eq n.token_hash (digest token)) made ∙ eq_refl (digest token)) in
      ground (arith, cut, given, steady.at_call v.calls, found)
