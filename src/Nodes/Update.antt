-- ===== src/Nodes/Update.antt =====
-- GetNode and UpdateNode of services/node_service.go.
use talepanel.Base.{
  ℤ, String, Bool, true, not, ◌&&◌, ◌||◌, Option, none, some, str_eq, find, is_some, all,
  if◌then◌else◌, Text,
}
use talepanel.Store.Tables.{Uuid, Node, Tables}
use talepanel.Enrollment.Service.{is_int4, node_checks}
use talepanel.Store.Exec.{
  ok, err, node_not_found, invalid_node_address, Exec, lift, ◌>>=◌, ◌>>◌, query, gets, statement,
  write, raise, database, found_or,
}
use talepanel.Address.Validate.{validate_node_host}
use talepanel.Nodes.Service.{has_node_id, update_node_row}

pub record UpdateNodeRequest : Type 0 where
  pub name : Option String
  pub location : Option String
  pub max_servers : Option ℤ
  pub public_address : Option String

unfoldable pub get_node : Uuid → Exec Node
unfolding query
get_node node_id = do
  found ← query (λ db. find (has_node_id node_id) db.nodes)
  found_or node_not_found found

abbrev pub nothing_given : UpdateNodeRequest → Bool
nothing_given req =
    not (is_some req.name)
    && not (is_some req.location)
    && not (is_some req.max_servers)
    && not (is_some req.public_address)

abbrev pub given_or : {A : Type 0} → Option A → A → A
given_or none was = was
given_or (some value) was = value

-- NULLIF($1, '')
abbrev pub address_given : Option String → Option String → Option String
address_given none was = was
address_given (some address) was = if str_eq address "" then none else some address

-- The columns that are given, in one SET.
abbrev pub patch : UpdateNodeRequest → Node → Node
patch req node = record node {
  name = given_or req.name node.name;
  location = given_or req.location node.location;
  max_servers = given_or req.max_servers node.max_servers;
  public_address = address_given req.public_address node.public_address;
}

abbrev pub null_or : {A : Type 0} → (A → Bool) → Option A → Bool
null_or p none = true
null_or p (some value) = p value

-- The type INTEGER of the argument, and the CHECKs of the row that the UPDATE makes.
unfoldable pub fits_nodes : Uuid → UpdateNodeRequest → Tables → Bool
unfolding node_checks
fits_nodes node_id req db =
    null_or is_int4 req.max_servers
    && all (λ node. not (has_node_id node_id node) || node_checks (patch req node)) db.nodes

module _ (parse_addr : Text → Option Bool) where
  abbrev pub address_valid : Option String → Bool
  address_valid none = true
  address_valid (some address) = str_eq address "" || validate_node_host parse_addr address

  unfoldable pub update_node : Uuid → UpdateNodeRequest → Exec Node
  unfolding statement get_node fits_nodes
  update_node node_id req = if nothing_given req then get_node node_id else (do
    lift (if address_valid req.public_address then ok tt else err invalid_node_address)
    statement
    valid ← gets (λ w. fits_nodes node_id req w.db)
    if valid then write (update_node_row node_id (patch req)) else raise database
    get_node node_id)
