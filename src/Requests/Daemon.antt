-- ===== src/Requests/Daemon.antt =====
-- DaemonNodeAuth of middleware/daemon_auth.go. `digest` is the hex SHA-256 of a text.
use Prim.Native.Char.{code}
use Prim.Native.String.{String}
use talepanel.Base.{
  false, Option, none, some, find, ◌==◌, str_eq, if◌then◌else◌, ◌≡◌, refl, ap, sym, ◌∙◌, arith,
  Bool-cases, inl, inr,
}
use talepanel.Store.Tables.{Uuid, Node, Tables}
use talepanel.Store.Exec.{Result, ok, err, World, query}
use talepanel.Store.Laws.{query-inv}
use talepanel.Requests.Auth.{Access, granted, refused}

-- `strings.CutPrefix(s, prefix)`
unfoldable pub cut_prefix : String → String → Option String
cut_prefix s String.[] = some s
cut_prefix String.[] (String.◌∷◌ p prefix) = none
cut_prefix (String.◌∷◌ c s) (String.◌∷◌ p prefix) =
    if code c == code p then cut_prefix s prefix else none

-- SELECT id FROM nodes WHERE token_hash = $1
abbrev pub node_by_hash : String → Tables → Option Node
node_by_hash hash db = find (λ (n : Node). str_eq n.token_hash hash) db.nodes

abbrev pub node_found : Result (Option Node) → Access Uuid
node_found (err e) = refused 401
node_found (ok none) = refused 401
node_found (ok (some node)) = granted node.id

module _ (digest : String → String) where
  abbrev pub looked_up : String → World → Access Uuid × World
  looked_up token w = let (r, w') = query (node_by_hash (digest token)) w in (node_found r, w')

  abbrev pub token_checked : Option String → World → Access Uuid × World
  token_checked none w = (refused 401, w)
  token_checked (some token) w = if str_eq token "" then (refused 401, w) else looked_up token w

  unfoldable pub daemon_node_auth : String → World → Access Uuid × World
  daemon_node_auth header w = token_checked (cut_prefix header "Bearer ") w

  abbrev answer : Access Uuid × World → Access Uuid
  answer r = r.0

  node_found-inv :
      (r : Result (Option Node)) (id : Uuid)
      → node_found r ≡ granted id
      → (node : Node) × (r ≡ ok (some node)) × (node.id ≡ id)
  node_found-inv (err e) id h = ground arith
  node_found-inv (ok none) id h = ground arith
  node_found-inv (ok (some node)) id h = (node, refl, ground arith)

  token_checked-inv :
      (o : Option String) (w : World) (id : Uuid)
      → (token_checked o w).0 ≡ granted id
      → (token : String) × (node : Node) × (o ≡ some token)
        × (str_eq token "" ≡ false)
        × (node_by_hash (digest token) w.db ≡ some node)
        × (node.id ≡ id)
  token_checked-inv none w id h = absurd (ground arith)
  token_checked-inv (some token) w id h = elim (Bool-cases (str_eq token "")) [
    | inl missing ↦ absurd cc
    | inr given ↦
        let asked : node_found (query (node_by_hash (digest token)) w).0 ≡ granted id =
          ap (λ b. answer (if b then (refused 401, w) else looked_up token w)) (sym given) ∙ h in
        let (node, found, named) =
          node_found-inv (query (node_by_hash (digest token)) w).0 id asked in
        (token, node, refl, given, query-inv (node_by_hash (digest token)) w found, named)
  ]

  -- A request that DaemonNodeAuth lets through, whatever statements fail, carries a bearer token that
  -- is not empty, and acts as the node whose row has the hash of that token.
  pub daemon_node_auth_identified :
      (header : String) (w : World) (id : Uuid)
      → (daemon_node_auth header w).0 ≡ granted id
      → (token : String) × (node : Node) × (cut_prefix header "Bearer " ≡ some token)
        × (str_eq token "" ≡ false)
        × (node_by_hash (digest token) w.db ≡ some node)
        × (node.id ≡ id)
  unfolding daemon_node_auth
  daemon_node_auth_identified header w id h = token_checked-inv (cut_prefix header "Bearer ") w id h
