-- ===== src/Enrollment/Checks.antt =====
-- The row of a node that a stored enrollment is redeemed for fits the table of nodes.
use talepanel.Base.{
  ℤ, pos, negsuc, ◌≤ℤ◌, String, Bool, true, false, ◌&&◌, Option, none, some, leb, length, codes,
  str_eq, any, Text, ◌≡◌, refl, arith,
}
use talepanel.Store.Tables.{Uuid, Time, Tables, Enrollment as Row}
use talepanel.Store.Exec.{ok}
use talepanel.Address.Safe.{validated_address_safe}
use talepanel.Address.Validate.{validate_node_address}
use talepanel.Enrollment.Service.{
  CreateRequest, RedeemPayload, is_int4, is_int8, null_or_int4, value_or_zero, default_max_servers,
  has_id_or_hash, accepts_enrollment, port_range, max_servers_positive, node_checks, new_row,
  new_node, check_payload,
}

value_or_zero-is_int4 : (o : Option ℤ) → null_or_int4 o ≡ true → is_int4 (value_or_zero o) ≡ true
value_or_zero-is_int4 none h = refl
value_or_zero-is_int4 (some v) h = h

is_int4-is_int8 : (v : ℤ) → is_int4 v ≡ true → is_int8 v ≡ true
is_int4-is_int8 (pos n) h = ground arith
is_int4-is_int8 (negsuc n) h = ground arith

default_max_servers-positive :
    (n : ℤ)
    → is_int4 (default_max_servers n) ≡ true
    → max_servers_positive (default_max_servers n) ≡ true
default_max_servers-positive (pos n) h = ground arith
default_max_servers-positive (negsuc n) h = ground arith

named-long : (name : String) → str_eq name "" ≡ false → leb 1 (length (codes name)) ≡ true
named-long String.[] h = absurd (ground arith)
named-long (String.◌∷◌ c s) h = ground arith

-- The columns of a row of node_enrollments that a node takes over.
pub record IsStored (row : Row) (db : Tables) : Type 0 where
  pub cpu : null_or_int4 row.total_cpu ≡ true
  pub ram : null_or_int4 row.total_ram_mb ≡ true
  pub disk : null_or_int4 row.total_disk_mb ≡ true
  pub servers : is_int4 row.max_servers ≡ true
  pub fresh : any (has_id_or_hash row.id row.token_hash) db.node_enrollments ≡ false

and_both : (a b : Bool) → (a && b) ≡ true → (a ≡ true) × (b ≡ true)
and_both a b h = (ground arith, ground arith)

pub accepts_enrollment-IsStored :
    (row : Row) (db : Tables) → accepts_enrollment row db ≡ true → IsStored row db
unfolding accepts_enrollment
accepts_enrollment-IsStored row db h =
    let (before, unique) = and_both _ _ h in
    let (before, creator) = and_both _ _ before in
    let (before, servers) = and_both _ _ before in
    let (before, disk) = and_both _ _ before in
    let (cpu, ram) = and_both _ _ before in
    record { cpu = cpu; ram = ram; disk = disk; servers = servers; fresh = ground (arith, unique) }

module _ (digest : String → String) (parse_addr : Text → Option Bool) where
  checked-port :
      (payload : RedeemPayload)
      → check_payload digest parse_addr payload ≡ ok tt
      → port_range payload.port ≡ true
  unfolding check_payload
  checked-port payload h =
      let valid : validate_node_address parse_addr payload.fqdn payload.port payload.public_address
          ≡ ok tt =
        ground (arith, h) in
      let (low, high, host, public) =
        validated_address_safe parse_addr payload.fqdn payload.public_address payload.port valid in
      in_port_range payload.port low high
    where
      in_port_range : (port : ℤ) → pos 1 ≤ℤ port → port ≤ℤ pos 65535 → port_range port ≡ true
      in_port_range (pos n) low high = ground arith
      in_port_range (negsuc n) low high = ground arith

  pub new_node-checks :
      (req : CreateRequest) (id : Uuid) (plain : String) (now db_now : Time) (db : Tables)
      (payload : RedeemPayload) (node_id : Uuid) (node_token : String)
      → str_eq req.node_name "" ≡ false
      → leb (length (codes req.node_name)) 100 ≡ true
      → IsStored (new_row digest req id plain now db_now) db
      → check_payload digest parse_addr payload ≡ ok tt
      → node_checks (
          new_node digest parse_addr
            (new_row digest req id plain now db_now)
            payload
            node_id
            node_token)
        ≡ true
  unfolding node_checks
  new_node-checks req id plain now db_now db payload node_id node_token named short stored valid =
      let row = new_row digest req id plain now db_now in
      all_hold (named-long req.node_name named) short (checked-port payload valid)
        (default_max_servers-positive req.max_servers stored.servers)
        (value_or_zero-is_int4 row.total_cpu stored.cpu)
        (is_int4-is_int8 (value_or_zero row.total_ram_mb)
          (value_or_zero-is_int4 row.total_ram_mb stored.ram))
        (is_int4-is_int8 (value_or_zero row.total_disk_mb)
          (value_or_zero-is_int4 row.total_disk_mb stored.disk))
    where
      all_hold :
          {a b c d e f g : Bool}
          → a ≡ true
          → b ≡ true
          → c ≡ true
          → d ≡ true
          → e ≡ true
          → f ≡ true
          → g ≡ true
          → ((a && b) && c && d && e && f && g) ≡ true
      all_hold a b c d e f g = cc
