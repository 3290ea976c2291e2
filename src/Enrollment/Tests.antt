-- ===== src/Enrollment/Tests.antt =====
-- Node enrollment on a small database.
use talepanel.Base.{
  pos, String, Bool, ◌≡◌, ◌≢◌, ◌==◌, refl, Option, some, none, [], ◌∷◌, split, Text, arith,
}
use talepanel.Store.Tables.{Enrollment as Row, Node}
use talepanel.Store.Exec.{
  ok, err, World, IsSteady, query, statement, transaction, execute, database,
}
use talepanel.Store.Sample.{calm, sample}
use talepanel.Address.Validate.{
  validate_node_address, validate_node_host, validate_node_port, bare_host_ok, strip_brackets,
  is_label,
}
use talepanel.Enrollment.Service.{
  CreateRequest, RedeemPayload, create_enrollment, insert_enrollment, redeem, redeem_locked,
  redeem_row, accepts_enrollment, accepts_node, node_checks, insert_node, mark_used, check_payload,
  new_row, shown_row, new_node,
}
use talepanel.Enrollment.RoundTrip.{create-redeem, redeemed_once}

abbrev digest : String → String
digest text = text

-- No text is an IP address.
abbrev no_addr : Text → Option Bool
no_addr text = none

abbrev request : CreateRequest
request = record {
  node_name = "node-1";
  total_cpu = pos 8;
  total_ram_mb = pos 0;
  total_disk_mb = pos 0;
  max_servers = pos 0;
  created_by = some 1;
  ttl = 0;
}

abbrev payload : RedeemPayload
payload = record { fqdn = "node-1.example"; port = pos 8444; public_address = "" }

abbrev row : Row
row = new_row digest request 70 "secret" 1000 1000

abbrev shown : Row
shown = shown_row digest request 70 "secret" 1000 1000

create_done : (create_enrollment digest (some "secret") 70 request calm).0 ≡ ok (shown, "secret")
unfolding create_enrollment insert_enrollment accepts_enrollment statement
create_done = refl

payload_valid : check_payload digest no_addr payload ≡ ok tt
unfolding check_payload validate_node_address validate_node_host validate_node_port bare_host_ok
    strip_brackets is_label split
payload_valid = refl

abbrev enrolled : World
enrolled = record calm {
  db = record sample { node_enrollments = row ∷ [] };
  now = 2000;
  db_now = 2000;
}

enrolled-IsSteady : IsSteady enrolled
enrolled-IsSteady = record { at_call = λ n. refl }

create_stored : enrolled.db ≡ (create_enrollment digest (some "secret") 70 request calm).1.db
unfolding create_enrollment insert_enrollment accepts_enrollment statement
create_stored = refl

create-redeem_example :
    (redeem digest no_addr "secret" payload (some "node-token") 80 enrolled).0
    ≡ ok (new_node digest no_addr row payload 80 "node-token", "node-token")
create-redeem_example =
    create-redeem digest no_addr (some "secret") 70 request calm enrolled shown "secret" payload
      "node-token" 80 create_done create_stored enrolled-IsSteady (omega arith) payload_valid refl
      refl

abbrev enrolled_node : Node
enrolled_node = new_node digest no_addr row payload 80 "node-token"

redeemed_once_example :
    (redeem digest no_addr "secret" payload
      (some "other")
      81
      (redeem digest no_addr "secret" payload (some "node-token") 80 enrolled).1).0
    ≢ ok (enrolled_node, "other")
redeemed_once_example =
    redeemed_once digest no_addr "secret" payload payload (some "node-token") (some "other") 80 81
      enrolled (redeem digest no_addr "secret" payload (some "node-token") 80 enrolled).1
      enrolled_node enrolled_node "node-token" "other" create-redeem_example refl

-- The update of the enrollment fails, behind the insert of the node.
abbrev torn : World
torn = record enrolled { faults = λ n. n == 3 }

redeem-torn : (redeem digest no_addr "secret" payload (some "node-token") 80 torn).0 ≡ err database
unfolding redeem redeem_locked redeem_row insert_node mark_used transaction query execute statement
    check_payload validate_node_address validate_node_host validate_node_port bare_host_ok
    strip_brackets is_label split
redeem-torn = refl

-- A node name of 101 characters: the enrollment is created, but the row of the node is refused.
abbrev long_request : CreateRequest
long_request = record request {
  node_name =
      "nnnnnnnnnnnnnnnnnnnnnnnnnnnnnnnnnnnnnnnnnnnnnnnnnnnnnnnnnnnnnnnnnnnnnnnnnnnnnnnnnnnnnnnnnnnnnnnnnnnnn";
}

abbrev long_row : Row
long_row = new_row digest long_request 70 "secret" 1000 1000

long_created :
    (create_enrollment digest (some "secret") 70 long_request calm).1.db
    ≡ record sample { node_enrollments = long_row ∷ [] }
unfolding create_enrollment insert_enrollment accepts_enrollment statement
long_created = refl

long_lost :
    (redeem digest no_addr "secret" payload
      (some "node-token")
      80
      (record enrolled { db = record sample { node_enrollments = long_row ∷ [] } })).0
    ≡ err database
unfolding redeem redeem_locked redeem_row insert_node accepts_node node_checks mark_used transaction
    query execute statement check_payload validate_node_address validate_node_host
    validate_node_port bare_host_ok strip_brackets is_label split
long_lost = refl
