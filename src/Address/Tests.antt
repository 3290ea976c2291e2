-- ===== src/Address/Tests.antt =====
-- Addresses of nodes.
use talepanel.Base.{
  pos, Bool, ◌≡◌, ◌≢◌, ◌≤ℤ◌, ◌⊎◌, ◌==◌, refl, Option, none, some, [], ◌∷◌, String, Text, split,
  codes, if◌then◌else◌, arith,
}
use talepanel.Store.Exec.{ok, err, invalid_node_address}
use talepanel.Address.Validate.{
  validate_node_address, validate_node_host, validate_node_port, bare_host_ok, strip_brackets,
  is_label,
}
use talepanel.Address.Filename.{
  sanitize_filename, filename_from_disposition, attachment_disposition, base_name, strip_slashes,
  after_slash,
}
use talepanel.Address.Download.{IsSafeName, download_names_safe, attachment-filename}
use talepanel.Address.Safe.{validated_address_safe, IsSafeHost}

-- No text is an IP address.
abbrev no_addr : Text → Option Bool
no_addr text = none

abbrev play : String
play = "play.example"

abbrev empty : String
empty = ""

valid : validate_node_address no_addr "node-1.example" (pos 8444) "play.example" ≡ ok tt
unfolding validate_node_address validate_node_host validate_node_port bare_host_ok strip_brackets
    is_label split
valid = refl

path_refused : validate_node_address no_addr "node-1/admin" (pos 8444) "" ≡ err invalid_node_address
unfolding validate_node_address validate_node_host validate_node_port bare_host_ok strip_brackets
    is_label split
path_refused = refl

validated_address_safe_example :
    (pos 1 ≤ℤ pos 8444)
    × (pos 8444 ≤ℤ pos 65535)
    × IsSafeHost no_addr "node-1.example"
    × ((play ≡ empty) ⊎ IsSafeHost no_addr "play.example")
validated_address_safe_example =
    validated_address_safe no_addr "node-1.example" "play.example" (pos 8444) valid

-- A header that holds nothing but the file name, behind an equals sign.
abbrev format_short : Text → Text
format_short name = b'=' ∷ name

abbrev parse_short : Text → Option Text
parse_short [] = none
parse_short (c ∷ name) = if c == b'=' then some name else some []

written : (name : Text) → format_short name ≢ []
written name h = absurd (ground (arith, h))

backup_name : sanitize_filename (codes "..\\..\\worlds/backup.zip//") ≡ codes "backup.zip"
unfolding sanitize_filename base_name strip_slashes after_slash
backup_name = refl

dots_refused : sanitize_filename (codes "worlds/..") ≡ []
unfolding sanitize_filename base_name strip_slashes after_slash
dots_refused = refl

abbrev backup_path : Text
backup_path = codes "..\\..\\worlds/backup.zip//"

download_names_safe_example :
    ((filename_from_disposition parse_short (b'=' ∷ backup_path) (codes "download")
        ≡ codes "download")
      ⊎ IsSafeName (filename_from_disposition parse_short (b'=' ∷ backup_path) (codes "download")))
    × ((attachment_disposition format_short backup_path ≡ codes "attachment")
        ⊎ ((s : Text) × IsSafeName s
            × (attachment_disposition format_short backup_path ≡ format_short s)))
download_names_safe_example =
    download_names_safe parse_short format_short (b'=' ∷ backup_path) (codes "download") backup_path

backup-IsSafeName : IsSafeName (codes "backup.zip")
backup-IsSafeName = ground arith

attachment-filename_example :
    filename_from_disposition parse_short
      (attachment_disposition format_short (codes "backup.zip"))
      (codes "download")
    ≡ codes "backup.zip"
attachment-filename_example =
    attachment-filename parse_short format_short (codes "backup.zip") (codes "download")
      (λ s safe h. refl) (written (codes "backup.zip")) backup-IsSafeName
