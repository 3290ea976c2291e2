-- ===== src/Webhook/Safe.antt =====
-- What a stored webhook URL and a dialled address cannot be.
use Prim.Native.String.{len}
use talepanel.Base.{
  String, Bool, true, false, not, ◌&&◌, ◌||◌, Option, none, some, List, ◌≡◌, refl, sym, subst, ◌∙◌,
  ◌⊎◌, arith, str_eq, eq_iff, Unicode, to_lower_string, if◌then◌else◌, ltb,
}
use talepanel.Store.Exec.{Result, ok, err, invalid_webhook_url}
use talepanel.Webhook.Addr.{Addr, is_public_addr}
use talepanel.Webhook.Ranges.{IsAddr, is_global, is_public_addr-eq-is_global}
use talepanel.Webhook.Validate.{
  Url, host_ok, url_ok, checked, validate_webhook_url, safe_dial_control, is_local_name,
  refused_host, needs, is_discord_webhook, dial_addr,
}

all_parts : (a b c d : Bool) → (a && b && c && d) ≡ true → (b ≡ true) × (c ≡ true) × (d ≡ true)
all_parts a b c d h = ground arith

default_port :
    (port : String)
    → not (not (str_eq port "") && not (str_eq port "443")) ≡ true
    → (port ≡ "") ⊎ (port ≡ "443")
default_port port h = ground (arith, eq_iff port "", eq_iff port "443")

double : (a : Bool) → not (not a) ≡ true → a ≡ true
double a h = ground arith

three_parts : (a b c : Bool) → (a && b && c) ≡ true → (a ≡ true) × (b ≡ true) × (c ≡ true)
three_parts a b c h = ground arith

dial_addr-inv : (addr : Addr) → dial_addr (some addr) ≡ ok tt → is_public_addr addr ≡ true
dial_addr-inv addr h = ground arith

kept_rule : (a b : Bool) → not (a && not b) ≡ true → (not a || b) ≡ true
kept_rule a b h = ground arith

module _ (unicode : Unicode) (parse_url : String → Option Url)
    (parse_addr : String → Option Addr) where
  -- A host that is an address is outside the blocks that are not public; a name is not local.
  abbrev pub is_outside : String → Option Addr → Bool
  is_outside host (some addr) = is_global addr
  is_outside host none = not (is_local_name host)

  outside_host :
      (host : String) (o : Option Addr)
      → ((addr : Addr) → o ≡ some addr → IsAddr addr)
      → not (refused_host host o) ≡ true
      → is_outside host o ≡ true
  outside_host host none sized h = h
  outside_host host (some addr) sized h =
      sym (is_public_addr-eq-is_global addr (sized addr refl)) ∙ double (is_public_addr addr) h

  checked-inv :
      (empty long ok_url : Bool) (r : Result (Unit {0}))
      → empty ≡ false
      → (if empty
          then r
          else (if long
              then err invalid_webhook_url
              else checked unicode parse_url parse_addr ok_url))
        ≡ ok tt
      → ok_url ≡ true
  checked-inv empty long ok_url r filled valid = ground arith

  stored_ok :
      (raw : String) (channels : List String) (url : Url)
      → str_eq raw "" ≡ false
      → parse_url raw ≡ some url
      → validate_webhook_url unicode parse_url parse_addr raw channels ≡ ok tt
      → (str_eq url.scheme "https"
          && not url.has_user
          && host_ok unicode parse_url parse_addr channels url
              (to_lower_string unicode url.hostname))
        ≡ true
  unfolding validate_webhook_url
  stored_ok raw channels url filled parsed valid =
      subst (λ o. url_ok unicode parse_url parse_addr channels o ≡ true) parsed
        (checked-inv (str_eq raw "") (ltb 2048 (len raw))
          (url_ok unicode parse_url parse_addr channels (parse_url raw))
          (checked unicode parse_url parse_addr
            (not (needs "webhook" channels || needs "discord" channels)))
          filled valid)

  host_ok-inv :
      (channels : List String) (url : Url) (host : String)
      → ((addr : Addr) → parse_addr host ≡ some addr → IsAddr addr)
      → host_ok unicode parse_url parse_addr channels url host ≡ true
      → ((url.port ≡ "") ⊎ (url.port ≡ "443"))
        × (is_outside host (parse_addr host) ≡ true)
        × ((not (needs "discord" channels) || is_discord_webhook host url.escaped_path) ≡ true)
  unfolding host_ok
  host_ok-inv channels url host sized valid =
      let (port, outside, discord) = all_parts _ _ _ _ valid in
      (
        default_port url.port port,
        outside_host host (parse_addr host) sized outside,
        kept_rule (needs "discord" channels) (is_discord_webhook host url.escaped_path) discord,
      )

  -- A stored webhook URL, unless it is empty: it uses https on the default port without credentials;
  -- its host is an address outside the blocks that are not public, or a name with a dot that is not
  -- local; and for a Discord channel it is a webhook path of one of Discord's hosts.
  pub webhook_url_safe :
      (raw : String) (channels : List String) (url : Url)
      → str_eq raw "" ≡ false
      → parse_url raw ≡ some url
      → ((addr : Addr)
          → parse_addr (to_lower_string unicode url.hostname) ≡ some addr
          → IsAddr addr)
      → validate_webhook_url unicode parse_url parse_addr raw channels ≡ ok tt
      → (url.scheme ≡ "https")
        × (url.has_user ≡ false)
        × ((url.port ≡ "") ⊎ (url.port ≡ "443"))
        × (is_outside
              (to_lower_string unicode url.hostname)
              (parse_addr (to_lower_string unicode url.hostname))
            ≡ true)
        × ((not (needs "discord" channels)
              || is_discord_webhook (to_lower_string unicode url.hostname) url.escaped_path)
            ≡ true)
  unfolding validate_webhook_url
  webhook_url_safe raw channels url filled parsed sized valid =
      let ok_url = stored_ok raw channels url filled parsed valid in
      let (scheme, user, host) =
        three_parts (str_eq url.scheme "https") (not url.has_user)
          (host_ok unicode parse_url parse_addr channels url (to_lower_string unicode url.hostname))
          ok_url in
      let (port, outside, discord) =
        host_ok-inv channels url (to_lower_string unicode url.hostname) sized host in
      (ground (arith, eq_iff url.scheme "https"), ground arith, port, outside, discord)

module _ (parse_addr : String → Option Addr) where
  -- An address that the dialer lets through lies outside the blocks that are not public.
  pub safe_dial_control_outside :
      (split_host : String → Option String) (address host : String) (addr : Addr)
      → split_host address ≡ some host
      → parse_addr host ≡ some addr
      → IsAddr addr
      → safe_dial_control split_host parse_addr address ≡ ok tt
      → is_global addr ≡ true
  unfolding safe_dial_control
  safe_dial_control_outside split_host address host addr split parsed sized dialled =
      sym (is_public_addr-eq-is_global addr sized)
      ∙ dial_addr-inv addr (ground (arith, split, parsed))
