-- ===== src/Webhook/Validate.antt =====
-- ValidateWebhookURL and safeDialControl. `parse_url` is net/url's Parse with the accessors that the
-- code uses, `parse_addr` net/netip's ParseAddr, and `split_host` the host of net's SplitHostPort.
use Prim.Native.String.{len}
use talepanel.Base.{
  String, Bool, true, false, not, ◌&&◌, ◌||◌, Option, none, some, List, [], ◌∷◌, any, ltb, ◌==◌,
  str_eq, if◌then◌else◌, Text, codes, Unicode, to_lower_string,
}
use talepanel.Store.Exec.{Result, ok, err, invalid_webhook_url, dial_refused}
use talepanel.Webhook.Addr.{Addr, is_public_addr}

pub record Url : Type 0 where
  pub scheme : String
  pub has_user : Bool
  pub hostname : String
  pub port : String
  pub escaped_path : String

abbrev pub discord_webhook_hosts : List String
discord_webhook_hosts =
    "discord.com" ∷ "discordapp.com" ∷ "ptb.discord.com" ∷ "canary.discord.com" ∷ []

-- `strings.HasPrefix(s, prefix)`
abbrev pub has_prefix : Text → Text → Bool
has_prefix s [] = true
has_prefix [] (p ∷ prefix) = false
has_prefix (c ∷ s) (p ∷ prefix) = c == p && has_prefix s prefix

-- `strings.HasSuffix(s, suffix)`: `suffix` begins at some place of `s`, and ends with it.
abbrev pub same_text : Text → Text → Bool
same_text [] [] = true
same_text [] (d ∷ t) = false
same_text (c ∷ s) [] = false
same_text (c ∷ s) (d ∷ t) = c == d && same_text s t

abbrev pub has_suffix : Text → Text → Bool
has_suffix [] suffix = same_text [] suffix
has_suffix (c ∷ s) suffix = same_text (c ∷ s) suffix || has_suffix s suffix

abbrev pub is_local_name : String → Bool
is_local_name host =
    str_eq host "localhost"
    || has_suffix (codes host) (codes ".localhost")
    || not (any (λ c. c == b'.') (codes host))

abbrev pub refused_host : String → Option Addr → Bool
refused_host host (some addr) = not (is_public_addr addr)
refused_host host none = is_local_name host

abbrev pub is_discord_webhook : String → String → Bool
is_discord_webhook host path =
    any (str_eq host) discord_webhook_hosts && has_prefix (codes path) (codes "/api/webhooks/")

abbrev pub needs : String → List String → Bool
needs channel channels = any (str_eq channel) channels

module _ (unicode : Unicode) (parse_url : String → Option Url)
    (parse_addr : String → Option Addr) where
  -- From `u.Hostname()` in lower case on.
  unfoldable pub host_ok : List String → Url → String → Bool
  host_ok channels url host =
      not (str_eq host "")
      && not (not (str_eq url.port "") && not (str_eq url.port "443"))
      && not (refused_host host (parse_addr host))
      && not (needs "discord" channels && not (is_discord_webhook host url.escaped_path))

  abbrev pub url_ok : List String → Option Url → Bool
  url_ok channels none = false
  url_ok channels (some url) =
      str_eq url.scheme "https"
      && not url.has_user
      && host_ok channels url (to_lower_string unicode url.hostname)

  abbrev pub checked : Bool → Result (Unit {0})
  checked true = ok tt
  checked false = err invalid_webhook_url

  unfoldable pub validate_webhook_url : String → List String → Result (Unit {0})
  unfolding host_ok
  validate_webhook_url raw channels =
      if str_eq raw ""
      then checked (not (needs "webhook" channels || needs "discord" channels))
      else (if ltb 2048 (len raw)
          then err invalid_webhook_url
          else checked (url_ok channels (parse_url raw)))

abbrev pub dial_addr : Option Addr → Result (Unit {0})
dial_addr none = err dial_refused
dial_addr (some addr) = if is_public_addr addr then ok tt else err dial_refused

abbrev pub dial_host : (String → Option Addr) → Option String → Result (Unit {0})
dial_host parse_addr none = err dial_refused
dial_host parse_addr (some host) = dial_addr (parse_addr host)

unfoldable pub safe_dial_control :
    (String → Option String) → (String → Option Addr) → String → Result (Unit {0})
safe_dial_control split_host parse_addr address = dial_host parse_addr (split_host address)
