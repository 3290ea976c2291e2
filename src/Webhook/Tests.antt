-- ===== src/Webhook/Tests.antt =====
-- Webhook URLs and addresses.
use talepanel.Base.{
  ◌^◌, ◌*◌, ◌+◌, String, true, false, not, ◌||◌, Option, none, some, List, [], ◌∷◌, ◌≡◌, ◌⊎◌, refl,
  arith, str_eq, if◌then◌else◌, plain_unicode, to_lower_string,
}
use talepanel.Store.Exec.{ok}
use talepanel.Webhook.Addr.{Addr, v4, v6, ipv4, is_public_addr}
use talepanel.Webhook.Ranges.{IsAddr, is_global, is_public_addr-eq-is_global}
use talepanel.Webhook.Validate.{
  Url, validate_webhook_url, host_ok, safe_dial_control, needs, is_discord_webhook,
}
use talepanel.Webhook.Safe.{is_outside, webhook_url_safe}

abbrev hook : Url
hook = record {
  scheme = "https";
  has_user = false;
  hostname = "discord.com";
  port = "";
  escaped_path = "/api/webhooks/1/x";
}

abbrev parse_url : String → Option Url
parse_url raw = if str_eq raw "hook" then some hook else none

-- One address, and names otherwise.
abbrev parse_addr : String → Option Addr
parse_addr host = if str_eq host "8.8.8.8" then some (v4 (ipv4 8 8 8 8)) else none

abbrev channels : List String
channels = "discord" ∷ []

hook_valid : validate_webhook_url plain_unicode parse_url parse_addr "hook" channels ≡ ok tt
unfolding validate_webhook_url host_ok to_lower_string
hook_valid = refl

abbrev lowered : String
lowered = to_lower_string plain_unicode "discord.com"

is_public_addr-eq-is_global_example :
    is_public_addr (v4 (ipv4 169 254 169 254)) ≡ is_global (v4 (ipv4 169 254 169 254))
is_public_addr-eq-is_global_example =
    is_public_addr-eq-is_global (v4 (ipv4 169 254 169 254)) (omega arith)

-- `::%zone` and `64:ff9b::7f00:1%zone` pass as public.
zoned_unspecified : is_public_addr (v6 0 true) ≡ true
unfolding is_public_addr
zoned_unspecified = refl

zoned_nat64 : is_public_addr (v6 (0x64 * 2 ^ 112 + 0xff9b * 2 ^ 96 + 0x7f000001) true) ≡ true
unfolding is_public_addr
zoned_nat64 = refl

no_addr : (addr : Addr) → parse_addr lowered ≡ some addr → IsAddr addr
unfolding to_lower_string
no_addr addr h = cc

webhook_url_safe_example :
    (hook.scheme ≡ "https")
    × (hook.has_user ≡ false)
    × ((hook.port ≡ "") ⊎ (hook.port ≡ "443"))
    × (is_outside plain_unicode parse_url parse_addr lowered (parse_addr lowered) ≡ true)
    × ((not (needs "discord" channels) || is_discord_webhook lowered hook.escaped_path) ≡ true)
webhook_url_safe_example =
    webhook_url_safe plain_unicode parse_url parse_addr "hook" channels hook refl refl no_addr
      hook_valid

abbrev split_host : String → Option String
split_host address = some "8.8.8.8"

dialled : safe_dial_control split_host parse_addr "8.8.8.8:443" ≡ ok tt
unfolding safe_dial_control is_public_addr
dialled = refl
