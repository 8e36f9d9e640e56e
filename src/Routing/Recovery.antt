-- ===== src/Routing/Recovery.antt =====
-- recovery.py: what a provider node does about a failed check. The answer of the registry is an
-- argument; a status code stands for a response.
pub mod Restarts
use iicp_client_python.Prelude.{
  String, str_eq, ℕ, Bool, true, false, not, ◌&&◌, ◌||◌, Option, none, some, leb, ltb, ◌==◌,
  if◌then◌else◌,
}

pub data RecoveryState : Type 0 where
  healthy local_unhealthy needs_backend route_mismatch tunnel_cooling_down : RecoveryState
  directory_absent limited_reach restart_recommended unknown : RecoveryState

pub data RecoveryAction : Type 0 where
  do_nothing reregister wait_cooldown mark_unavailable restart_self : RecoveryAction
  operator_endpoint_needed backend_attention : RecoveryAction

pub data DirectoryPresence : Type 0 where
  present missing not_known : DirectoryPresence

pub record RegistryRouteStatus : Type 0 where
  pub presence : DirectoryPresence
  pub route_needs_promotion : Bool

unfoldable pub classify :
    Bool → Bool → DirectoryPresence → ℕ → ℕ → Bool → RecoveryState × RecoveryAction
classify local_health_ok public_available directory_presence consecutive_failures grace_checks
      needs =
    if not local_health_ok
    then (local_unhealthy, restart_self)
    else if needs
    then (needs_backend, backend_attention)
    else if not public_available
    then (if leb grace_checks consecutive_failures
        then (restart_recommended, restart_self)
        else (limited_reach, wait_cooldown))
    else elim directory_presence [
      | present ↦ (healthy, do_nothing)
      | missing ↦
          if leb grace_checks consecutive_failures
          then (route_mismatch, restart_self)
          else (directory_absent, reregister)
      | not_known ↦ (unknown, do_nothing)
    ]

unfoldable pub effective_public_route_available : Bool → Bool → Bool → Bool
effective_public_route_available runtime_available route_needs_promotion relay_bound =
    runtime_available && (relay_bound || not route_needs_promotion)

-- `registry_node_presence`: `none` is a request that failed
unfoldable pub presence_of : Option ℕ → DirectoryPresence
presence_of none = not_known
presence_of (some status) =
    if leb 200 status && ltb status 300
    then present
    else if status == 404
    then missing
    else not_known

-- `registry_route_status`: the `Bool` is what `route_needs_promotion_from_registry_json` reads from
-- the body, and false where the body is no JSON object
unfoldable pub route_status : Option ℕ → Bool → RegistryRouteStatus
route_status response promotion = elim (presence_of response) [
  | present ↦ record { presence = present; route_needs_promotion = promotion }
  | missing ↦ record { presence = missing; route_needs_promotion = false }
  | not_known ↦ record { presence = not_known; route_needs_promotion = false }
]

-- `env_grace_checks` and `env_check_every_heartbeats`: `parsed` is what `int` makes of the setting or
-- of the default's text, `none` where it raises; a value that is not positive is 0 here
unfoldable pub positive_or : ℕ → Option ℕ → ℕ
positive_or default none = default
positive_or default (some value) = if ltb 0 value then value else default

abbrev pub default_grace_checks : ℕ
default_grace_checks = 3

abbrev pub default_check_every_heartbeats : ℕ
default_check_every_heartbeats = 2

unfoldable pub env_grace_checks : Option ℕ → ℕ
env_grace_checks parsed = positive_or default_grace_checks parsed

unfoldable pub env_check_every_heartbeats : Option ℕ → ℕ
env_check_every_heartbeats parsed = positive_or default_check_every_heartbeats parsed

-- the two settings, stripped and in lower case
unfoldable pub supervised_recovery_enabled : String → String → Bool
supervised_recovery_enabled supervised disabled =
    (str_eq supervised "1" || str_eq supervised "true" || str_eq supervised "yes")
    && not (
        str_eq disabled "0"
        || str_eq disabled "false"
        || str_eq disabled "no"
        || str_eq disabled "off")

-- What `route_needs_promotion_from_registry_json` reads: a text, none where it is absent or empty, and
-- `browser_usable` as absent, true, or anything else.
pub data Usable : Type 0 where
  not_said usable other_answer : Usable

pub record NodeDetail : Type 0 where
  pub summary_state : Option String
  pub summary_evidence : Option String
  pub summary_hint : Option String
  pub summary_usable : Usable
  pub route_evidence : Option String
  pub routing_hint : Option String
  pub browser_usable : Usable

abbrev pub or_text : Option String → Option String → Option String
or_text none other = other
or_text (some text) other = some text

abbrev pub is_text : Option String → String → Bool
is_text none text = false
is_text (some value) text = str_eq value text

abbrev pub is_true : Usable → Usable → Bool
is_true usable summary = true
is_true not_said usable = true
is_true _ _ = false

unfoldable pub route_needs_promotion : NodeDetail → Bool
route_needs_promotion node =
    if is_text node.summary_state "direct_unverified"
    then true
    else is_text (or_text node.routing_hint node.summary_hint) "http_ipv6"
      && not (is_text (or_text node.route_evidence node.summary_evidence) "directory_observed")
      && not (is_true node.browser_usable node.summary_usable)
