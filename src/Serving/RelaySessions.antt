-- ===== src/Serving/RelaySessions.antt =====
-- relay_session.py: `RelaySessionRegistry`, the relay's bound workers and the limit on how often a
-- source may bind. `now` is the clock's reading where the caller gives none; `window` is
-- `RELAY_BIND_RATE_WINDOW_S` in the clock's unit.
pub mod Limits
use iicp_client_python.Prelude.{
  ℕ, suc, ◌+◌, Bool, true, false, not, ◌&&◌, ◌||◌, String, Option, none, some, List, [], ◌∷◌,
  str_eq, ltb, leb, ◌==◌, length, if◌then◌else◌,
}
use iicp_client_python.Prelude.Dict
use iicp_client_python.Prelude.Dict.{Dict}

abbrev pub max_relay_sessions : ℕ
max_relay_sessions = 256

abbrev pub max_buckets : ℕ
max_buckets = 4096

-- A session, as the registry looks at it: a TCP session, or an HTTP-poll session with its bearer
-- token. The `ℕ` tells sessions apart.
pub data RelaySession : Type 0 where
  tcp : ℕ → RelaySession
  http_poll : ℕ → String → RelaySession

pub record Registry : Type 0 where
  pub sessions : Dict RelaySession
  pub max_sessions : ℕ
  pub bind_rate_limit : ℕ
  pub bind_rate_buckets : Dict (ℕ × ℕ)

unfoldable pub init : ℕ → ℕ → Registry
init max_sessions bind_rate_limit = record {
  sessions = [];
  max_sessions = max_sessions;
  bind_rate_limit = bind_rate_limit;
  bind_rate_buckets = [];
}

-- the bucket that this attempt counts in, before it is counted
abbrev pub current_bucket : ℕ → ℕ → Option (ℕ × ℕ) → ℕ × ℕ
current_bucket window now none = (now, 0)
current_bucket window now (some (start, count)) =
    if leb (start + window) now then (now, 0) else (start, count)

-- the buckets that are kept
abbrev pub trimmed : ℕ → ℕ → Dict (ℕ × ℕ) → Dict (ℕ × ℕ)
trimmed window now buckets =
    if ltb max_buckets (length buckets)
    then Dict.keep (λ (bucket : ℕ × ℕ). ltb now (bucket.0 + window)) buckets
    else buckets

unfoldable pub count_bind : ℕ → String → ℕ → Registry → Bool × Registry
count_bind window source now registry =
    let (start, count) = current_bucket window now (Dict.get registry.bind_rate_buckets source) in
    (
      leb (suc count) registry.bind_rate_limit,
      record registry {
        bind_rate_buckets =
            trimmed window now (Dict.put registry.bind_rate_buckets source (start, suc count));
      },
    )

unfoldable pub allow_bind : ℕ → String → Bool → ℕ → Registry → Bool × Registry
allow_bind window source rebind now registry =
    if rebind || registry.bind_rate_limit == 0
    then (true, registry)
    else count_bind window source now registry

unfoldable pub at_capacity : String → Registry → Bool
at_capacity worker_id registry =
    not (Dict.contains registry.sessions worker_id)
    && leb registry.max_sessions (length registry.sessions)

unfoldable pub count : Registry → ℕ
count registry = length registry.sessions

unfoldable pub bind : String → RelaySession → Registry → Registry
bind worker_id session registry = record registry {
  sessions = Dict.put registry.sessions worker_id session;
}

unfoldable pub unbind : String → Registry → Registry
unbind worker_id registry = record registry { sessions = Dict.remove registry.sessions worker_id }

unfoldable pub get_session : String → Registry → Option RelaySession
get_session worker_id registry = Dict.get registry.sessions worker_id

abbrev pub has_token : String → RelaySession → Bool
has_token token (tcp id) = false
has_token token (http_poll id session_token) = str_eq session_token token

unfoldable pub find_token : String → List RelaySession → Option RelaySession
find_token token [] = none
find_token token (session ∷ sessions) =
    let rest = find_token token sessions in if has_token token session then some session else rest

unfoldable pub get_by_token : String → Registry → Option RelaySession
get_by_token token registry =
    if str_eq token "" then none else find_token token (Dict.values registry.sessions)

unfoldable pub is_bound : String → Registry → Bool
is_bound worker_id registry = Dict.contains registry.sessions worker_id

unfoldable pub bound_worker_ids : Registry → List String
bound_worker_ids registry = Dict.keys registry.sessions
