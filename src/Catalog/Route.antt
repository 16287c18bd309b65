-- ===== src/Catalog/Route.antt =====
-- Routes of internal/catalog/catalog.go: `Route`, `EndpointPath`, `prefixRoutes`, `resolve`,
-- `JoinUpstreamURL` and `endpointEscapesBase`.
use opencode_go_cliproxyapi.Prelude.{
  Bool, List, Option, [], if◌then◌else◌, none, not, some, true, ◌++◌, ◌||◌, ◌∷◌,
}
use opencode_go_cliproxyapi.Prelude.Text.{
  Text, codes, has_prefix, text_eq, to_lower, trim_prefix, trim_suffix,
}
use opencode_go_cliproxyapi.Prelude.Dict.{lookup}
use opencode_go_cliproxyapi.Config.{Config, Protocols, RouteOverride, Url}

-- A `Route` is a string in Go: one of the four that are known, or another text.
pub data Route : Type 0 where
  chat_completions messages responses gemini : Route
  other : Text → Route

abbrev pub route_text : Route → Text
route_text chat_completions = codes "chat-completions"
route_text messages = codes "messages"
route_text responses = codes "responses"
route_text gemini = codes "gemini"
route_text (other t) = t

-- The conversion `Route(s)`.
unfoldable pub to_route : Text → Route
to_route s =
    if text_eq s (codes "chat-completions")
    then chat_completions
    else if text_eq s (codes "messages")
    then messages
    else if text_eq s (codes "responses")
    then responses
    else if text_eq s (codes "gemini")
    then gemini
    else other s

-- `EndpointPath`, with the table `routeEndpoints`.
abbrev pub endpoint_path : Route → Text
endpoint_path chat_completions = codes "/v1/chat/completions"
endpoint_path messages = codes "/v1/messages"
endpoint_path responses = codes "/v1/responses"
endpoint_path gemini = codes "/v1/models"
endpoint_path (other t) = []

-- `routeFromString`.
unfoldable pub route_from_string : Text → Option Route
unfolding to_route
route_from_string s = elim (to_route s) [ other t ↦ none | r ↦ some r ]

-- Longest prefix first.
abbrev pub prefix_routes : List (Text × Route)
prefix_routes =
    (codes "space-bunny", chat_completions)
    ∷ (codes "muse-spark", responses)
    ∷ (codes "deepseek", chat_completions)
    ∷ (codes "minimax", messages)
    ∷ (codes "cat-jam", chat_completions)
    ∷ (codes "longcat", chat_completions)
    ∷ (codes "claude", messages)
    ∷ (codes "gemini", gemini)
    ∷ (codes "grok", responses)
    ∷ (codes "gpt", responses)
    ∷ (codes "kimi", chat_completions)
    ∷ (codes "qwen", messages)
    ∷ (codes "glm", chat_completions)
    ∷ (codes "step", chat_completions)
    ∷ (codes "mimo", chat_completions)
    ∷ (codes "hy", chat_completions)
    ∷ []

-- The loop over `prefixRoutes`.
unfoldable pub route_of_prefix : Text → List (Text × Route) → Option Route
route_of_prefix id [] = none
route_of_prefix id ((p, r) ∷ rest) = if has_prefix id p then some r else route_of_prefix id rest

-- What `resolve` returns: a route with the endpoint of an override, or "" otherwise, and whether
-- an override decided, for the warning.
pub data Resolution : Type 0 where
  overridden : RouteOverride → Resolution
  by_family : Route → Resolution
  unresolved : Resolution

unfoldable pub resolve_family : Text → Resolution
unfolding route_of_prefix
resolve_family id = elim (route_of_prefix (to_lower id) prefix_routes) [
  | none ↦ unresolved
  | some r ↦ by_family r
]

unfoldable pub resolve : Config → Text → Resolution
resolve cfg id = elim (lookup id cfg.route_overrides) [
  | some o ↦ overridden o
  | none ↦ resolve_family id
]

-- `protocolEnabled`.
unfoldable pub protocol_enabled : Protocols → Route → Bool
protocol_enabled p chat_completions = p.chat_completions
protocol_enabled p messages = p.messages
protocol_enabled p responses = p.responses
protocol_enabled p gemini = p.gemini
protocol_enabled p (other t) = true

-- `JoinUpstreamURL`.
unfoldable pub join_upstream_url : Text → Text → Text
join_upstream_url base endpoint = trim_suffix base (codes "/") ++ trim_prefix endpoint (codes "/v1")

-- What the catalog takes from the standard library.
pub record Library : Type 0 where
  pub parse_url : Text → Option Url
  pub path_escape : Text → Text
  pub equal_fold : Text → Text → Bool
  pub quote : Text → Text

-- `endpointEscapesBase`, for the two parsed URLs.
unfoldable pub authority_differs : Library → Option Url → Option Url → Bool
authority_differs lib none got = true
authority_differs lib (some base) none = true
authority_differs lib (some base) (some got) =
    not (lib.equal_fold got.host base.host) || not (text_eq got.scheme base.scheme)

unfoldable pub endpoint_escapes_base : Library → Text → Text → Bool
unfolding authority_differs
endpoint_escapes_base lib base endpoint =
    authority_differs lib (lib.parse_url base) (lib.parse_url (join_upstream_url base endpoint))
