-- ===== src/Ui.antt =====
-- services/ui/app.py: the proxy in front of the other services. The limit on the rate of requests,
-- the static page and the client's connections are left out.
use mesh_settle.Prelude.{ℕ, Option, none, some, List, [], ◌∷◌, ◌++◌, Text, codes}
use mesh_settle.Mesh.Relay.{Refusal}
use mesh_settle.Mesh.Urls.{rstrip_slash}
use mesh_settle.Models.Codes.{internal_error}

-- `httpx.Response`, with the header `content-type` if it is there.
pub record Upstream : Type 0 where
  pub status_code : ℕ
  pub content : List ℕ
  pub content_type : Option Text

-- How a call of the client ends: with a response, an `httpx.HTTPError`, or another exception.
pub data Sent : Type 0 where
  response : Upstream → Sent
  http_error raised : Sent

-- The URLs of the settings that the proxy uses.
pub record Upstreams : Type 0 where
  pub sender_url : Text
  pub mesh_relay_url : Text
  pub settlement_url : Text

-- What the proxy answers: a body with its status and media type, a refusal, its health, or a
-- failure that the framework turns into a reply.
pub data UiAnswer : Type 0 where
  body : ℕ → List ℕ → Text → UiAnswer
  bad_gateway : Refusal → UiAnswer
  health : Text → Text → UiAnswer
  failed : UiAnswer

abbrev pub or_json : Option Text → Text
or_json none = codes "application/json"
or_json (some content_type) = content_type

-- `_passthrough`
unfoldable pub passthrough : Upstream → UiAnswer
passthrough upstream = body upstream.status_code upstream.content (or_json upstream.content_type)

-- `_bad_gateway`
unfoldable pub bad_gateway_answer : Text → UiAnswer
bad_gateway_answer detail =
    bad_gateway (record { code = internal_error; detail = detail; http_status = 502 })

-- The `try` of the four handlers, with the detail of its `except`.
unfoldable pub answer_of : Text → Sent → UiAnswer
unfolding passthrough bad_gateway_answer
answer_of detail (response upstream) = passthrough upstream
answer_of detail http_error = bad_gateway_answer detail
answer_of detail raised = failed

-- `J` is the type of the values that `request.json()` reads.
module _ {ℓ} (J : Type ℓ) where
  -- A call of the client.
  pub data Call : Type ℓ where
    post_json : Text → J → Call
    post_content : Text → List ℕ → Text → Call
    get : Text → Call

  -- A request that comes to a handler, with the body of a request that has one.
  pub data UiRequest : Type ℓ where
    get_healthz get_metrics : UiRequest
    post_packets post_relay : List ℕ → UiRequest
    get_settlement : Text → UiRequest

  -- The calls that a handler makes, and its answer.
  pub record Handled : Type ℓ where
    pub calls : List Call
    pub answer : UiAnswer

  module _ (read_json : List ℕ → Option J) (send : Call → Sent) (urls : Upstreams) where
    abbrev proxied : Text → Call → Handled
    proxied detail call = record { calls = call ∷ []; answer = answer_of detail (send call) }

    -- `healthz`
    unfoldable pub healthz : Handled
    healthz = record { calls = []; answer = health (codes "ok") (codes "ui") }

    abbrev pub create_of : Option J → Handled
    create_of none = record { calls = []; answer = failed }
    create_of (some value) =
        proxied (codes "the sender service is unreachable")
          (post_json (rstrip_slash urls.sender_url ++ codes "/packets") value)

    -- `create_packet`
    unfoldable pub create_packet : List ℕ → Handled
    unfolding rstrip_slash answer_of
    create_packet raw = create_of (read_json raw)

    -- `relay_packet`
    unfoldable pub relay_packet : List ℕ → Handled
    unfolding rstrip_slash answer_of
    relay_packet raw = proxied (codes "the mesh relay is unreachable") (
        post_content (rstrip_slash urls.mesh_relay_url ++ codes "/relay") raw
          (codes "application/json"))

    -- `read_settlement`
    unfoldable pub read_settlement : Text → Handled
    unfolding rstrip_slash answer_of
    read_settlement idempotency_key =
        proxied (codes "the settlement service is unreachable")
          (get (rstrip_slash urls.settlement_url ++ codes "/settlements/" ++ idempotency_key))

    -- `read_metrics`
    unfoldable pub read_metrics : Handled
    unfolding rstrip_slash answer_of
    read_metrics =
        proxied (codes "the settlement service is unreachable")
          (get (rstrip_slash urls.settlement_url ++ codes "/metrics"))

    -- The routes of `create_app`.
    unfoldable pub serve : UiRequest → Handled
    unfolding healthz create_packet relay_packet read_settlement read_metrics
    serve get_healthz = healthz
    serve get_metrics = read_metrics
    serve (post_packets raw) = create_packet raw
    serve (post_relay raw) = relay_packet raw
    serve (get_settlement idempotency_key) = read_settlement idempotency_key
