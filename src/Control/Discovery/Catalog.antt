-- ===== src/Control/Discovery/Catalog.antt =====
-- internal/workforce/control/discovery.go: what a gateway that was found has served.
use Prim.Native.String.{◌++◌ as ◌<>◌}
use agents_coworkers.Prelude.Text.{trim_slashes}
use agents_coworkers.Prelude.{
  ◌≡◌, ◌≢◌, refl, sym, false, not, String, Option, none, some, List, [], ◌∷◌, nat_eq, arith,
  if-intro, option-intro,
}
use agents_coworkers.Control.Types.{GatewayResult}
use agents_coworkers.Control.Loopback.{validate_loopback_url}
use agents_coworkers.Control.Manifest.{failed}
use agents_coworkers.Control.Discovery.{
  Discovery, found, missing, Answer, no_request, no_connection, answered, Machine, named_models,
  check_models, check_catalog, judge_catalog, gateway_url, resolve_gateway_endpoint,
}
use agents_coworkers.Control.Discovery.Daemon.{Finds, Finds-elim}

-- The models that the answer lists, with their names trimmed and the empty ones left out.
pub record Served (h : Machine) (url : String) (a : Answer) (r : GatewayResult) : Type 0 where
  pub address : r.url ≡ url
  pub verified : r.catalog_status ≡ "VERIFIED"
  pub body : String
  pub listed : List String
  pub answer_read : a ≡ answered 200 (some body)
  pub decoded : h.decode_models body ≡ some listed
  pub models : r.observed_models ≡ named_models h listed
  pub not_empty : r.observed_models ≢ []
  pub no_provider_call : r.provider_call_performed ≡ false

module _ (h : Machine) where
  -- A list of models by a name for it.
  listed_models :
      (url body : String) (a : Answer) (ms names : List String)
      → a ≡ answered 200 (some body)
      → h.decode_models body ≡ some ms
      → named_models h ms ≡ names
      → Finds (Served h url a) (check_models h url names)
  listed_models url body a ms [] e d n = tt
  listed_models url body a ms (m ∷ names) e d n = record {
    address = refl;
    verified = refl;
    body = body;
    listed = ms;
    answer_read = e;
    decoded = d;
    models = sym n;
    not_empty = λ z. cc;
    no_provider_call = refl;
  }

  judged : (url : String) (a b : Answer) → a ≡ b → Finds (Served h url a) (judge_catalog h url b)
  judged url a no_request e = tt
  judged url a no_connection e = tt
  judged url a (answered status body) e =
      if-intro (Finds (Served h url a)) (not (nat_eq status 200)) (λ _. tt)
        λ s.
          let ok_status : status ≡ 200 = ground (arith, s) in
          option-intro (Finds (Served h url a)) body (λ _. tt)
            λ text t. decoded url text a (h.decode_models text) refl (cc)
    where
      decoded :
          (url text : String) (a : Answer) (o : Option (List String))
          → h.decode_models text ≡ o
          → a ≡ answered 200 (some text)
          → Finds (Served h url a) (check_catalog h url o)
      decoded url text a none d e = tt
      decoded url text a (some ms) d e = listed_models url text a ms (named_models h ms) e d refl

-- The URL is loopback, and its answer is served.
abbrev pub Reached : Machine → String → GatewayResult → Type 0
Reached h url r =
    (failed (validate_loopback_url h.parse_url (gateway_url h url)) ≡ false)
    × Served h (trim_slashes (gateway_url h url))
        (h.get (trim_slashes (gateway_url h url) <> "/v1/models")) r

reached :
    (h : Machine) (url : String) (d : Discovery GatewayResult)
    → failed (validate_loopback_url h.parse_url (gateway_url h url)) ≡ false
    → Finds
        (Served h
          (trim_slashes (gateway_url h url))
          (h.get (trim_slashes (gateway_url h url) <> "/v1/models")))
        d
    → Finds (Reached h url) d
reached h url (missing k) l f = tt
reached h url (found r) l f = (l, f)

gateway-Reached :
    (h : Machine) (url : String) → Finds (Reached h url) (resolve_gateway_endpoint h url)
unfolding resolve_gateway_endpoint
gateway-Reached h url =
    if-intro (Finds (Reached h url))
      (failed (validate_loopback_url h.parse_url (gateway_url h url))) (λ _. tt)
      λ l. reached h url _ l (
        judged h (trim_slashes (gateway_url h url))
          (h.get (trim_slashes (gateway_url h url) <> "/v1/models")) _ refl)

pub resolve_gateway_endpoint-Reached :
    (h : Machine) (url : String) (r : GatewayResult)
    → resolve_gateway_endpoint h url ≡ found r
    → Reached h url r
resolve_gateway_endpoint-Reached h url r e =
    Finds-elim (Reached h url) (resolve_gateway_endpoint h url) r (gateway-Reached h url) e
