-- ===== src/Proxy/Service/Token.antt =====
-- proxy_service.rs: who gets the PAC file of the proxy.
use libreatrust.Base.{
  Any, Bool-cases, List, Option-cases, Text, [], any, ap, arith, codes, false, if_false, inl, inr,
  is_empty, not, some, split_on, sym, text_eq, text_eq_iff, true, ◌&&◌, ◌++◌, ◌==◌, ◌∙◌, ◌∷◌, ◌≡◌,
  ◌≢◌, ◌⊎◌,
}
use libreatrust.Error.{ok}
use libreatrust.Client.{AtrClient}
use libreatrust.Proxy.Http.{HttpProxyRequest}
use libreatrust.Proxy.Service.{ProxyServiceConfig, System, reply, stop}
use libreatrust.Proxy.Service.Requests.{
  asks_for_pac, local_response, path_and_query, query_has, serve_local_http_request, token_matches,
}

-- The query of a request has the token of the configuration, which is not empty.
pub record KnowsToken (config : ProxyServiceConfig) (request : HttpProxyRequest) : Type 0 where
  pub token : Text
  pub configured : config.pac_token ≡ some token
  pub not_empty : token ≢ []
  pub given :
      Any
        (λ pair. pair ≡ codes "token=" ++ token)
        (split_on (λ c. c == b'&') (path_and_query request.target).1)

any_sound :
    (token : Text) (pairs : List Text)
    → any (λ pair. text_eq pair token) pairs ≡ true
    → Any (λ pair. pair ≡ token) pairs
any_sound token [] h = absurd (cc h)
any_sound token (pair ∷ pairs) h = elim (Bool-cases (text_eq pair token)) [
  | inl same ↦ inl ((text_eq_iff pair token).0 same)
  | inr other ↦ inr (any_sound token pairs (ground (arith, h, other)))
]

token_matches_sound :
    (config : ProxyServiceConfig) (request : HttpProxyRequest)
    → token_matches config.pac_token (path_and_query request.target).1 ≡ true
    → KnowsToken config request
unfolding token_matches query_has
token_matches_sound config request h = elim (Option-cases config.pac_token) [
  | inl absent ↦ let clash : false ≡ true = rw absent at h in absurd (cc clash)
  | inr (token, e) ↦
      let found : (not (is_empty token)
            && any (λ pair. text_eq pair (codes "token=" ++ token))
                (split_on (λ c. c == b'&') (path_and_query request.target).1))
          ≡ true =
        rw e at h in
      record {
        token = token;
        configured = e;
        not_empty = λ empty. absurd (ground (arith, found, ap is_empty empty));
        given = any_sound (codes "token=" ++ token) _ (ground (arith, found));
      }
]

module _ (system : System) (config : ProxyServiceConfig) (request : HttpProxyRequest) where
  -- What the proxy answers to a request for itself does not depend on the client and its
  -- resources, unless the query of the request has the token of the configuration.
  pub serve_local_http_request-KnowsToken :
      (client client' : AtrClient)
      → (serve_local_http_request system request client config
          ≡ serve_local_http_request system request client' config)
        ⊎ KnowsToken config request
  unfolding serve_local_http_request local_response asks_for_pac
  serve_local_http_request-KnowsToken client client' =
      elim (Bool-cases (asks_for_pac config request)) [
        | inr refused ↦ inl (
            ap (λ bytes. reply system bytes (stop (ok tt)))
              (if_false (asks_for_pac config request) _ _ refused
                ∙ sym (if_false (asks_for_pac config request) _ _ refused)))
        | inl asks ↦ inr (token_matches_sound config request (ground (arith, asks)))
      ]
