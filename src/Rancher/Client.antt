-- ===== src/Rancher/Client.antt =====
-- internal/rancher/client.go: HTTPClient, the RancherClient over Rancher's v3 REST API.
use losant_device.Prelude.{
  String, ◌⊕◌, Bool, true, false, Option, none, some, List, [], ◌∷◌, Assoc, lookup, ◌==◌,
  if◌then◌else◌,
}
use losant_device.Prelude.Int.{ℤ, pos, negsuc, ltb_ℤ}
use losant_device.Prelude.Decimal.{decimal}
use losant_device.Prelude.Texts.{trim_right_slashes}
use losant_device.Go.{GoError, Fallible, ok, err, new_error, wrap, is_empty, rancher_not_found}
use losant_device.Http.{
  Json, text, boolean, Request, Reply, not_built, not_sent, received, Transport, Action, pure,
  ◌>>=◌, mentions, decoded,
}
use losant_device.Kube.{Secret}
use losant_device.Rancher.{RancherClient}

-- cluster
pub record Cluster : Type 0 where
  pub id : String
  pub name : String

-- The network for a client that trusts the given CA, whether AppendCertsFromPEM finds a certificate
-- in a text, and json.Unmarshal into the types of the responses.
pub record Env (W : Type 0) : Type 0 where
  pub send : String → Transport W
  pub has_certificates : String → Bool
  pub decode_cluster : String → Fallible Cluster
  pub decode_clusters : String → Fallible (List Cluster)
  -- the manifest URLs of the registration tokens
  pub decode_tokens : String → Fallible (List String)

-- HTTPClient; of the http.Client, the CA.
pub record HttpClient : Type 0 where
  pub base_url : String
  pub token : String
  pub ca : String

-- the start of an error about the Secret
abbrev credentials_secret : Secret → String
credentials_secret secret = "credentials secret " ⊕ (secret.namespace ⊕ ("/" ⊕ secret.name))

abbrev required : Secret → String → Fallible String
required secret key = elim (lookup key secret.data_map) [
  | none ↦ err (new_error (credentials_secret secret ⊕ (" missing key \"" ⊕ (key ⊕ "\""))))
  | some value ↦ ok value
]

abbrev then_with : {A B : Type 0} → Fallible A → (A → Fallible B) → Fallible B
then_with (ok a) f = f a
then_with (err e) f = err e

-- NewHTTPClient
unfoldable pub new_http_client : {W : Type 0} → Env W → Secret → Fallible HttpClient
new_http_client env secret = then_with (required secret "RANCHER_URL") λ raw_url.
    then_with (required secret "RANCHER_TOKEN") λ token.
      then_with (required secret "RANCHER_CA") λ ca_data.
        if env.has_certificates ca_data
        then ok (record { base_url = trim_right_slashes raw_url; token = token; ca = ca_data })
        else err (
            new_error
              (credentials_secret secret ⊕ ": RANCHER_CA contains no valid PEM certificates"))

-- code == http.StatusNotFound
abbrev pub is_404 : ℤ → Bool
is_404 (pos n) = n == 404
is_404 (negsuc n) = false

-- ErrNotFound.Error()
abbrev pub not_found_text : String
not_found_text = "rancher resource not found"

-- fmt.Errorf("%w: %s %s", ErrNotFound, method, path)
abbrev pub not_found_error : String → String → GoError
not_found_error method path = record {
  text = not_found_text ⊕ (": " ⊕ (method ⊕ (" " ⊕ path)));
  wraps = some rancher_not_found;
}

abbrev call_text : String → String → String
call_text method path = "rancher api " ⊕ (method ⊕ (" " ⊕ path))

-- The error of a response with a status of 400 or more that is not 404.
abbrev pub status_error : String → String → ℤ → String → GoError
status_error method path code body =
    new_error (call_text method path ⊕ (": status " ⊕ (decimal code ⊕ (": " ⊕ body))))

-- what doRequest makes of a reply
unfoldable pub read_reply : String → String → Reply → Fallible String
read_reply method path (not_built e) = err (wrap "build request" e)
read_reply method path (not_sent e) = err (wrap (call_text method path) e)
read_reply method path (received code (err e)) = err (wrap "read response body" e)
read_reply method path (received code (ok body)) =
    if is_404 code
    then err (not_found_error method path)
    else if ltb_ℤ code (pos 400)
    then ok body
    else err (status_error method path code body)

abbrev pub first_cluster : List Cluster → String × Bool
first_cluster [] = ("", false)
first_cluster (c ∷ clusters) = (c.id, true)

abbrev pub created_id : Cluster → Fallible String
created_id c =
    if is_empty c.id then err (new_error "create cluster: empty id in response") else ok c.id

-- The manifest URL of the first registration token.
abbrev manifest_url : String → List String → Fallible String
manifest_url cluster_id [] =
    err (new_error ("no registration token found for cluster " ⊕ cluster_id))
manifest_url cluster_id (url ∷ urls) =
    if is_empty url
    then err (new_error ("no registration token found for cluster " ⊕ cluster_id))
    else ok url

-- isNotFound: the text has that of ErrNotFound in it
abbrev pub is_not_found : GoError → Bool
is_not_found e = mentions e not_found_text

abbrev forget_body : Fallible String → Fallible (Unit {0})
forget_body (ok body) = ok tt
forget_body (err e) = err e

-- if err != nil && isNotFound(err) { return nil }
unfoldable pub forgive_not_found : Fallible String → Fallible (Unit {0})
forgive_not_found (ok body) = ok tt
forgive_not_found (err e) = if is_not_found e then ok tt else err e

abbrev pub cluster_url : HttpClient → String → String
cluster_url c id = c.base_url ⊕ ("/v3/clusters/" ⊕ id)

-- the name stands in the URL as it is
abbrev pub find_url : HttpClient → String → String
find_url c name = c.base_url ⊕ ("/v3/clusters?name=" ⊕ name)

abbrev pub clusters_url : HttpClient → String
clusters_url c = c.base_url ⊕ "/v3/clusters"

-- the payload of CreateCluster
abbrev pub cluster_payload : String → Assoc Json
cluster_payload name = ("name", text name) ∷ ("import", boolean true) ∷ []

abbrev pub request_of : HttpClient → String → String → Option (Assoc Json) → Request
request_of c method path payload = record {
  method = method;
  url = path;
  token = c.token;
  payload = payload;
}

module _ {W : Type 0} (env : Env W) (c : HttpClient) where
  -- doRequest
  unfoldable pub do_request : String → String → Option (Assoc Json) → Action W String
  unfolding read_reply
  do_request method path payload w =
      let (reply, w') = env.send c.ca (request_of c method path payload) w in
      (read_reply method path reply, w')

  -- FindCluster
  unfoldable pub find_cluster : String → Action W (String × Bool)
  find_cluster name = do
    body ← do_request "GET" (find_url c name) none
    clusters ← pure (decoded "decode cluster list response" (env.decode_clusters body))
    pure (ok (first_cluster clusters))

  -- CreateCluster
  unfoldable pub create_cluster : String → Action W String
  create_cluster name = do
    body ← do_request "POST" (clusters_url c) (some (cluster_payload name))
    cluster ← pure (decoded "decode create cluster response" (env.decode_cluster body))
    pure (created_id cluster)

  -- GetRegistrationToken
  unfoldable pub get_registration_token : String → Action W String
  get_registration_token cluster_id = do
    body ←
        do_request "GET" (c.base_url ⊕ ("/v3/clusterregistrationtokens?clusterId=" ⊕ cluster_id))
          none
    tokens ← pure (decoded "decode registration token response" (env.decode_tokens body))
    pure (manifest_url cluster_id tokens)

  -- GetCluster
  unfoldable pub get_cluster : String → Action W (Unit {0})
  get_cluster id w =
      let (answer, w') = do_request "GET" (cluster_url c id) none w in (forget_body answer, w')

  -- DeleteCluster
  unfoldable pub delete_cluster : String → Action W (Unit {0})
  unfolding forgive_not_found
  delete_cluster id w =
      let (answer, w') = do_request "DELETE" (cluster_url c id) none w in
      (forgive_not_found answer, w')

-- HTTPClient as a RancherClient
abbrev pub rancher_client : {W : Type 0} → Env W → HttpClient → RancherClient W
rancher_client env c = record {
  find_cluster = find_cluster env c;
  create_cluster = create_cluster env c;
  get_registration_token = get_registration_token env c;
  get_cluster = get_cluster env c;
  delete_cluster = delete_cluster env c;
}
