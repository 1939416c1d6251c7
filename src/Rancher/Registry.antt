-- ===== src/Rancher/Registry.antt =====
-- internal/rancher/client.go: FindCluster and CreateCluster over a registry of the clusters' IDs.
use losant_device.Prelude.{
  String, ◌⊕◌, ◌≡◌, refl, sym, ◌∙◌, ap, Bool, true, false, Option, none, some, List, [], ◌∷◌, inl,
  inr, arith,
}
use losant_device.Prelude.Texts.{query_escape}
use losant_device.Go.{ok, err, Fallible-cases}
use losant_device.Http.{
  decoded-ok, Reply, not_built, not_sent, received, accepted, decoded, continue-ok,
}
use losant_device.Rancher.Client.{
  Cluster, Env, HttpClient, read_reply, first_cluster, created_id, find_url, clusters_url,
  cluster_payload, request_of, do_request, find_cluster, create_cluster,
}

-- The ID that FindCluster found.
abbrev pub found_id : String × Bool → Option String
found_id (id, true) = some id
found_id (id, false) = none

-- The clusters that are registered under a name.
abbrev pub named : String → Option String → List Cluster
named name none = []
named name (some id) = record { id = id; name = name } ∷ []

-- The URL of the clusters with this name, which url.QueryEscape encodes for the query.
abbrev pub query_url : HttpClient → String → String
query_url c name = c.base_url ⊕ ("/v3/clusters?name=" ⊕ query_escape name)

-- What Rancher's API is documented to do with its clusters, as far as the name `name` goes: a GET
-- of the clusters, with the name in the query, lists those of this name and changes none, and a
-- creation under this name registers the cluster that it returns and no other.
pub record Serves {W : Type 0} (env : Env W) (c : HttpClient)
    (registry : String → W → Option String) (name : String) : Type 0 where
  pub search_keeps :
      (other : String) (w : W)
      → registry other (env.send c.ca (request_of c "GET" (query_url c name) none) w).1
        ≡ registry other w
  pub search_shows :
      (w : W) (body : String) (clusters : List Cluster)
      → accepted (env.send c.ca (request_of c "GET" (query_url c name) none) w).0 ≡ some body
      → env.decode_clusters body ≡ ok clusters
      → clusters ≡ named name (registry name w)
  pub creation_registers :
      (w : W) (body : String) (cluster : Cluster)
      → registry name w ≡ none
      → accepted
          (env.send c.ca (request_of c "POST" (clusters_url c) (some (cluster_payload name))) w).0
        ≡ some body
      → env.decode_cluster body ≡ ok cluster
      → registry name
          (env.send c.ca (request_of c "POST" (clusters_url c) (some (cluster_payload name))) w).1
        ≡ some cluster.id
  pub creation_keeps :
      (other : String) (w : W)
      → ¬ (other ≡ name)
      → registry other
          (env.send c.ca (request_of c "POST" (clusters_url c) (some (cluster_payload name))) w).1
        ≡ registry other w

read_reply-accepted :
    (method path : String) (reply : Reply) (body : String)
    → read_reply method path reply ≡ ok body
    → accepted reply ≡ some body
unfolding read_reply
read_reply-accepted method path (received code (ok b)) body e = ground arith
read_reply-accepted method path (received code (err e')) body e = ground arith
read_reply-accepted method path (not_built e') body e = ground arith
read_reply-accepted method path (not_sent e') body e = ground arith

-- For a name that the encoding does not change, FindCluster asks for this URL.
find_url-query :
    (c : HttpClient) (name : String) → query_escape name ≡ name → find_url c name ≡ query_url c name
find_url-query c name plain = rw plain refl

found_id-named :
    (name : String) (id : Option String) → found_id (first_cluster (named name id)) ≡ id
found_id-named name none = refl
found_id-named name (some id) = refl

created_id-ok : (c : Cluster) (id : String) → created_id c ≡ ok id → c.id ≡ id
created_id-ok c id e = ground arith

module _ {W : Type 0} (env : Env W) (c : HttpClient) (registry : String → W → Option String)
    (name : String) (plain : query_escape name ≡ name) (serves : Serves env c registry name) where
  pub find_cluster-shows :
      (w : W) (x : String × Bool)
      → (find_cluster env c name w).0 ≡ ok x
      → found_id x ≡ registry name w
  unfolding find_cluster do_request
  find_cluster-shows w x e =
      let url = find_url-query c name plain in
      let (reply, w') = env.send c.ca (request_of c "GET" (find_url c name) none) w in
      let (body, read, rest) = continue-ok (read_reply "GET" (find_url c name) reply) _ w' x e in
      let (clusters, parsed, last) =
        continue-ok (decoded "decode cluster list response" (env.decode_clusters body)) _ w' x
          rest in
      let shown =
        serves.search_shows w body clusters
          (rw (sym url) (read_reply-accepted "GET" (find_url c name) reply body read))
          (decoded-ok "decode cluster list response" (env.decode_clusters body) clusters parsed) in
      let first = found_id-named name (registry name w) in cc

  pub find_cluster-keeps :
      (other : String) (w : W) → registry other (find_cluster env c name w).1 ≡ registry other w
  unfolding find_cluster do_request
  find_cluster-keeps other w =
      let (reply, w') = env.send c.ca (request_of c "GET" (find_url c name) none) w in
      let keeps : registry other (env.send c.ca (request_of c "GET" (find_url c name) none) w).1
          ≡ registry other w =
        rw (find_url-query c name plain) (serves.search_keeps other w) in
      elim (Fallible-cases (read_reply "GET" (find_url c name) reply)) [
        | inl (body, e) ↦ elim (Fallible-cases (env.decode_clusters body)) [
          | inl (clusters, d) ↦ rw (e, d) keeps
          | inr (failure, d) ↦ rw (e, d) keeps
        ]
        | inr (failure, e) ↦ rw e keeps
      ]

  pub create_cluster-registers :
      (w : W) (id : String)
      → registry name w ≡ none
      → (create_cluster env c name w).0 ≡ ok id
      → registry name (create_cluster env c name w).1 ≡ some id
  unfolding create_cluster do_request
  create_cluster-registers w id absent e =
      let (reply, w') =
        env.send c.ca (request_of c "POST" (clusters_url c) (some (cluster_payload name))) w in
      let (body, read, rest) = continue-ok (read_reply "POST" (clusters_url c) reply) _ w' id e in
      let (cluster, parsed, last) =
        continue-ok (decoded "decode create cluster response" (env.decode_cluster body)) _ w' id
          rest in
      rw (read, parsed)
        (serves.creation_registers w body cluster absent
            (read_reply-accepted "POST" (clusters_url c) reply body read)
            (decoded-ok "decode create cluster response" (env.decode_cluster body) cluster parsed)
          ∙ ap some (created_id-ok cluster id last))

  pub create_cluster-keeps :
      (other : String) (w : W)
      → ¬ (other ≡ name)
      → registry other (create_cluster env c name w).1 ≡ registry other w
  unfolding create_cluster do_request
  create_cluster-keeps other w apart =
      let (reply, w') =
        env.send c.ca (request_of c "POST" (clusters_url c) (some (cluster_payload name))) w in
      elim (Fallible-cases (read_reply "POST" (clusters_url c) reply)) [
        | inl (body, e) ↦ elim (Fallible-cases (env.decode_cluster body)) [
          | inl (cluster, d) ↦ rw (e, d) (serves.creation_keeps other w apart)
          | inr (failure, d) ↦ rw (e, d) (serves.creation_keeps other w apart)
        ]
        | inr (failure, e) ↦ rw e (serves.creation_keeps other w apart)
      ]
