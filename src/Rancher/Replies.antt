-- ===== src/Rancher/Replies.antt =====
-- internal/rancher/client.go: what GetCluster and DeleteCluster make of the replies.
use losant_device.Prelude.{String, ◌⊕◌, ◌≡◌, refl, true, false, none}
use losant_device.Prelude.Int.{pos, ltb_ℤ}
use losant_device.Go.{GoError, ok, err, rancher_not_found, is_sentinel}
use losant_device.Http.{Reply, received, not_built, not_sent}
use losant_device.Prelude.Texts.{contains-start}
use losant_device.Rancher.Client.{
  Env, HttpClient, read_reply, do_request, request_of, cluster_url, get_cluster, delete_cluster,
  forgive_not_found, not_found_error, status_error, is_404, not_found_text, is_not_found,
}

not_found_error-mentioned :
    (method path : String) → is_not_found (not_found_error method path) ≡ true
not_found_error-mentioned method path =
    contains-start not_found_text (": " ⊕ (method ⊕ (" " ⊕ path)))

module _ {W : Type 0} (rancher : Env W) (c : HttpClient) (id body : String) (w : W) where
  pub get_cluster-gone :
      (rancher.send c.ca (request_of c "GET" (cluster_url c id) none) w).0
        ≡ received (pos 404) (ok body)
      → (get_cluster rancher c id w).0 ≡ err (not_found_error "GET" (cluster_url c id))
  unfolding get_cluster do_request read_reply
  get_cluster-gone gone = rw (gone, read_reply) refl

  pub delete_cluster-gone :
      (rancher.send c.ca (request_of c "DELETE" (cluster_url c id) none) w).0
        ≡ received (pos 404) (ok body)
      → (delete_cluster rancher c id w).0 ≡ ok tt
  unfolding delete_cluster do_request read_reply forgive_not_found
  delete_cluster-gone gone =
      rw
        (gone, read_reply, forgive_not_found, not_found_error-mentioned "DELETE" (cluster_url c id))
        refl

-- The failures of a request that do not say that the cluster is gone.
abbrev pub IsFailure : Reply → Type 0
IsFailure (not_built e) = is_sentinel rancher_not_found e.wraps ≡ false
IsFailure (not_sent e) = is_sentinel rancher_not_found e.wraps ≡ false
IsFailure (received code (err e)) = is_sentinel rancher_not_found e.wraps ≡ false
IsFailure (received code (ok body)) = (is_404 code ≡ false) × (ltb_ℤ code (pos 400) ≡ false)

read_reply-failure :
    (method path : String) (reply : Reply)
    → IsFailure reply
    → (e : GoError) × (read_reply method path reply ≡ err e)
      × (is_sentinel rancher_not_found e.wraps ≡ false)
unfolding read_reply
read_reply-failure method path (not_built e) h = (_, refl, h)
read_reply-failure method path (not_sent e) h = (_, refl, h)
read_reply-failure method path (received code (err e)) h = (_, refl, h)
read_reply-failure method path (received code (ok body)) h =
    (status_error method path code body, rw (h.0, h.1) refl, refl)

pub get_cluster-failure :
    {W : Type 0} (rancher : Env W) (c : HttpClient) (id : String) (w : W) (reply : Reply)
    → IsFailure reply
    → (rancher.send c.ca (request_of c "GET" (cluster_url c id) none) w).0 ≡ reply
    → (e : GoError) × ((get_cluster rancher c id w).0 ≡ err e)
      × (is_sentinel rancher_not_found e.wraps ≡ false)
unfolding get_cluster do_request
get_cluster-failure rancher c id w reply failure answered =
    let (e, failed, other) = read_reply-failure "GET" (cluster_url c id) reply failure in
    (e, rw (answered, failed) refl, other)
