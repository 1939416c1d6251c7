-- ===== src/Losant/NotFound.antt =====
-- Responses with status 404 and DeleteDevice and ReleaseWorkflow, which know them by their text.
use losant_device.Prelude.{String, ◌⊕◌, ◌≡◌, refl, sym, true, false, none, some, [], ◌∷◌}
use losant_device.Prelude.Int.{ℤ, pos, ltb_ℤ}
use losant_device.Prelude.Decimal.{decimal}
use package.text.Mathlib.TextLemmas.{append_assoc}
use losant_device.Prelude.Texts.{contains, contains-append, contains-after, contains-start}
use losant_device.Go.{GoError, ok, err, workflow_not_found}
use losant_device.Http.{text, texts, Request, Reply, received, mentions}
use losant_device.Losant.Request.{
  Env, HttpClient, application_url, device_url, read_reply, status_error,
}
use losant_device.Losant.Registry.{request_of}
use losant_device.Losant.Client.{do_request, delete_device, release_workflow, forgive_404, name_404}

status_error-contains-body :
    (method url before t rest : String) (code : ℤ)
    → contains (status_error method url code (before ⊕ (t ⊕ rest))).text t ≡ true
status_error-contains-body method url before t rest code = contains-after _ _ t (
    contains-after ": " _ t (
      contains-after "status " _ t (
        contains-after (decimal code) _ t
          (contains-after ": " _ t (contains-append before t rest)))))

decimal_404 : decimal (pos 404) ≡ "404"
unfolding decimal
decimal_404 = refl

status_error-404 :
    (method url body : String)
    → contains (status_error method url (pos 404) body).text "status 404" ≡ true
status_error-404 method url body = contains-after _ _ "status 404" (
    contains-after ": " _ "status 404" (
      rw (decimal_404, sym (append_assoc "status " "404" (": " ⊕ body)))
        (contains-start "status 404" (": " ⊕ body))))

-- A response of status 404, or one of status 400 or more whose body quotes "status 404".
pub data Mentions404 : Reply → Type 0 where
  not_found : (body : String) → Mentions404 (received (pos 404) (ok body))
  quoted :
      (code : ℤ) (before rest : String)
      → ltb_ℤ code (pos 400) ≡ false
      → Mentions404 (received code (ok (before ⊕ ("status 404" ⊕ rest))))

read_reply-Mentions404 :
    (method url : String) (reply : Reply)
    → Mentions404 reply
    → (e : GoError) × (read_reply method url reply ≡ err e) × (mentions e "status 404" ≡ true)
unfolding read_reply
read_reply-Mentions404 method url reply (not_found body) =
    (status_error method url (pos 404) body, refl, status_error-404 method url body)
read_reply-Mentions404 method url reply (quoted code before rest h) = (
  status_error method url code (before ⊕ ("status 404" ⊕ rest)),
  rw h,
  status_error-contains-body method url before "status 404" rest code,
)

abbrev pub delete_request : HttpClient → String → String → Request
delete_request c app id = request_of c "DELETE" (device_url app id) none

abbrev pub release_request : HttpClient → String → String → String → String → Request
release_request c app id flow version =
    request_of c "POST" (application_url app ⊕ "/edge/deployments/release") (
      some
        (("flowId", text flow) ∷ ("version", text version) ∷ ("deviceIds", texts (id ∷ [])) ∷ []))

pub delete_device-forgives :
    {W : Type 0} (env : Env W) (c : HttpClient) (app id : String) (w : W)
    → Mentions404 (env.send (delete_request c app id) w).0
    → (delete_device env c app id w).0 ≡ ok tt
unfolding delete_device do_request forgive_404
delete_device-forgives env c app id w gone =
    let (e, failed, said) = read_reply-Mentions404 "DELETE" (device_url app id) _ gone in
    rw (failed, said) refl

-- DeleteDevice takes a response of status 404 for a success, and ReleaseWorkflow reports it as
-- ErrWorkflowNotFound. Both do the same with every other response of status 400 or more whose body
-- has the text "status 404" in it: such a failed deletion is reported as done.
pub delete_device-Mentions404 :
    {W : Type 0} (env : Env W) (c : HttpClient) (app id flow version : String) (v w : W)
    → Mentions404 (env.send (delete_request c app id) v).0
    → Mentions404 (env.send (release_request c app id flow version) w).0
    → ((delete_device env c app id v).0 ≡ ok tt)
      × ((e : GoError) × ((release_workflow env c app id flow version w).0 ≡ err e)
          × (e.wraps ≡ some workflow_not_found))
unfolding release_workflow do_request name_404
delete_device-Mentions404 env c app id flow version v w gone unknown =
    let (e, failed, said) =
      read_reply-Mentions404 "POST" (application_url app ⊕ "/edge/deployments/release") _ unknown in
    (
      delete_device-forgives env c app id v gone,
      (
        record { text = "workflow not found: " ⊕ e.text; wraps = some workflow_not_found },
        rw (failed, said),
        refl,
      ),
    )
