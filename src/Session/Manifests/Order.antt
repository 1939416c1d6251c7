-- ===== src/Session/Manifests/Order.antt =====
-- A manifest is applied whole and in order, or an error is returned.
use losant_device.Prelude.{◌≡◌, refl, Bool, true, false, List, [], ◌∷◌, arith, if◌then◌else◌}
use losant_device.Go.{Fallible, ok, err, is_empty}
use losant_device.Exec.{Sys, next}
use losant_device.Kube.{Manifest}
use losant_device.Session.Env.{Env, Call, object_applied}
use losant_device.Session.Manifests.{apply_documents}
use losant_device.Session.Manifests.Keeps.{after_apply}

-- The objects that were applied with success, the newest first.
abbrev pub applied : List Call → List Manifest
applied [] = []
applied (object_applied obj (ok _) ∷ calls) = obj ∷ applied calls
applied (_ ∷ calls) = applied calls

-- The documents that name a kind, put in order on those applied before.
abbrev pub with_kinds : List (Fallible Manifest) → List Manifest → List Manifest
with_kinds [] before = before
with_kinds (err e ∷ docs) before = with_kinds docs before
with_kinds (ok obj ∷ docs) before =
    with_kinds docs (if is_empty obj.kind then before else obj ∷ before)

abbrev pub all_decoded : List (Fallible Manifest) → Bool
all_decoded [] = true
all_decoded (err e ∷ docs) = false
all_decoded (ok obj ∷ docs) = all_decoded docs

-- When the loop over the documents returns no error, every document was decoded, and exactly
-- the documents that name a kind were applied, each once and in the manifest's order.
pub apply_documents-whole :
    {W : Type 0} (env : Env W) (docs : List (Fallible Manifest)) (s : Sys W Call)
    → (apply_documents env docs s).0 ≡ next (ok tt)
    → (all_decoded docs ≡ true)
      × (applied (apply_documents env docs s).1.trace ≡ with_kinds docs (applied s.trace))
unfolding apply_documents
apply_documents-whole env [] s h = (refl, refl)
apply_documents-whole env (err e ∷ docs) s h = ground arith
apply_documents-whole env (ok obj ∷ docs) s h = ground (
  arith,
  apply_documents-whole env docs s,
  apply_documents-whole env docs (after_apply env obj s),
)
